-- ===== src/Search/Preds/Keys.antt =====
-- Predicates on labels and extensions.
use kasas.Prelude.{Bool-cases, Option, [], ap, inl, inr, none, not, refl, some, ◌≡◌}
use kasas.Search.Values.{op_eq, op_ne}
use kasas.Search.Outcome.{Outcome, ok, ◌>>=◌}
use kasas.Search.Lexer.{dequote}
use kasas.Prelude.Text.{Text, text_eq, to_lower}
use kasas.Search.Preds.{Pred, key_leaf, normalize_key, value_test}
use kasas.Prelude.Dict.{Dict, get}
use mathlib.Core.Path.{fun_ext}
use kasas.Search.Std.{SearchRecord, Std}
use kasas.Prelude.Trim.{trim_space}

module _ (s : Std) (dict_of : SearchRecord s → Dict Text) where
  abbrev pub negate_outcome : Outcome (Pred s) → Outcome (Pred s)
  negate_outcome m = m >>= λ p. ok (λ r. not (p r))

  value_test_ne :
      (want : Text) (o : Option Text) → value_test s op_ne want o ≡ not (value_test s op_eq want o)
  unfolding value_test
  value_test_ne want none = refl
  value_test_ne want (some cur) = refl

  -- `label:k!=v` and `label:k=v` (so too `ext:`) fail on the same operands, and on any other they are
  -- each other's negation; in particular a transaction with no such key matches `!=`.
  key_leaf_ne :
      (k v : Text) → key_leaf s dict_of k v op_ne ≡ negate_outcome (key_leaf s dict_of k v op_eq)
  unfolding key_leaf
  key_leaf_ne raw_key raw_val =
      let key = normalize_key s (dequote (trim_space raw_key)) in
      let v = trim_space (dequote (trim_space raw_val)) in
      elim (Bool-cases (text_eq key [])) [
        | inl e ↦ rw e
        | inr e ↦ elim (Bool-cases (text_eq v [])) [
          | inl k ↦ rw (e, k)
          | inr k ↦
              rw (e, k)
                (ap ok
                  (fun_ext (λ r. value_test_ne (to_lower s.case_table v) (get key (dict_of r)))))
        ]
      ]
