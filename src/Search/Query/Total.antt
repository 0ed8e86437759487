-- ===== src/Search/Query/Total.antt =====
-- `Parse` ends on every text.
use kasas.Search.Outcome.{
  Ensures, Ensures-bind, Ensures-if, Ensures-ne_out_of_fuel, Outcome, Problem, failed, holds,
  invalid_amount, ok, out_of_fuel, rejected, ◌>>=◌,
}
use kasas.Search.Parser.Total.{parse_tokens-ne_out_of_fuel}
use kasas.Search.Values.{
  CmpOp, drop_commas, op_contains, op_eq, op_ne, or_fail, parse_amount, parse_period, period_from,
  split_range,
}
use kasas.Prelude.{List, Option, [], inl, inr, none, refl, some, ◌∷◌, ◌≢◌, ◌==◌}
use kasas.Search.Preds.{
  Pred, amount_cmp, amount_pred, amount_range, bound, date_cmp, date_pred, date_range, key_leaf,
  key_pred, leaf_or, pending_pred, pred_from_term, presence, ranged, rel_leaf, rel_pred,
  related_pred, shorthand, text_pred, lower, normalize_key, one_of,
}
use kasas.Prelude.Text.{Text, codes, cut, text_eq, byte_length}
use kasas.Search.Std.{SearchRecord, Std}
use kasas.Search.Lexer.{Term, Token, lex, dequote}
use kasas.Search.Lexer.Quotes.{lex-outcome}
use kasas.Search.Query.{parse, rooted}
use kasas.Prelude.Dict.{Dict}
use kasas.Prelude.Trim.{trim_space}

pub >>=-ne_out_of_fuel {ℓ κ} :
    {A : Type ℓ} {C : Type κ} (m : Outcome A) (f : A → Outcome C)
    → m ≢ out_of_fuel
    → ((a : A) → f a ≢ out_of_fuel)
    → (m >>= f) ≢ out_of_fuel
>>=-ne_out_of_fuel (ok a) f h k = k a
>>=-ne_out_of_fuel (failed p) f h k = λ e. cc
>>=-ne_out_of_fuel out_of_fuel f h k = absurd (h refl)

module _ (s : Std) where
  abbrev Ends {ℓ} : {A : Type ℓ} → Outcome A → Type ℓ
  Ends {A = A} m = Ensures (λ (a : A). Unit {0}) m

  or_fail-Ends {ℓ} : {A : Type ℓ} (p : Problem) (o : Option A) → Ends (or_fail p o)
  or_fail-Ends p none = rejected
  or_fail-Ends p (some a) = holds tt

  period_from-Ends : (next : s.Time → s.Time) (o : Option s.Time) → Ends (period_from s next o)
  period_from-Ends next none = rejected
  period_from-Ends next (some t) = holds tt

  parse_amount-Ends : (t : Text) → Ends (parse_amount s t)
  unfolding parse_amount
  parse_amount-Ends t = or_fail-Ends invalid_amount (s.parse_float (drop_commas (trim_space t)))

  parse_period-Ends : (t : Text) → Ends (parse_period s t)
  unfolding parse_period
  parse_period-Ends t =
      let raw = trim_space t in
      Ensures-if (byte_length raw == 4) (period_from-Ends s.next_year (s.new_year raw)) (
        Ensures-if (byte_length raw == 7) (period_from-Ends s.next_month (s.parse_month raw)) (
          Ensures-if (byte_length raw == 10) (period_from-Ends s.next_day (s.parse_day raw))
            rejected))

  bound-Ends {ℓ} :
      {A : Type ℓ} (reader : Text → Outcome A)
      → ((t : Text) → Ends (reader t))
      → (t : Text) → Ends (bound s reader t)
  bound-Ends reader h [] = holds tt
  bound-Ends reader h (c ∷ cs) = Ensures-bind (h (c ∷ cs)) (λ a _. holds tt)

  text_pred-Ends : (raw : Text) (field : SearchRecord s → Text) → Ends (text_pred s raw field)
  unfolding text_pred
  text_pred-Ends raw field = Ensures-if _ rejected (holds tt)

  pending_pred-Ends : (raw : Text) → Ends (pending_pred s raw)
  unfolding pending_pred
  pending_pred-Ends raw =
      let t = lower s (trim_space (dequote raw)) in
      Ensures-if (one_of s (codes "true" ∷ codes "yes" ∷ codes "y" ∷ codes "t" ∷ codes "1" ∷ []) t)
        (holds tt)
        (Ensures-if
          (one_of s (codes "false" ∷ codes "no" ∷ codes "n" ∷ codes "f" ∷ codes "0" ∷ []) t)
          (holds tt) rejected)

  ranged-Ends :
      (range : Text → Text → Outcome (Pred s)) (single : Outcome (Pred s))
      (o : Option (Text × Text))
      → ((lo hi : Text) → Ends (range lo hi))
      → Ends single
      → Ends (ranged s range single o)
  ranged-Ends range single none h k = k
  ranged-Ends range single (some (lo, hi)) h k = h lo hi

  amount_pred-Ends : (raw : Text) → Ends (amount_pred s raw)
  unfolding amount_pred amount_range amount_cmp
  amount_pred-Ends raw = Ensures-if _ rejected (
      ranged-Ends _ _ (split_range (trim_space raw))
        (λ lo hi. Ensures-if _ rejected (
          Ensures-bind (bound-Ends (parse_amount s) parse_amount-Ends lo) (λ l _.
            Ensures-bind (bound-Ends (parse_amount s) parse_amount-Ends hi) (λ h _. holds tt))))
        (Ensures-bind (parse_amount-Ends _) (λ num _. holds tt)))

  date_pred-Ends : (raw : Text) (time_of : SearchRecord s → s.Time) → Ends (date_pred s raw time_of)
  unfolding date_pred date_range date_cmp
  date_pred-Ends raw time_of = Ensures-if _ rejected (
      ranged-Ends _ _ (split_range (trim_space raw))
        (λ lo hi. Ensures-if _ rejected (
          Ensures-bind (bound-Ends (parse_period s) parse_period-Ends lo) (λ l _.
            Ensures-bind (bound-Ends (parse_period s) parse_period-Ends hi) (λ h _. holds tt))))
        (Ensures-bind (parse_period-Ends _) (λ p _. holds tt)))

  key_leaf-Ends :
      (dict_of : SearchRecord s → Dict Text) (k v : Text) (op : CmpOp)
      → Ends (key_leaf s dict_of k v op)
  unfolding key_leaf
  key_leaf-Ends dict_of k v op =
      Ensures-if (text_eq (normalize_key s (dequote (trim_space k))) []) rejected
        (Ensures-if (text_eq (trim_space (dequote (trim_space v))) []) rejected (holds tt))

  leaf_or-Ends :
      (dict_of : SearchRecord s → Dict Text) (op : CmpOp) (other : Outcome (Pred s))
      (o : Option (Text × Text))
      → Ends other
      → Ends (leaf_or s dict_of op other o)
  leaf_or-Ends dict_of op other none h = h
  leaf_or-Ends dict_of op other (some (k, v)) h = key_leaf-Ends dict_of k v op

  key_pred-Ends :
      (dict_of : SearchRecord s → Dict Text) (raw : Text) → Ends (key_pred s dict_of raw)
  unfolding key_pred presence
  key_pred-Ends dict_of raw = leaf_or-Ends dict_of op_ne _ (cut (codes "!=") raw) (
      leaf_or-Ends dict_of op_contains _ (cut (codes "~") raw) (
        leaf_or-Ends dict_of op_eq _ (cut (codes "=") raw) (
          Ensures-if (text_eq (normalize_key s (dequote (trim_space raw))) []) rejected
            (holds tt))))

  rel_leaf-Ends : (raw : Text) (o : Option (Text × Text)) → Ends (rel_leaf s raw o)
  rel_leaf-Ends raw none =
      Ensures-if (text_eq (normalize_key s (dequote (trim_space raw))) []) rejected (holds tt)
  rel_leaf-Ends raw (some (k, t)) =
      Ensures-if (text_eq (normalize_key s (dequote (trim_space k))) []) rejected
        (Ensures-if (text_eq (trim_space (dequote (trim_space t))) []) rejected (holds tt))

  rel_pred-Ends : (raw : Text) → Ends (rel_pred s raw)
  unfolding rel_pred
  rel_pred-Ends raw = rel_leaf-Ends raw (cut (codes "=") raw)

  related_pred-Ends : (raw : Text) → Ends (related_pred s raw)
  unfolding related_pred
  related_pred-Ends raw =
      Ensures-if (text_eq (trim_space (dequote (trim_space raw))) []) rejected (holds tt)

  shorthand-Ends : (field value : Text) → Ends (shorthand s field value)
  unfolding shorthand
  shorthand-Ends field value =
      Ensures-if (text_eq (trim_space (dequote value)) []) rejected (holds tt)

  pred_from_term-Ends : (t : Term) → Ends (pred_from_term s t)
  unfolding pred_from_term
  pred_from_term-Ends t = Ensures-if (text_eq t.field []) (holds tt) (
      Ensures-if (text_eq t.field (codes "description")) (text_pred-Ends _ _) (
        Ensures-if (text_eq t.field (codes "payee")) (text_pred-Ends _ _) (
          Ensures-if (text_eq t.field (codes "memo")) (text_pred-Ends _ _) (
            Ensures-if (text_eq t.field (codes "account")) (text_pred-Ends _ _) (
              Ensures-if (text_eq t.field (codes "id")) (text_pred-Ends _ _) (
                Ensures-if (text_eq t.field (codes "amount")) (amount_pred-Ends _) (
                  Ensures-if (text_eq t.field (codes "date")) (date_pred-Ends _ _) (
                    Ensures-if (text_eq t.field (codes "synced")) (date_pred-Ends _ _) (
                      Ensures-if (text_eq t.field (codes "pending")) (pending_pred-Ends _) (
                        Ensures-if (text_eq t.field (codes "label"))
                          (key_pred-Ends (λ r. r.labels) _)
                          (Ensures-if (text_eq t.field (codes "ext"))
                            (key_pred-Ends (λ r. r.extensions) _)
                            (Ensures-if (text_eq t.field (codes "rel")) (rel_pred-Ends _) (
                              Ensures-if (text_eq t.field (codes "related")) (related_pred-Ends _)
                                (shorthand-Ends _ _))))))))))))))

  rooted-ne_out_of_fuel : (input : Text) (toks : List Token) → rooted s input toks ≢ out_of_fuel
  rooted-ne_out_of_fuel input [] = λ e. cc
  rooted-ne_out_of_fuel input (t ∷ ts) =
      >>=-ne_out_of_fuel _ _
        (parse_tokens-ne_out_of_fuel (pred_from_term s)
          (λ x. Ensures-ne_out_of_fuel (pred_from_term-Ends x)) (t ∷ ts))
        (λ n e. cc)

  -- `Parse` ends on every text, with a query or with an error, within the fuel that the lexer and the
  -- parser are given.
  pub parse-ne_out_of_fuel : (input : Text) → parse s input ≢ out_of_fuel
  unfolding parse
  parse-ne_out_of_fuel input =
      >>=-ne_out_of_fuel (lex s.case_table input) (rooted s input)
        (λ e. elim (lex-outcome s.case_table input) [ inl (o, f) ↦ cc | inr (z, (toks, f)) ↦ cc ])
        (rooted-ne_out_of_fuel input)
