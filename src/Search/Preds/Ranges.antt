-- ===== src/Search/Preds/Ranges.antt =====
-- Amount ranges.
use kasas.Prelude.{Bool-cases, Option-cases, ap, inl, inr, some, ℕ, ◌∷◌, ◌≡◌, ◌⊎◌}
use kasas.Search.Preds.{amount_range, in_amounts, ordered_limits}
use kasas.Search.Values.{drop_commas, parse_amount}
use kasas.Search.Outcome.{failed, invalid_amount, ok}
use kasas.Prelude.Text.{Text, text_eq}
use mathlib.Core.Path.{fun_ext}
use kasas.Search.Std.{OrdersAmounts, Std}
use kasas.Prelude.Trim.{trim_space}

module _ (s : Std) where
  limits_comm :
      (l h a : s.Amount)
      → OrdersAmounts s
      → in_amounts s (ordered_limits s (some l) (some h)) a
        ≡ in_amounts s (ordered_limits s (some h) (some l)) a
  unfolding in_amounts
  limits_comm l h a o = elim (Bool-cases (s.lt h l)) [
    | inl e ↦ rw (e, o.lt_asym h l e)
    | inr e ↦ elim (Bool-cases (s.lt l h)) [ inl k ↦ rw (e, k) | inr k ↦ rw (o.not_lt_eq h l e k) ]
  ]

  amount_outcome :
      (t : Text)
      → (parse_amount s t ≡ failed invalid_amount) ⊎ ((a : s.Amount) × (parse_amount s t ≡ ok a))
  unfolding parse_amount
  amount_outcome t = elim (Option-cases (s.parse_float (drop_commas (trim_space t)))) [
    | inl e ↦ inl (rw e)
    | inr (a, e) ↦ inr (a, rw e)
  ]

  -- With two limits that are both written the order of the limits says nothing: `amount:a..b` and
  -- `amount:b..a` are the same predicate, or the same error. This rests on the order of the amounts,
  -- so it is not said of a NaN.
  amount_range_comm :
      (x y : ℕ) (xs ys : Text)
      → OrdersAmounts s
      → amount_range s (x ∷ xs) (y ∷ ys) ≡ amount_range s (y ∷ ys) (x ∷ xs)
  unfolding amount_range text_eq
  amount_range_comm x y xs ys o = elim (amount_outcome (x ∷ xs)) [
    | inl e ↦ elim (amount_outcome (y ∷ ys)) [ inl k ↦ rw (e, k) | inr (h, k) ↦ rw (e, k) ]
    | inr (l, e) ↦ elim (amount_outcome (y ∷ ys)) [
      | inl k ↦ rw (e, k)
      | inr (h, k) ↦ rw (e, k) (ap ok (fun_ext (λ r. limits_comm l h r.amount o)))
    ]
  ]
