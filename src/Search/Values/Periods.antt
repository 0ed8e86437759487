-- ===== src/Search/Values/Periods.antt =====
-- A date operand cuts time in three.
use kasas.Search.Values.{
  Period, date_test, op_eq, op_gt, op_lt, parse_period, period_from, op_ge, op_le, op_ne,
}
use kasas.Prelude.{
  Bool, Option, false, none, some, true, ◌≡◌, ◌⊎◌, Bool-cases, arith, if_elim, inl, inr, not, refl,
  subst, ◌==◌,
}
use kasas.Search.Outcome.{ok, Outcome}
use kasas.Search.Std.{OrdersTimes, Std}
use kasas.Prelude.Text.{Text, byte_length}
use kasas.Prelude.Trim.{trim_space}

module _ (s : Std) where
  -- Exactly one of the three tests passes.
  abbrev pub OneOf : Bool → Bool → Bool → Type 0
  OneOf a b c =
      (a ≡ true) × (b ≡ false) × (c ≡ false)
      ⊎ (a ≡ false) × (b ≡ true) × (c ≡ false)
      ⊎ (a ≡ false) × (b ≡ false) × (c ≡ true)

  -- A period that was parsed ends after it starts.
  abbrev Forward : Outcome (Period s) → Type 0
  Forward r = (p : Period s) → r ≡ ok p → s.before p.0 p.1 ≡ true

  period_from-Forward :
      (next : s.Time → s.Time) (o : Option s.Time)
      → ((t : s.Time) → s.before t (next t) ≡ true)
      → Forward (period_from s next o)
  period_from-Forward next none h p e = cc
  period_from-Forward next (some t) h p e =
      let same : (t, next t) ≡ p = cc in
      subst (λ (q : Period s). s.before q.0 q.1 ≡ true) same (h t)

  pub parse_period-Forward : (raw : Text) → OrdersTimes s → Forward (parse_period s raw)
  unfolding parse_period
  parse_period-Forward raw o =
      let t = trim_space raw in
      if_elim Forward (byte_length t == 4)
        (period_from-Forward s.next_year (s.new_year t) o.before_next_year)
        (if_elim Forward (byte_length t == 7)
          (period_from-Forward s.next_month (s.parse_month t) o.before_next_month)
          (if_elim Forward (byte_length t == 10)
            (period_from-Forward s.next_day (s.parse_day t) o.before_next_day) (λ p e. cc)))

  partition :
      (p : Period s) (d : s.Time)
      → OrdersTimes s
      → s.before p.0 p.1 ≡ true
      → OneOf (date_test s op_lt p d) (date_test s op_eq p d) (date_test s op_gt p d)
  unfolding date_test
  partition (start, end) d o h = elim (Bool-cases (s.before d start)) [
    | inl e ↦ ground (arith, o.before_trans d start end)
    | inr e ↦ elim (Bool-cases (s.before d end)) [
      | inl k ↦ rw (e, k) (inr (inl (refl, refl, refl)))
      | inr k ↦ rw (e, k) (inr (inr (refl, refl, refl)))
    ]
  ]

  complements :
      (p : Period s) (d : s.Time)
      → (date_test s op_ne p d ≡ not (date_test s op_eq p d))
        × (date_test s op_ge p d ≡ not (date_test s op_lt p d))
        × (date_test s op_le p d ≡ not (date_test s op_gt p d))
  unfolding date_test
  complements (start, end) d = ground arith

  -- A date operand that parses (a year, a month or a day) cuts time in three: of `date:<p`,
  -- `date:p` and `date:>p` exactly one matches an instant; `!=`, `>=` and `<=` match exactly where
  -- `=`, `<` and `>` do not. This rests on the order of instants, and on AddDate going forward.
  pub date_test_partition :
      (raw : Text) (p : Period s) (d : s.Time)
      → OrdersTimes s
      → parse_period s raw ≡ ok p
      → OneOf (date_test s op_lt p d) (date_test s op_eq p d) (date_test s op_gt p d)
        × (date_test s op_ne p d ≡ not (date_test s op_eq p d))
        × (date_test s op_ge p d ≡ not (date_test s op_lt p d))
        × (date_test s op_le p d ≡ not (date_test s op_gt p d))
  date_test_partition raw p d o e =
      let (ne, ge, le) = complements p d in
      (partition p d o (parse_period-Forward raw o p e), ne, ge, le)
