-- ===== src/Search/Values.antt =====
-- The operands of the fields of search.go: ranges, operators, amounts and dates.
pub mod Periods
use kasas.Prelude.{
  Bool, Option, [], drop, false, if◌then◌else◌, keep, ltb, none, not, some, ℕ, ◌&&◌, ◌+◌, ◌==◌,
  ◌||◌, ◌∷◌,
}
use kasas.Search.Outcome.{Outcome, Problem, failed, invalid_amount, invalid_date, ok}
use kasas.Prelude.Trim.{trim_space}
use kasas.Prelude.Text.{Text, codes, cut, has_prefix, byte_length}
use kasas.Search.Std.{Std}

pub data CmpOp : Type 0 where
  op_eq op_ne op_gt op_ge op_lt op_le op_contains : CmpOp

-- `splitRange`
abbrev trim_both : Option (Text × Text) → Option (Text × Text)
trim_both none = none
trim_both (some (lo, hi)) = some (trim_space lo, trim_space hi)

unfoldable pub split_range : Text → Option (Text × Text)
split_range s = trim_both (cut (codes "..") s)

-- `splitOp`: the longest operator first
unfoldable pub split_op : Text → CmpOp × Text
split_op s =
    if has_prefix s (codes ">=")
    then (op_ge, drop 2 s)
    else if has_prefix s (codes "<=")
    then (op_le, drop 2 s)
    else if has_prefix s (codes "!=")
    then (op_ne, drop 2 s)
    else if has_prefix s (codes ">")
    then (op_gt, drop 1 s)
    else if has_prefix s (codes "<")
    then (op_lt, drop 1 s)
    else if has_prefix s (codes "=")
    then (op_eq, drop 1 s)
    else (op_eq, s)

abbrev pub or_fail {ℓ} : {A : Type ℓ} → Problem → Option A → Outcome A
or_fail p none = failed p
or_fail p (some a) = ok a

-- strings.ReplaceAll(s, ",", "")
unfoldable pub drop_commas : Text → Text
drop_commas = keep (λ c. not (c == b','))

module _ (s : Std) where
  unfoldable pub parse_amount : Text → Outcome s.Amount
  unfolding drop_commas
  parse_amount t = or_fail invalid_amount (s.parse_float (drop_commas (trim_space t)))

  unfoldable pub cmp_float : s.Amount → s.Amount → CmpOp → Bool
  cmp_float a b op_eq = s.eq a b
  cmp_float a b op_ne = not (s.eq a b)
  cmp_float a b op_gt = s.lt b a
  cmp_float a b op_ge = s.le b a
  cmp_float a b op_lt = s.lt a b
  cmp_float a b op_le = s.le a b
  cmp_float a b op_contains = false

  abbrev pub Period : Type 0
  Period = s.Time × s.Time

  abbrev pub period_from : (s.Time → s.Time) → Option s.Time → Outcome Period
  period_from next none = failed invalid_date
  period_from next (some t) = ok (t, next t)

  -- the half-open interval of a year, a month or a day
  unfoldable pub parse_period : Text → Outcome Period
  parse_period raw =
      let t = trim_space raw in
      if byte_length t == 4
      then period_from s.next_year (s.new_year t)
      else if byte_length t == 7
      then period_from s.next_month (s.parse_month t)
      else if byte_length t == 10
      then period_from s.next_day (s.parse_day t)
      else failed invalid_date

  -- the comparison of `datePred` with no range
  unfoldable pub date_test : CmpOp → Period → s.Time → Bool
  date_test op_eq (start, end) d = not (s.before d start) && s.before d end
  date_test op_ne (start, end) d = s.before d start || not (s.before d end)
  date_test op_gt (start, end) d = not (s.before d end)
  date_test op_ge (start, end) d = not (s.before d start)
  date_test op_lt (start, end) d = s.before d start
  date_test op_le (start, end) d = s.before d end
  date_test op_contains (start, end) d = false
