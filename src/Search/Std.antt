-- ===== src/Search/Std.antt =====
-- What search.go takes from Go's libraries and does not implement: floats and times, and the record
-- of a transaction that holds them.
use mathlib.Core.Bool.{Bool}
use kasas.Prelude.Text.{CaseTable, Text}
use kasas.Prelude.{List, Option, false, not, true, ◌≡◌}
use kasas.Prelude.Dict.{Dict}

-- `lt`, `le` and `eq` are the comparisons of float64; `parse_float` is strconv.ParseFloat(s, 64).
-- `new_year` is time.Date(y, 1, 1, 0, 0, 0, 0, time.UTC) of strconv.Atoi; `parse_month` and
-- `parse_day` are time.ParseInLocation of "2006-01" and "2006-01-02"; the `next` are AddDate by one.
pub record Std : Type 1 where
  pub Amount : Type 0
  pub parse_float : Text → Option Amount
  pub lt : Amount → Amount → Bool
  pub le : Amount → Amount → Bool
  pub eq : Amount → Amount → Bool
  pub Time : Type 0
  pub before : Time → Time → Bool
  pub new_year : Text → Option Time
  pub parse_month : Text → Option Time
  pub parse_day : Text → Option Time
  pub next_year : Time → Time
  pub next_month : Time → Time
  pub next_day : Time → Time
  pub case_table : CaseTable

-- Floats that are no NaN are ordered.
pub record OrdersAmounts (s : Std) : Type 0 where
  pub le_not_lt : (a b : s.Amount) → s.le a b ≡ not (s.lt b a)
  pub lt_asym : (a b : s.Amount) → s.lt a b ≡ true → s.lt b a ≡ false
  pub lt_trans_not : (a b c : s.Amount) → s.lt b a ≡ false → s.lt c b ≡ false → s.lt c a ≡ false
  pub not_lt_eq : (a b : s.Amount) → s.lt a b ≡ false → s.lt b a ≡ false → a ≡ b

-- Instants are ordered, and adding to a date goes forward.
pub record OrdersTimes (s : Std) : Type 0 where
  pub before_trans :
      (a b c : s.Time) → s.before a b ≡ true → s.before b c ≡ true → s.before a c ≡ true
  pub before_next_year : (t : s.Time) → s.before t (s.next_year t) ≡ true
  pub before_next_month : (t : s.Time) → s.before t (s.next_month t) ≡ true
  pub before_next_day : (t : s.Time) → s.before t (s.next_day t) ≡ true

-- `Direction` of an edge: "outbound" or "inbound".
pub data Direction : Type 0 where
  outbound inbound : Direction

pub record Relationship : Type 0 where
  pub kind : Text
  pub target : Text
  pub direction : Direction

-- `search.Record`
pub record SearchRecord (s : Std) : Type 0 where
  pub id : Text
  pub account_id : Text
  pub account_name : Text
  pub amount : s.Amount
  pub amount_raw : Text
  pub pending : Bool
  pub date : s.Time
  pub description : Text
  pub payee : Text
  pub memo : Text
  pub labels : Dict Text
  pub extensions : Dict Text
  pub relationships : List Relationship
  pub synced_at : s.Time
