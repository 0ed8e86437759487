-- ===== src/Events/Diff.antt =====
-- internal/events/diff.go: how one version of a transaction differs from the one before it. A Go map's
-- keys are distinct, so a loop that writes each key once may visit them in any order; here the last
-- entry is written first.
pub mod Keys
pub mod Empty
use kasas.Prelude.{Bool, List, Option, [], false, if◌then◌else◌, keep, none, not, some, true, ◌∷◌}
use kasas.Prelude.Text.{Text, codes, text_eq}
use kasas.Prelude.Dict.{Dict, get, has, put}
use kasas.Prelude.Int.{int_eq, negsuc, ℤ}
use kasas.Events.Codec.{TransactionPayload}

pub record FieldChange : Type 0 where
  pub field : Text
  pub from : Text
  pub to : Text

-- What `VersionDiff` holds for the labels, and again for the extensions.
pub record Changes : Type 0 where
  pub added : Dict Text
  pub removed : Dict Text
  pub changed : Dict (Text × Text)

pub record VersionDiff : Type 0 where
  pub fields : List FieldChange
  pub labels : Changes
  pub extensions : Changes

-- What the code takes from Go's libraries: the type assertion to a string and json.Marshal on a decoded
-- value, and time.Format.
pub record Renderer (V : Type 0) : Type 0 where
  pub as_string : V → Option Text
  pub marshal_value : V → Option Text
  pub format : ℤ → Text

abbrev or_empty : Option Text → Text
or_empty none = []
or_empty (some t) = t

abbrev string_or : Option Text → Option Text → Text
string_or none encoded = or_empty encoded
string_or (some t) encoded = t

-- Go's zero time, in seconds since 1970.
abbrev pub zero_time : ℤ
zero_time = negsuc 62135596799

module _ {V : Type 0} (r : Renderer V) where
  unfoldable pub stringify_ext : V → Text
  stringify_ext v = string_or (r.as_string v) (r.marshal_value v)

  unfoldable pub fmt_diff_time : ℤ → Text
  fmt_diff_time t = if int_eq t zero_time then [] else r.format t

-- strconv.FormatBool
abbrev pub format_bool : Bool → Text
format_bool true = codes "true"
format_bool false = codes "false"

module _ {A : Type 0} (text : A → Text) where
  -- The body of the loop over the new map, for a key whose old value is given.
  abbrev pub compare_entry : Text → A → Option A → Changes → Changes
  compare_entry k v none d = record d { added = put k (text v) d.added }
  compare_entry k v (some old) d =
      if text_eq (text old) (text v)
      then d
      else record d { changed = put k (text old, text v) d.changed }

  unfoldable pub diff_new : Dict A → Dict A → Changes
  diff_new prev [] = record { added = []; removed = []; changed = [] }
  diff_new prev ((k, v) ∷ rest) = compare_entry k v (get k prev) (diff_new prev rest)

  unfoldable pub diff_removed : Dict A → Dict A → Dict Text
  diff_removed [] next = []
  diff_removed ((k, v) ∷ rest) next =
      let others = diff_removed rest next in if has k next then others else put k (text v) others

  unfoldable pub diff_maps : Dict A → Dict A → Changes
  unfolding diff_new diff_removed
  diff_maps prev next = record (diff_new prev next) { removed = diff_removed prev next }

abbrev pub differs : FieldChange → Bool
differs c = not (text_eq c.from c.to)

abbrev pub same_text : Text → Text
same_text t = t

module _ {V : Type 0} (r : Renderer V) where
  -- the arguments of the calls of `add`
  abbrev pub candidates : TransactionPayload V → TransactionPayload V → List FieldChange
  candidates prev next =
      record { field = codes "account_id"; from = prev.account_id; to = next.account_id }
      ∷ record { field = codes "amount"; from = prev.amount; to = next.amount }
      ∷ record {
        field = codes "pending";
        from = format_bool prev.pending;
        to = format_bool next.pending;
      }
      ∷ record {
        field = codes "date";
        from = fmt_diff_time r prev.date;
        to = fmt_diff_time r next.date;
      }
      ∷ record { field = codes "description"; from = prev.description; to = next.description }
      ∷ record { field = codes "payee"; from = prev.payee; to = next.payee }
      ∷ record { field = codes "memo"; from = prev.memo; to = next.memo }
      ∷ []

  unfoldable pub diff_snapshots : TransactionPayload V → TransactionPayload V → VersionDiff
  unfolding diff_maps stringify_ext
  diff_snapshots prev next = record {
    fields = keep differs (candidates prev next);
    labels = diff_maps same_text prev.labels next.labels;
    extensions = diff_maps (stringify_ext r) prev.extensions next.extensions;
  }
