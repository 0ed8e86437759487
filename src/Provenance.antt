-- ===== src/Provenance.antt =====
-- internal/provenance/provenance.go: the lineage of a transaction, from its row and its versions. The
-- arrow of a summary and the other texts are Go string literals.
pub mod Lineage
use kasas.Prelude.{Bool, List, Option, [], false, if◌then◌else◌, map, none, some, true, ◌++◌, ◌∷◌}
use kasas.Events.Diff.{FieldChange, Renderer, VersionDiff, diff_snapshots, zero_time}
use kasas.Prelude.Text.{Text, codes, text_lt}
use kasas.Prelude.Dict.{Dict, get, keys}
use kasas.Events.Codec.{TransactionPayload}
use kasas.Prelude.Int.{ℤ}
use kasas.Prelude.Sort.{sort}
use kasas.Store.Tables.{ChangeKind, edited, extended, imported, labeled, synced}

pub record Transformation : Type 0 where
  pub kind : ChangeKind
  pub occurred_at : ℤ
  pub summary : Text

pub record Version (V : Type 0) : Type 0 where
  pub kind : ChangeKind
  pub occurred_at : ℤ
  pub snapshot : TransactionPayload V

pub record Input (V : Type 0) : Type 0 where
  pub transaction_id : Text
  pub source : Text
  pub account_id : Text
  pub institution : Text
  pub last_seen : ℤ
  pub versions : List (Version V)

pub record Provenance : Type 0 where
  pub transaction_id : Text
  pub source : Text
  pub source_transaction_id : Text
  pub account_id : Text
  pub institution : Text
  pub imported_at : ℤ
  pub last_seen : ℤ
  pub transformations : List Transformation

-- The strings of events.go.
unfoldable pub change_name : ChangeKind → Text
change_name imported = codes "imported"
change_name synced = codes "synced"
change_name labeled = codes "labeled"
change_name extended = codes "extended"
change_name edited = codes "edited"

-- m[k], where a missing key reads as the zero value
abbrev pub value_or {ℓ} : {A : Type ℓ} → A → Option A → A
value_or d none = d
value_or d (some v) = v

-- the ranges over `sortedKeys(m)`
unfoldable pub sorted_parts {ℓ} : {A : Type ℓ} → (Text → Text) → Dict A → List Text
sorted_parts part m = map part (sort text_lt (keys m))

-- strings.Join
abbrev pub join : Text → List Text → Text
join sep [] = []
join sep (t ∷ []) = t
join sep (t ∷ next ∷ rest) = t ++ (sep ++ join sep (next ∷ rest))

abbrev pub arrow : Text
arrow = 0x2192 ∷ []

abbrev pub field_part : FieldChange → Text
field_part f = f.field ++ (codes " " ++ (f.from ++ (codes " " ++ (arrow ++ (codes " " ++ f.to)))))

abbrev pub added_part : Dict Text → Text → Text
added_part m k = codes "+" ++ (k ++ (codes ":" ++ value_or [] (get k m)))

abbrev pub changed_part : Dict (Text × Text) → Text → Text
changed_part m k =
    let c = value_or ([], []) (get k m) in
    codes "~" ++ (k ++ (codes ":" ++ (c.0 ++ (arrow ++ c.1))))

abbrev pub removed_part : Dict Text → Text → Text
removed_part m k = codes "-" ++ (k ++ (codes ":" ++ value_or [] (get k m)))

-- the parts that `summarize` appends, in order
unfoldable pub summary_parts : VersionDiff → List Text
unfolding sorted_parts
summary_parts d =
    map field_part d.fields
    ++ (sorted_parts (added_part d.labels.added) d.labels.added
        ++ (sorted_parts (changed_part d.labels.changed) d.labels.changed
            ++ (sorted_parts (removed_part d.labels.removed) d.labels.removed
                ++ (sorted_parts (◌++◌ (codes "+ext:")) d.extensions.added
                    ++ (sorted_parts (◌++◌ (codes "~ext:")) d.extensions.changed
                        ++ sorted_parts (◌++◌ (codes "-ext:")) d.extensions.removed)))))

abbrev pub is_imported : ChangeKind → Bool
is_imported imported = true
is_imported kind = false

abbrev pub join_or : Text → List Text → Text
join_or name [] = name
join_or name (p ∷ ps) = join (codes "; ") (p ∷ ps)

unfoldable pub summarize : Text → ChangeKind → VersionDiff → Text
unfolding summary_parts change_name
summarize source kind d =
    if is_imported kind
    then codes "imported from " ++ source
    else join_or (change_name kind) (summary_parts d)

-- The zero value of a snapshot.
abbrev pub zero_payload : (V : Type 0) → TransactionPayload V
zero_payload V = record {
  id = [];
  account_id = [];
  amount = [];
  pending = false;
  date = zero_time;
  description = [];
  payee = [];
  memo = [];
  labels = [];
  extensions = [];
}

module _ {V : Type 0} (r : Renderer V) where
  -- the loop of `Build`, with the snapshot before
  unfoldable pub transformations_from :
      Text → TransactionPayload V → List (Version V) → List Transformation
  unfolding summarize diff_snapshots
  transformations_from source prev [] = []
  transformations_from source prev (v ∷ rest) =
      record {
        kind = v.kind;
        occurred_at = v.occurred_at;
        summary = summarize source v.kind (diff_snapshots r prev v.snapshot);
      }
      ∷ transformations_from source v.snapshot rest

  abbrev pub first_time : ℤ → List (Version V) → ℤ
  first_time t [] = t
  first_time t (v ∷ rest) = v.occurred_at

  unfoldable pub build : Input V → Provenance
  unfolding transformations_from
  build i = record {
    transaction_id = i.transaction_id;
    source = i.source;
    source_transaction_id = i.transaction_id;
    account_id = i.account_id;
    institution = i.institution;
    imported_at = first_time i.last_seen i.versions;
    last_seen = i.last_seen;
    transformations = transformations_from i.source (zero_payload V) i.versions;
  }
