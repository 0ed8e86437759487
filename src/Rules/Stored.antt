-- ===== src/Rules/Stored.antt =====
-- Rules leave labels and extensions that may be stored.
use kasas.Rules.{
  Compiled, apply, apply_extensions, extensions_of, labels_of, merge, reduce, same_pairs, settle,
  unapply, unapply_extensions,
}
use kasas.Search.Std.{SearchRecord, Std}
use kasas.Extensions.Sets.{IsExtensionSet, normalize-IsExtensionSet}
use kasas.Prelude.{Bool, List, if_elim}
use kasas.Prelude.Dict.{Dict}
use kasas.Prelude.Text.{LowersOnce, Text}
use kasas.Labels.Sets.{IsLabelSet, normalize-IsLabelSet}
use kasas.Events.Codec.{Codec}

module _ (s : Std) where
  -- `settle` keeps what holds of both sets, and tells by its flag which one it gives.
  settle-All {κ} :
      (P : Dict Text → Type κ) (normalized current : Dict Text)
      → P normalized
      → P current
      → P (settle s normalized current).0
  settle-All P normalized current h k =
      if_elim (λ (p : Dict Text × Bool). P p.0) (same_pairs s normalized current) k h

  -- From labels that may be stored, `Apply` and `Unapply` give labels that may be stored, whatever the
  -- rules set, when the lower-case mapping of runes is idempotent.
  pub apply-IsLabelSet :
      (compiled : List (Compiled s)) (r : SearchRecord s) (current : Dict Text)
      → LowersOnce s.case_table
      → IsLabelSet s.case_table current
      → IsLabelSet s.case_table (apply s compiled r current).0
        × IsLabelSet s.case_table (unapply s compiled r current).0
  unfolding apply unapply
  apply-IsLabelSet compiled r current l k =
      let stored = λ (m : Dict Text). normalize-IsLabelSet s.case_table m l in
      (
        settle-All (IsLabelSet s.case_table) _ current
            (stored (merge s (labels_of s) compiled r current)) k,
        settle-All (IsLabelSet s.case_table) _ current
            (stored (reduce s (labels_of s) compiled r current)) k,
      )

  -- From extensions that may be stored, `ApplyExtensions` and `UnapplyExtensions` give extensions that
  -- may be stored, whatever the rules set.
  pub apply_extensions-IsExtensionSet :
      (c : Codec) (compiled : List (Compiled s)) (r : SearchRecord s) (current : Dict Text)
      → IsExtensionSet c current
      → IsExtensionSet c (apply_extensions s c compiled r current).0
        × IsExtensionSet c (unapply_extensions s c compiled r current).0
  unfolding apply_extensions unapply_extensions
  apply_extensions-IsExtensionSet c compiled r current k = (
    settle-All (IsExtensionSet c) _ current
        (normalize-IsExtensionSet c (merge s (extensions_of s) compiled r current)) k,
    settle-All (IsExtensionSet c) _ current
        (normalize-IsExtensionSet c (reduce s (extensions_of s) compiled r current)) k,
  )
