-- ===== src/Rules/Applied.antt =====
-- What `Apply` and `Unapply` leave at each key of the labels.
use kasas.Rules.{
  Compiled, apply, labels_of, merge, reduce, remove_pairs, same_pairs, settle, unapply,
}
use kasas.Rules.Effects.{merge-last, merge-silent, reduce-get, sets_key, sets_pair}
use kasas.Rules.Pairs.{length-remove_le, remove-KeysDistinct, same_pairs-SameDict}
use kasas.Labels.{normalize}
use kasas.Search.Query.{matches}
use kasas.Labels.Stable.{normalize-SameDict}
use kasas.Labels.Sets.{IsLabel, IsLabelSet, normalize-IsLabelSet}
use kasas.Search.Std.{SearchRecord, Std}
use kasas.Prelude.Text.{LowersOnce, Text, text_eq}
use kasas.Prelude.{
  All, Bool-cases, List, [], any, arith, false, if_elim, if◌then◌else◌, inl, inr, none, some, sym,
  true, ◌++◌, ◌∙◌, ◌∷◌, ◌≡◌,
}
use kasas.Prelude.Dict.{Dict, KeysDistinct, SameDict, get, remove}
use kasas.Labels.{value_of}

All-remove : (P : Text × Text → Type 0) (k : Text) (m : Dict Text) → All P m → All P (remove k m)
unfolding remove
All-remove P k [] h = tt
All-remove P k ((j, w) ∷ m) (p, h) =
    if_elim (All P) (text_eq j k) (All-remove P k m h) (p, All-remove P k m h)

module _ (s : Std) where
  remove-IsLabelSet :
      (k : Text) (m : Dict Text) → IsLabelSet s.case_table m → IsLabelSet s.case_table (remove k m)
  remove-IsLabelSet k m h = record {
    labels = All-remove (λ e. IsLabel s.case_table e.0 e.1) k m h.labels;
    distinct = remove-KeysDistinct k m h.distinct;
    bounded = omega (arith, length-remove_le k m, h.bounded);
  }

  remove_pairs-IsLabelSet :
      (ps m : Dict Text) → IsLabelSet s.case_table m → IsLabelSet s.case_table (remove_pairs s ps m)
  unfolding remove_pairs
  remove_pairs-IsLabelSet [] m h = h
  remove_pairs-IsLabelSet ((k, v) ∷ ps) m h =
      remove_pairs-IsLabelSet ps _
        (if_elim (IsLabelSet s.case_table) (text_eq (value_of m k) v) (remove-IsLabelSet k m h) h)

  reduce-IsLabelSet :
      (cs : List (Compiled s)) (r : SearchRecord s) (m : Dict Text)
      → IsLabelSet s.case_table m
      → IsLabelSet s.case_table (reduce s (labels_of s) cs r m)
  unfolding reduce
  reduce-IsLabelSet [] r m h = h
  reduce-IsLabelSet (c ∷ cs) r m h = reduce-IsLabelSet cs r _ (
      if_elim (IsLabelSet s.case_table) (matches s c.query r)
        (remove_pairs-IsLabelSet c.rule_labels m h) h)

  -- A set that may be stored is what `settle` gives for it.
  settle-SameDict :
      (m current : Dict Text)
      → LowersOnce s.case_table
      → IsLabelSet s.case_table m
      → KeysDistinct current
      → SameDict (settle s (normalize s.case_table m) current).0 m
  settle-SameDict m current l h d k =
      let normal = normalize-IsLabelSet s.case_table m l in
      elim (Bool-cases (same_pairs s (normalize s.case_table m) current)) [
        | inl e ↦ rw e (
            sym (same_pairs-SameDict s (normalize s.case_table m) current normal.distinct d e k)
            ∙ normalize-SameDict s.case_table m h k)
        | inr e ↦ rw e (normalize-SameDict s.case_table m h k)
      ]

  -- From labels that may be stored, `Unapply` removes exactly what the rules set: a key is gone if a
  -- matching rule has it with the very value that it has, and keeps its value otherwise, when the
  -- lower-case mapping of runes is idempotent.
  pub unapply-get :
      (cs : List (Compiled s)) (r : SearchRecord s) (current : Dict Text) (k : Text)
      → LowersOnce s.case_table
      → IsLabelSet s.case_table current
      → get k (unapply s cs r current).0 ≡ (
          if any (sets_pair s (labels_of s) r k (value_of current k)) cs
          then none
          else get k current)
  unfolding unapply
  unapply-get cs r current k l h =
      settle-SameDict (reduce s (labels_of s) cs r current) current l
        (reduce-IsLabelSet cs r current h) h.distinct k
      ∙ reduce-get s (labels_of s) r k cs current

  -- Later rules win, where the merged labels may be stored as they are, that is, are canonical and not
  -- too many: where a matching rule gives a key a value, and no matching rule behind it has the key,
  -- `Apply` gives the key that value, whatever the rules before it and the current labels say; and a
  -- key that no matching rule has keeps its value. The keys of a rule and of the current labels are
  -- distinct, as a Go map's are, and the lower-case mapping of runes is idempotent.
  pub apply-last :
      (before : List (Compiled s)) (c : Compiled s) (after : List (Compiled s)) (r : SearchRecord s)
      (current : Dict Text) (k v : Text)
      → LowersOnce s.case_table
      → KeysDistinct current
      → IsLabelSet s.case_table (merge s (labels_of s) (before ++ (c ∷ after)) r current)
      → any (sets_key s (labels_of s) r k) after ≡ false
      → matches s c.query r ≡ true
      → KeysDistinct c.rule_labels
      → get k c.rule_labels ≡ some v
      → (get k (apply s (before ++ (c ∷ after)) r current).0 ≡ some v)
        × ((j : Text)
            → any (sets_key s (labels_of s) r j) (before ++ (c ∷ after)) ≡ false
            → get j (apply s (before ++ (c ∷ after)) r current).0 ≡ get j current)
  unfolding apply
  apply-last before c after r current k v l d h silent hit e g =
      let merged = merge s (labels_of s) (before ++ (c ∷ after)) r current in
      let settled = settle-SameDict merged current l h d in
      (
        settled k ∙ (merge-last s (labels_of s) r k v before c after current silent hit e g).0,
        λ j none_has.
            settled j ∙ merge-silent s (labels_of s) r j (before ++ (c ∷ after)) current none_has,
      )
