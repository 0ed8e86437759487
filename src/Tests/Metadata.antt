-- ===== src/Tests/Metadata.antt =====
-- Labels and relationships at concrete inputs.
use kasas.Labels
use kasas.Relationships.Kinds.{normalize_kind_canonical}
use kasas.Prelude.Dict.{keys, get, has, mem, put}
use kasas.Prelude.Sort.{sort, insert_sorted}
use kasas.Prelude.Text.{text_lt, text_eq, to_lower, lower_rune}
use kasas.Prelude.Trim.{trim, trim_left, trim_right, is_space}
use kasas.Relationships
use kasas.Prelude.Text.{Text, ascii_case, ascii_case-LowersOnce, codes}
use kasas.Prelude.Dict.{Dict, SameDict}
use kasas.Prelude.{List, [], refl, ◌∷◌, ◌≡◌}
use kasas.Relationships.Sets.{IsEdgeSet, normalize-IsEdgeSet, normalize_idem}
use kasas.Labels.{normalize_value}
use kasas.Relationships.Kinds.{IsStoredKind}
use kasas.Labels.Sets.{IsLabelSet, normalize-IsLabelSet}
use kasas.Labels.Keys.{IsKey, IsValue, normalize-idem_IsKey}
use kasas.Relationships.{Relationship, normalize_kind}
use kasas.Labels.Stable.{normalize-normalize}

abbrev messy_labels : Dict Text
messy_labels = (codes " A", codes " x") ∷ (codes "A", codes "y") ∷ (codes "b", codes " ") ∷ []

messy_labels-normalize : Labels.normalize ascii_case messy_labels ≡ (codes "a", codes "y") ∷ []
unfolding Labels.normalize Labels.normalize_from sort keys text_lt Labels.add_pair text_eq
    Labels.normalize_key trim trim_right trim_left to_lower is_space Labels.is_key_rune lower_rune
    normalize_value Labels.value_of get Labels.cap_runes has mem put insert_sorted
messy_labels-normalize = refl

normalize-IsLabelSet_example : IsLabelSet ascii_case (Labels.normalize ascii_case messy_labels)
normalize-IsLabelSet_example = normalize-IsLabelSet ascii_case messy_labels ascii_case-LowersOnce

normalize-normalize_example :
    SameDict
      (Labels.normalize ascii_case (Labels.normalize ascii_case messy_labels))
      (Labels.normalize ascii_case messy_labels)
normalize-normalize_example = normalize-normalize ascii_case messy_labels ascii_case-LowersOnce

normalize-idem_IsKey_example :
    (Labels.normalize_key ascii_case (Labels.normalize_key ascii_case (codes " My \"Key\" "))
      ≡ Labels.normalize_key ascii_case (codes " My \"Key\" "))
    × IsKey ascii_case (Labels.normalize_key ascii_case (codes " My \"Key\" "))
    × (normalize_value (normalize_value (codes " My \"Key\" "))
        ≡ normalize_value (codes " My \"Key\" "))
    × IsValue (normalize_value (codes " My \"Key\" "))
normalize-idem_IsKey_example =
    normalize-idem_IsKey ascii_case (codes " My \"Key\" ") ascii_case-LowersOnce

normalize_kind_canonical_example :
    IsStoredKind (normalize_kind ascii_case (codes "Refund -- of"))
    × (normalize_kind ascii_case (normalize_kind ascii_case (codes "Refund -- of"))
        ≡ normalize_kind ascii_case (codes "Refund -- of"))
normalize_kind_canonical_example = normalize_kind_canonical ascii_case (codes "Refund -- of")

abbrev messy_edges : List Relationship
messy_edges =
    record { kind = codes "R O"; target = codes " t2 " }
    ∷ record { kind = codes "r_o"; target = codes "t2" }
    ∷ record { kind = codes "p"; target = codes "t9" }
    ∷ []

messy_edges-normalize :
    Relationships.normalize ascii_case messy_edges
    ≡ record { kind = codes "p"; target = codes "t9" }
      ∷ record { kind = codes "r_o"; target = codes "t2" }
      ∷ []
unfolding Relationships.normalize Relationships.collect Relationships.add_edge sort insert_sorted
    text_eq normalize_kind to_lower trim trim_right trim_left is_space lower_rune
    Relationships.edge_less text_lt Relationships.write_kind Relationships.is_ident
    Relationships.is_separator Relationships.cap_kind Relationships.key mem
messy_edges-normalize = refl

normalize-IsEdgeSet_example : IsEdgeSet (Relationships.normalize ascii_case messy_edges)
normalize-IsEdgeSet_example = normalize-IsEdgeSet ascii_case messy_edges

normalize_idem_example :
    Relationships.normalize ascii_case (Relationships.normalize ascii_case messy_edges)
    ≡ Relationships.normalize ascii_case messy_edges
normalize_idem_example = normalize_idem ascii_case messy_edges
