-- ===== src/Relationships/Order.antt =====
-- The order that sorts the edges.
use kasas.Prelude.Sort.{IsSorted, sort, sort-IsSorted}
use kasas.Prelude.{Bool-cases, List, false, inl, inr, sym, true, ◌∙◌, ◌≡◌}
use kasas.Prelude.Text.{
  ne_of_text_eq, text_eq, text_eq_iff, text_lt_asym, text_lt_negatively, text_lt_total, text_ne_sym,
}
use kasas.Relationships.{Relationship, edge_less}

edge_less_asym : (a b : Relationship) → edge_less a b ≡ true → edge_less b a ≡ false
unfolding edge_less
edge_less_asym a b h = elim (Bool-cases (text_eq a.kind b.kind)) [
  | inl e ↦
      rw ((text_eq_iff b.kind a.kind).1 (sym ((text_eq_iff a.kind b.kind).0 e)))
        (text_lt_asym a.target b.target (rw e at h))
  | inr e ↦ rw (text_ne_sym a.kind b.kind e) (text_lt_asym a.kind b.kind (rw e at h))
]

-- No edge is skipped: what is not before `b`, which is not before `a`, is not before `a`.
edge_less_negatively :
    (a b c : Relationship) → edge_less b a ≡ false → edge_less c b ≡ false → edge_less c a ≡ false
unfolding edge_less
edge_less_negatively a b c h k = elim (Bool-cases (text_eq b.kind a.kind)) [
  | inl e ↦
      let same = (text_eq_iff b.kind a.kind).0 e in
      elim (Bool-cases (text_eq c.kind b.kind)) [
        | inl f ↦
            let both = (text_eq_iff c.kind b.kind).0 f ∙ same in
            rw ((text_eq_iff c.kind a.kind).1 both)
              (text_lt_negatively a.target b.target c.target (rw e at h) (rw f at k))
        | inr f ↦ rw (← same) (rw f (rw f at k))
      ]
  | inr e ↦ elim (Bool-cases (text_eq c.kind b.kind)) [
    | inl f ↦ rw ((text_eq_iff c.kind b.kind).0 f) (rw e (rw e at h))
    | inr f ↦ elim (Bool-cases (text_eq c.kind a.kind)) [
      | inl g ↦
          let same = (text_eq_iff c.kind a.kind).0 g in
          let back = rw same at (rw f at k) in
          absurd (ne_of_text_eq b.kind a.kind e (text_lt_total b.kind a.kind (rw e at h) back))
      | inr g ↦ rw g (text_lt_negatively a.kind b.kind c.kind (rw e at h) (rw f at k))
    ]
  ]
]

pub sort_edges-IsSorted : (es : List Relationship) → IsSorted edge_less (sort edge_less es)
sort_edges-IsSorted = sort-IsSorted edge_less edge_less_asym edge_less_negatively
