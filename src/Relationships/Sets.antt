-- ===== src/Relationships/Sets.antt =====
-- What `Normalize` returns: canonical, distinct, sorted edges, at most 100 of them; and a second
-- normalisation changes nothing.
use kasas.Prelude.Trim.{is_space, trim_idem, trim_space}
use kasas.Prelude.Sort.{All-sort, IsSorted, insert_sorted, length-sort, sort, sort_of_IsSorted}
use kasas.Relationships.Kinds.{IsStoredKind, normalize_kind-IsStoredKind, normalize_kind_self}
use kasas.Relationships.{
  Collected, Relationship, add_edge, canonical, collect, edge_less, key, max_count, normalize,
}
use kasas.Prelude.{
  All, All-append, Bool-cases, List, [], append-nil, append_assoc, arith, false, if◌then◌else◌, inl,
  inr, leb, leb→lt, length, length-append, refl, suc, sym, true, ◌++◌, ◌+◌, ◌||◌, ◌∙◌, ◌∷◌, ◌≡◌,
  ◌≤◌, ap,
}
use kasas.Prelude.Text.{CaseTable, Text, text_eq, text_eq_iff}
use kasas.Prelude.Dict.{mem}
use kasas.Relationships.Order.{sort_edges-IsSorted}

unfoldable pub keys_of : List Relationship → List Text
keys_of [] = []
keys_of (e ∷ es) = key e ∷ keys_of es

-- No edge stands twice.
abbrev pub EdgesDistinct : List Relationship → Type 0
EdgesDistinct [] = Unit
EdgesDistinct (e ∷ es) = (mem (key e) (keys_of es) ≡ false) × EdgesDistinct es

-- An edge that may be stored.
pub record IsEdge (e : Relationship) : Type 0 where
  pub kind : IsStoredKind e.kind
  pub kind_nonempty : text_eq e.kind [] ≡ false
  pub target : trim_space e.target ≡ e.target
  pub target_nonempty : text_eq e.target [] ≡ false

-- A list of edges that may be stored.
pub record IsEdgeSet (es : List Relationship) : Type 0 where
  pub edges : All IsEdge es
  pub distinct : EdgesDistinct es
  pub sorted : IsSorted edge_less es
  pub bounded : length es ≤ max_count

mem-keys_snoc :
    (k : Text) (es : List Relationship) (e : Relationship)
    → mem k (keys_of (es ++ (e ∷ []))) ≡ (if text_eq (key e) k then true else mem k (keys_of es))
unfolding keys_of mem
mem-keys_snoc k [] e = refl
mem-keys_snoc k (x ∷ es) e = ground (arith, mem-keys_snoc k es e)

EdgesDistinct-snoc :
    (es : List Relationship) (e : Relationship)
    → EdgesDistinct es
    → mem (key e) (keys_of es) ≡ false
    → EdgesDistinct (es ++ (e ∷ []))
unfolding keys_of mem
EdgesDistinct-snoc [] e d h = (refl, tt)
EdgesDistinct-snoc (x ∷ es) e (n, d) h = (
  mem-keys_snoc (key x) es e
      ∙ ground (arith, text_eq_iff (key e) (key x), text_eq_iff (key x) (key e)),
  EdgesDistinct-snoc es e d (ground arith),
)

-- The loop's state: `seen` holds the keys of `out`.
record Good (c : Collected) : Type 0 where
  edges : All IsEdge c.0
  distinct : EdgesDistinct c.0
  bounded : length c.0 ≤ max_count
  tracked : (k : Text) → mem k c.1 ≡ mem k (keys_of c.0)

add_edge-Good :
    (e : Relationship) (c : Collected)
    → (text_eq e.kind [] ≡ false → text_eq e.target [] ≡ false → IsEdge e)
    → Good c
    → Good (add_edge e c)
unfolding add_edge
add_edge-Good e (out, seen) h g = elim (Bool-cases (text_eq e.kind [] || text_eq e.target [])) [
  | inl p ↦ rw p g
  | inr p ↦ elim (Bool-cases (mem (key e) seen)) [
    | inl q ↦ rw (p, q) g
    | inr q ↦ elim (Bool-cases (leb max_count (length out))) [
      | inl r ↦ rw (p, q, r) g
      | inr r ↦
          rw (p, q, r)
            (record {
              edges = All-append IsEdge out (e ∷ []) g.edges (h (ground arith) (ground arith), tt);
              distinct = EdgesDistinct-snoc out e g.distinct (sym (g.tracked (key e)) ∙ q);
              bounded = omega (arith, length-append out (e ∷ []), leb→lt max_count (length out) r);
              tracked = λ k. tracked_snoc k;
            })
    ]
  ]
]
  where
    tracked_snoc : (k : Text) → mem k (key e ∷ seen) ≡ mem k (keys_of (out ++ (e ∷ [])))
    tracked_snoc k = rw (mem-keys_snoc k out e) (unfold mem in rw (g.tracked k))

module _ (u : CaseTable) where
  canonical-IsEdge :
      (r : Relationship)
      → text_eq (canonical u r).kind [] ≡ false
      → text_eq (canonical u r).target [] ≡ false
      → IsEdge (canonical u r)
  canonical-IsEdge r k t = record {
    kind = normalize_kind-IsStoredKind u r.kind;
    kind_nonempty = k;
    target = trim_idem is_space r.target;
    target_nonempty = t;
  }

  collect-Good : (rs : List Relationship) (c : Collected) → Good c → Good (collect u rs c)
  unfolding collect
  collect-Good [] c g = g
  collect-Good (r ∷ rs) c g =
      collect-Good rs (add_edge (canonical u r) c)
        (add_edge-Good (canonical u r) c (canonical-IsEdge r) g)

  insert-keys :
      (k : Text) (e : Relationship) (es : List Relationship)
      → mem k (keys_of (insert_sorted edge_less e es))
        ≡ (if text_eq (key e) k then true else mem k (keys_of es))
  unfolding insert_sorted keys_of mem
  insert-keys k e [] = refl
  insert-keys k e (x ∷ es) = ground (arith, insert-keys k e es)

  insert-EdgesDistinct :
      (e : Relationship) (es : List Relationship)
      → mem (key e) (keys_of es) ≡ false
      → EdgesDistinct es
      → EdgesDistinct (insert_sorted edge_less e es)
  unfolding insert_sorted keys_of mem
  insert-EdgesDistinct e [] h d = (refl, tt)
  insert-EdgesDistinct e (x ∷ es) h (n, d) = elim (Bool-cases (edge_less x e)) [
    | inl p ↦ rw p (
      insert-keys (key x) e es
          ∙ ground (arith, text_eq_iff (key e) (key x), text_eq_iff (key x) (key e)),
      insert-EdgesDistinct e es (ground arith) d,
    )
    | inr p ↦ rw p (h, (n, d))
  ]

  sort-keys :
      (k : Text) (es : List Relationship) → mem k (keys_of (sort edge_less es)) ≡ mem k (keys_of es)
  unfolding sort keys_of mem
  sort-keys k [] = refl
  sort-keys k (e ∷ es) = insert-keys k e (sort edge_less es) ∙ rw (sort-keys k es)

  sort-EdgesDistinct :
      (es : List Relationship) → EdgesDistinct es → EdgesDistinct (sort edge_less es)
  unfolding sort
  sort-EdgesDistinct [] d = tt
  sort-EdgesDistinct (e ∷ es) (n, d) =
      insert-EdgesDistinct e (sort edge_less es) (sort-keys (key e) es ∙ n)
        (sort-EdgesDistinct es d)

  -- Whatever the input, `Normalize` returns edges of a canonical, non-empty kind and a trimmed,
  -- non-empty target; no edge twice, at most 100, and sorted by kind and then target.
  pub normalize-IsEdgeSet : (input : List Relationship) → IsEdgeSet (normalize u input)
  unfolding normalize
  normalize-IsEdgeSet input =
      let c = collect u input ([], []) in
      let g =
        collect-Good input ([], [])
          (record {
            edges = tt;
            distinct = tt;
            bounded = omega arith;
            tracked = λ k. unfold mem keys_of in refl;
          }) in
      record {
        edges = All-sort edge_less IsEdge c.0 g.edges;
        distinct = sort-EdgesDistinct c.0 g.distinct;
        sorted = sort_edges-IsSorted c.0;
        bounded = omega (arith, length-sort edge_less c.0, g.bounded);
      }

  canonical_self : (e : Relationship) → IsEdge e → canonical u e ≡ e
  canonical_self e h =
      λ i. record { kind = normalize_kind_self u e.kind h.kind i; target = h.target i }

  -- No edge has a key that was seen.
  abbrev Fresh : List Text → List Relationship → Type 0
  Fresh seen es = All (λ e. mem (key e) seen ≡ false) es

  Fresh-cons :
      (k : Text) (seen : List Text) (es : List Relationship)
      → mem k (keys_of es) ≡ false
      → Fresh seen es
      → Fresh (k ∷ seen) es
  unfolding keys_of mem
  Fresh-cons k seen [] h f = tt
  Fresh-cons k seen (e ∷ es) h (n, f) = (
    ground (arith, text_eq_iff k (key e), text_eq_iff (key e) k),
    Fresh-cons k seen es (ground arith) f,
  )

  add_edge_fresh :
      (e : Relationship) (out : List Relationship) (seen : List Text)
      → IsEdge e
      → mem (key e) seen ≡ false
      → suc (length out) ≤ max_count
      → add_edge e (out, seen) ≡ (out ++ (e ∷ []), key e ∷ seen)
  unfolding add_edge
  add_edge_fresh e out seen h n b = ground (arith, h.kind_nonempty, h.target_nonempty)

  collect_self :
      (es out : List Relationship) (seen : List Text)
      → All IsEdge es
      → EdgesDistinct es
      → Fresh seen es
      → length out + length es ≤ max_count
      → (collect u es (out, seen)).0 ≡ out ++ es
  unfolding collect
  collect_self [] out seen h d f b = sym (append-nil out)
  collect_self (e ∷ es) out seen (h, hs) (n, d) f b =
      let (fresh, later) = f in
      ap (λ x. (collect u es (add_edge x (out, seen))).0) (canonical_self e h)
      ∙ ap (λ c. (collect u es c).0) (add_edge_fresh e out seen h fresh (omega arith))
      ∙ collect_self es (out ++ (e ∷ [])) (key e ∷ seen) hs d (Fresh-cons (key e) seen es n later)
          (omega (arith, length-append out (e ∷ [])))
      ∙ append_assoc out (e ∷ []) es

  Fresh-nil : (es : List Relationship) → Fresh [] es
  unfolding mem
  Fresh-nil [] = tt
  Fresh-nil (e ∷ es) = (refl, Fresh-nil es)

  -- A list that may be stored is its own canonical form.
  pub normalize_self : (es : List Relationship) → IsEdgeSet es → normalize u es ≡ es
  unfolding normalize
  normalize_self es s =
      rw (collect_self es [] [] s.edges s.distinct (Fresh-nil es) (omega (arith, s.bounded)))
        (sort_of_IsSorted edge_less es s.sorted)

  -- Normalising a list of edges twice gives the very list that normalising it once gives.
  pub normalize_idem :
      (input : List Relationship) → normalize u (normalize u input) ≡ normalize u input
  normalize_idem input = normalize_self (normalize u input) (normalize-IsEdgeSet input)
