-- ===== src/Ledger/Strip.antt =====
-- After a transaction is deleted nothing points at it.
use kasas.Prelude.{
  All, All-map_impl, Bool, Bool-cases, List, [], any, arith, false, inl, inr, not, some, sym, true,
  ◌&&◌, ◌∷◌, ◌≡◌, ◌⊎◌,
}
use kasas.Prelude.Text.{CaseTable, Text, text_eq, text_eq_iff}
use kasas.Relationships.Subsets.{IsEdgeSet-keep, any-keep-not}
use kasas.Store.{has_id, update_where}
use kasas.Relationships.Sets.{IsEdgeSet}
use kasas.Events.Codec.{Codec, RoundTrips, decode_relationships}
use kasas.Ledger.{kept_edges}
use kasas.Relationships.{Relationship}
use kasas.Store.Tables.{Transaction}

module _ (c : Codec) (u : CaseTable) (target_id : Text) where
  abbrev pub is_target : Relationship → Bool
  is_target r = text_eq r.target target_id

  abbrev pub edges_of : Transaction → List Relationship
  edges_of row = decode_relationships c row.relationships

  -- Whether a row asserts an edge to the transaction.
  unfoldable pub points_at : Transaction → Bool
  points_at row = any is_target (edges_of row)

  -- The row's edges are in their canonical form, as `Normalize` stores them.
  abbrev pub HoldsEdgeSet : Transaction → Type 0
  HoldsEdgeSet row = IsEdgeSet (edges_of row)

  -- The row is one of those that the loop still has before it.
  abbrev pub same_row : Transaction → Transaction → Bool
  same_row row h = text_eq h.id row.id && text_eq h.relationships row.relationships

  -- A row is the target, or does not point at it, or is still to be visited.
  abbrev pub Status : List Transaction → Transaction → Type 0
  Status todo row =
      (text_eq row.id target_id ≡ true) ⊎ (points_at row ≡ false) ⊎ (any (same_row row) todo ≡ true)

  abbrev pub AllStatus : List Transaction → List Transaction → Type 0
  AllStatus todo rows = All (Status todo) rows

  -- A row that is not the head's needs only what the rest of the loop does.
  Status-tail :
      (h : Transaction) (todo : List Transaction) (row : Transaction)
      → ((same_row row h ≡ true) → (text_eq row.id target_id ≡ true) ⊎ (points_at row ≡ false))
      → Status (h ∷ todo) row
      → Status todo row
  Status-tail h todo row k (inl s) = inl s
  Status-tail h todo row k (inr (inl s)) = inr (inl s)
  Status-tail h todo row k (inr (inr s)) = elim (Bool-cases (same_row row h)) [
    | inl e ↦ elim (k e) [ inl t ↦ inl t | inr t ↦ inr (inl t) ]
    | inr e ↦ inr (inr (rw e at s))
  ]

  pub same_row-eq :
      (row h : Transaction)
      → same_row row h ≡ true
      → (h.id ≡ row.id) × (h.relationships ≡ row.relationships)
  same_row-eq row h e = (
    (text_eq_iff h.id row.id).0 (ground arith),
    (text_eq_iff h.relationships row.relationships).0 (ground arith),
  )

  pub points_at-same :
      (row h : Transaction) → same_row row h ≡ true → points_at h ≡ false → points_at row ≡ false
  unfolding points_at
  points_at-same row h e p = rw (← (same_row-eq row h e).1) p

  -- A row whose edges were rewritten to the kept ones points no more.
  pub points_at_encoded :
      (row : Transaction) (es : List Relationship) (encoded : Text)
      → RoundTrips c
      → c.marshal_relationships es ≡ some encoded
      → any is_target es ≡ false
      → points_at (record row { relationships = encoded }) ≡ false
  unfolding points_at decode_relationships
  points_at_encoded row es encoded l m h = elim (Bool-cases (text_eq encoded [])) [
    | inl e ↦ rw e
    | inr e ↦ rw (e, l.relationships es encoded m) h
  ]

  pub rewritten :
      (h : Transaction) (todo : List Transaction) (encoded : Text)
      → ((row : Transaction) → points_at (record row { relationships = encoded }) ≡ false)
      → (rows : List Transaction) → AllStatus (h ∷ todo) rows
      → AllStatus todo (update_where (has_id h.id) (λ x. record x { relationships = encoded }) rows)
  unfolding update_where
  rewritten h todo encoded clean [] s = tt
  rewritten h todo encoded clean (row ∷ rows) (s, rest) = (
    elim (Bool-cases (has_id h.id row)) [
      | inl e ↦ rw e (inr (inl (clean row)))
      | inr e ↦ rw e (
          Status-tail h todo row
            (λ same. cc ((text_eq_iff row.id h.id).1 (sym (same_row-eq row h same).0))) s)
    ],
    rewritten h todo encoded clean rows rest,
  )

  pub skipped :
      (h : Transaction) (todo : List Transaction)
      → ((row : Transaction)
          → same_row row h ≡ true
          → (text_eq row.id target_id ≡ true) ⊎ (points_at row ≡ false))
      → (rows : List Transaction) → AllStatus (h ∷ todo) rows
      → AllStatus todo rows
  skipped h todo k rows = All-map_impl (λ row. Status-tail h todo row (k row)) rows

  pub kept-clean : (es : List Relationship) → any is_target (kept_edges target_id es) ≡ false
  unfolding kept_edges
  kept-clean es = any-keep-not is_target es

  pub kept-IsEdgeSet : (es : List Relationship) → IsEdgeSet es → IsEdgeSet (kept_edges target_id es)
  unfolding kept_edges
  kept-IsEdgeSet es s = IsEdgeSet-keep (λ r. not (is_target r)) es s
