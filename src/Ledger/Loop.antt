-- ===== src/Ledger/Loop.antt =====
-- The loop of `stripInboundRelationships`.
use kasas.Prelude.{
  List, Option, ◌∷◌, ◌≡◌, Bool-cases, false, inl, inr, length, some, subst, ◌==◌, arith, sym, true,
  All, All-map_impl, [], keep, keep-members, not, refl, All-keep,
}
use kasas.Tx.{Conn, ok, pure, ◌>>=◌, ◌>>◌, Result, for_each}
use kasas.Events.Recorder.{Emitter, emit_relationship_diff}
use kasas.Ledger.Strip.{
  edges_of, AllStatus, kept-IsEdgeSet, kept-clean, points_at, points_at_encoded, same_row-eq,
  skipped, is_target, points_at-same, rewritten, HoldsEdgeSet, same_row,
}
use kasas.Store.{
  Session, update_transaction_relationships, list_related_transactions, on_db, related_rows,
}
use kasas.Prelude.Text.{CaseTable, Text, text_eq, codes, text_eq_iff, text_lt}
use kasas.Relationships.{normalize}
use kasas.Ledger.{strip_row, encode_relationships, kept_edges, strip_inbound_relationships}
use kasas.Events.Codec.{Codec, RoundTrips, decode_relationships}
use kasas.Relationships.Sets.{IsEdgeSet, normalize_self}
use kasas.Relationships.{Relationship}
use kasas.Events.Unchanged.{relationship_diff-OfLedger, OfLedger}
use kasas.Tx.Keeps.{bind_at, or_marshal_error_inv, statement_inv}
use kasas.Relationships.Subsets.{any_of_length-keep}
use kasas.Prelude.Sort.{any-sort, All-sort}
use kasas.Store.Tables.{Db, Transaction}

module _ (c : Codec) (u : CaseTable) (e : Option Emitter) (l : RoundTrips c)
    (target_id : Text) where
  -- The row after the one that was rewritten: its edges, encoded and decoded again, are the kept ones.
  encoded-clean :
      (h : Transaction) (encoded : Text)
      → IsEdgeSet (edges_of c u target_id h)
      → c.marshal_relationships (normalize u (kept_edges target_id (edges_of c u target_id h)))
        ≡ some encoded
      → (row : Transaction)
      → points_at c u target_id (record row { relationships = encoded }) ≡ false
  encoded-clean h encoded edges m row =
      let kept = kept_edges target_id (edges_of c u target_id h) in
      let same : normalize u kept ≡ kept =
        normalize_self u kept (kept-IsEdgeSet c u target_id (edges_of c u target_id h) edges) in
      points_at_encoded c u target_id row (normalize u kept) encoded l m
        (rw same (kept-clean c u target_id (edges_of c u target_id h)))

  rewrite_step :
      (h : Transaction) (todo : List Transaction) (k : Conn Session) (a : Unit {0})
      (d : Conn Session) (new : List Relationship)
      → ((encoded : Text)
          → c.marshal_relationships new ≡ some encoded
          → (row : Transaction)
          → points_at c u target_id (record row { relationships = encoded }) ≡ false)
      → (encode_relationships c u e new >>= λ encoded.
            update_transaction_relationships h.id encoded
            >> emit_relationship_diff c e h.id (edges_of c u target_id h) new)
          k
        ≡ ok (a, d)
      → AllStatus c u target_id (h ∷ todo) k.state.db.transactions
      → AllStatus c u target_id todo d.state.db.transactions
  unfolding update_transaction_relationships
  rewrite_step h todo k a d new clean r s =
      let (encoded, k1, marshalled, r1) = bind_at (encode_relationships c u e new k) _ a d r in
      let (m, same) = or_marshal_error_inv (c.marshal_relationships new) k encoded k1 marshalled in
      let (b, k2, updated, r2) =
        bind_at (update_transaction_relationships h.id encoded k1) _ a d r1 in
      let (_, now) = statement_inv _ k1 b k2 updated in
      (relationship_diff-OfLedger c (λ ts accounts. AllStatus c u target_id todo ts) e h.id
          (edges_of c u target_id h) new).at
        k2 a d
        (subst (OfLedger (λ ts accounts. AllStatus c u target_id todo ts)) (sym now) (
          rewritten c u target_id h todo encoded (clean encoded m) k1.state.db.transactions
            (rw same s)))
        r2

  not_pointing :
      (h : Transaction)
      → (length (kept_edges target_id (edges_of c u target_id h))
          == length (edges_of c u target_id h))
        ≡ true
      → points_at c u target_id h ≡ false
  unfolding kept_edges points_at
  not_pointing h n =
      any_of_length-keep (is_target c u target_id) (edges_of c u target_id h) (ground arith)

  ok_state :
      {k d : Conn Session} {a b : Unit {0}}
      → ◌≡◌ {A = Result (Unit {0} × Conn Session)} (ok (a, k)) (ok (b, d))
      → k ≡ d
  ok_state r = cc

  strip_row_step :
      (h : Transaction) (todo : List Transaction) (k : Conn Session) (a : Unit {0})
      (d : Conn Session)
      → IsEdgeSet (edges_of c u target_id h)
      → strip_row c u e target_id h k ≡ ok (a, d)
      → AllStatus c u target_id (h ∷ todo) k.state.db.transactions
      → AllStatus c u target_id todo d.state.db.transactions
  unfolding strip_row pure
  strip_row_step h todo k a d edges r s = elim (Bool-cases (text_eq h.id target_id)) [
    | inl i ↦
        let same : k ≡ d = (ok_state (rw i at r)) in
        subst (λ x. AllStatus c u target_id todo x.state.db.transactions) same
          (skipped c u target_id h todo
            (λ row q. inl (rw (← (same_row-eq c u target_id row h q).0) i)) k.state.db.transactions
            s)
    | inr i ↦
        elim (Bool-cases (
          length (kept_edges target_id (edges_of c u target_id h))
          == length (edges_of c u target_id h))) [
            | inl n ↦
                let same : k ≡ d = ok_state (rw (i, n) at r) in
                subst (λ x. AllStatus c u target_id todo x.state.db.transactions) same
                  (skipped c u target_id h todo
                    (λ row q. inr (points_at-same c u target_id row h q (not_pointing h n)))
                    k.state.db.transactions s)
            | inr n ↦
                rewrite_step h todo k a d _ (λ encoded. encoded-clean h encoded edges)
                  (rw (i, n) at r) s
          ]
  ]

  strip_loop :
      (todo : List Transaction) (k : Conn Session) (a : Unit {0}) (d : Conn Session)
      → All (HoldsEdgeSet c u target_id) todo
      → for_each (strip_row c u e target_id) todo k ≡ ok (a, d)
      → AllStatus c u target_id todo k.state.db.transactions
      → AllStatus c u target_id [] d.state.db.transactions
  unfolding for_each pure
  strip_loop [] k a d edges r s =
      subst (λ x. AllStatus c u target_id [] x.state.db.transactions) (ok_state r) s
  strip_loop (h ∷ todo) k a d (edges, more) r s =
      let (b, k1, first, rest) = bind_at (strip_row c u e target_id h k) _ a d r in
      strip_loop todo k1 a d more rest (strip_row_step h todo k b k1 edges first s)

  same_row_refl : (x : Transaction) → same_row c u target_id x x ≡ true
  same_row_refl x =
      rw ((text_eq_iff x.id x.id).1 refl, (text_eq_iff x.relationships x.relationships).1 refl) refl

  no_edges :
      (row : Transaction)
      → text_eq row.relationships (codes "[]") ≡ true
      → points_at c u target_id row ≡ false
  unfolding points_at decode_relationships text_eq
  no_edges row q = rw ((text_eq_iff row.relationships (codes "[]")).0 q, l.no_relationships) refl

  -- A row without edges points at nothing; the loop visits each other row.
  all_visited : (db : Db) → AllStatus c u target_id (related_rows db) db.transactions
  unfolding related_rows
  all_visited db =
      All-map_impl
        (λ row h. elim h [
          | inl q ↦ inr (inl (no_edges row (ground arith)))
          | inr q ↦ inr (
              inr (
                rw
                  (any-sort (λ a b. text_lt a.id b.id) (same_row c u target_id row)
                    (keep (λ t. not (text_eq t.relationships (codes "[]"))) db.transactions))
                  q))
        ])
        db.transactions
        (keep-members (same_row c u target_id) (λ t. not (text_eq t.relationships (codes "[]")))
          db.transactions same_row_refl)

  related-HoldsEdgeSet :
      (db : Db)
      → All (HoldsEdgeSet c u target_id) db.transactions
      → All (HoldsEdgeSet c u target_id) (related_rows db)
  unfolding related_rows
  related-HoldsEdgeSet db edges =
      All-sort _ (HoldsEdgeSet c u target_id) _
        (All-keep (HoldsEdgeSet c u target_id) _ db.transactions edges)

  pub strip-AllStatus :
      (k : Conn Session) (a : Unit {0}) (d : Conn Session)
      → All (HoldsEdgeSet c u target_id) k.state.db.transactions
      → strip_inbound_relationships c u e target_id k ≡ ok (a, d)
      → AllStatus c u target_id [] d.state.db.transactions
  unfolding strip_inbound_relationships list_related_transactions
  strip-AllStatus k a d edges r =
      let (rows, k1, listed, rest) = bind_at (list_related_transactions k) _ a d r in
      let (is_rows, same) = statement_inv (on_db (λ db. (related_rows db, db))) k rows k1 listed in
      let edges' : All (HoldsEdgeSet c u target_id) rows =
        rw is_rows (related-HoldsEdgeSet k.state.db edges) in
      strip_loop rows k1 a d edges' rest (
        subst (OfLedger (λ ts accounts. AllStatus c u target_id rows ts)) (sym same)
          (rw is_rows (all_visited k.state.db)))
