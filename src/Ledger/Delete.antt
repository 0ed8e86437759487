-- ===== src/Ledger/Delete.antt =====
-- The deletion of a transaction.
use kasas.Prelude.{
  List, Option, ◌∷◌, ◌≡◌, Bool-cases, false, inl, inr, subst, arith, sym, All, [], keep, not,
}
use kasas.Tx.{Conn, ok}
use kasas.Events.Recorder.{Emitter}
use kasas.Ledger.Strip.{AllStatus, points_at, HoldsEdgeSet}
use kasas.Store.{Session, delete_transaction, delete_transaction_versions, has_id}
use kasas.Prelude.Text.{CaseTable, Text}
use kasas.Ledger.{strip_inbound_relationships, delete_transaction_tx}
use kasas.Events.Codec.{Codec, RoundTrips}
use kasas.Events.Unchanged.{OfLedger, emit-OfLedger}
use kasas.Tx.Keeps.{bind_at, statement_inv}
use kasas.Ledger.Loop.{strip-AllStatus}
use kasas.Store.Tables.{Transaction, transaction_deleted, transaction_entity}

module _ (c : Codec) (u : CaseTable) (e : Option Emitter) (l : RoundTrips c)
    (target_id : Text) where
  -- what is left when the target is dropped from rows that do not point at it
  dropped :
      (rows : List Transaction)
      → AllStatus c u target_id [] rows
      → All
          (λ row. (has_id target_id row ≡ false) × (points_at c u target_id row ≡ false))
          (keep (λ t. not (has_id target_id t)) rows)
  dropped [] s = tt
  dropped (row ∷ rows) (s, rest) = elim (Bool-cases (has_id target_id row)) [
    | inl e ↦ rw e (dropped rows rest)
    | inr e ↦ rw e (
      (
        e,
        elim s [
          | inl q ↦ absurd (ground arith)
          | inr (inl q) ↦ q
          | inr (inr q) ↦ absurd (ground arith)
        ],
      ),
      dropped rows rest,
    )
  ]

-- When deleting a transaction succeeds, no row of its id is left, and no row that is left asserts an
-- edge to it, provided that each row's edges were stored in canonical form and json.Unmarshal reads
-- back what json.Marshal wrote.
pub delete_transaction_tx-unreferenced :
    (c : Codec) (u : CaseTable) (e : Option Emitter) (txn : Transaction) (k : Conn Session)
    (a : Unit {0}) (d : Conn Session)
    → RoundTrips c
    → All (HoldsEdgeSet c u txn.id) k.state.db.transactions
    → delete_transaction_tx c u e txn k ≡ ok (a, d)
    → All
        (λ row. (has_id txn.id row ≡ false) × (points_at c u txn.id row ≡ false))
        d.state.db.transactions
unfolding delete_transaction_tx delete_transaction_versions delete_transaction
delete_transaction_tx-unreferenced c u e txn k a d l edges r =
    let (a1, k1, stripped, r1) = bind_at (strip_inbound_relationships c u e txn.id k) _ a d r in
    let (a2, k2, unversioned, r2) = bind_at (delete_transaction_versions txn.id k1) _ a d r1 in
    let (a3, k3, deleted, r3) = bind_at (delete_transaction txn.id k2) _ a d r2 in
    let (_, versions_gone) = statement_inv _ k1 a2 k2 unversioned in
    let (_, row_gone) = statement_inv _ k2 a3 k3 deleted in
    let clean : AllStatus c u txn.id [] k2.state.db.transactions =
      subst (OfLedger (λ ts accounts. AllStatus c u txn.id [] ts)) (sym versions_gone)
        (strip-AllStatus c u e l txn.id k a1 k1 edges stripped) in
    (emit-OfLedger c (λ ts accounts. Unreferenced ts) e transaction_deleted transaction_entity
        txn.id _).at
      k3 a d
      (subst (OfLedger (λ ts accounts. Unreferenced ts)) (sym row_gone)
        (dropped c u e l txn.id k2.state.db.transactions clean))
      r3
  where
    Unreferenced : List Transaction → Type 0
    Unreferenced rows =
        All (λ row. (has_id txn.id row ≡ false) × (points_at c u txn.id row ≡ false)) rows
