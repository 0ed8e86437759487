-- ===== src/Ledger/Stream.antt =====
-- Purging a source is all or nothing, and the stream tells of it.
use kasas.Tx.Keeps.{
  Keeps, Keeps-bind, Keeps-fold_each, Keeps-for_each, Keeps-if, Keeps-or_marshal_error, Keeps-pure,
  Keeps-statement,
}
use kasas.Prelude.{List, not, some, suc}
use kasas.Store.{
  delete_account, delete_transaction, delete_transaction_versions, list_accounts,
  list_related_transactions, list_transactions_by_account, update_transaction_relationships,
}
use kasas.Events.Stream.{
  AllOrNothing, Follows, Schedule, emit-Follows, record_tx, record_tx-AllOrNothing,
  relationship_diff-Follows,
}
use kasas.Events.Codec.{Codec}
use kasas.Ledger.{PurgeResult, delete_transaction_tx, purge_account, purge_source, strip_row}
use kasas.Events.Recorder.{Emitter}
use kasas.Prelude.Text.{CaseTable, Text, text_eq}
use kasas.Store.Tables.{Account, Db, EventRow, Transaction}

module _ (c : Codec) (u : CaseTable) (e : Emitter) (start : List EventRow) where
  strip_row-Follows :
      (target_id : Text) (row : Transaction)
      → Keeps (Follows start) (strip_row c u (some e) target_id row)
  unfolding strip_row update_transaction_relationships
  strip_row-Follows target_id row = Keeps-if (text_eq row.id target_id) _ _ (Keeps-pure tt) (
      Keeps-if _ _ _ (Keeps-pure tt) (
        Keeps-bind _ _ (Keeps-or_marshal_error _) (λ encoded.
          Keeps-bind _ _ (Keeps-statement _ (λ s h. h))
            (λ _. relationship_diff-Follows c start (some e) row.id _ _))))

  delete_transaction_tx-Follows :
      (txn : Transaction) → Keeps (Follows start) (delete_transaction_tx c u (some e) txn)
  unfolding delete_transaction_tx list_related_transactions delete_transaction_versions
      delete_transaction
  delete_transaction_tx-Follows txn =
      Keeps-bind _ _
        (Keeps-bind _ _ (Keeps-statement _ (λ s h. h))
          (λ rows. Keeps-for_each _ rows (strip_row-Follows txn.id)))
        (λ _. Keeps-bind _ _ (Keeps-statement _ (λ s h. h)) (λ _.
          Keeps-bind _ _ (Keeps-statement _ (λ s h. h))
            (λ _. emit-Follows c start (some e) _ _ _ _)))

  purge_account-Follows :
      (res : PurgeResult) (acct : Account)
      → Keeps (Follows start) (purge_account c u (some e) res acct)
  unfolding purge_account list_transactions_by_account delete_account
  purge_account-Follows res acct = Keeps-bind _ _ (Keeps-statement _ (λ s h. h)) (λ children.
      Keeps-bind _ _
        (Keeps-fold_each _ _ children (λ n child.
          Keeps-bind _ _ (delete_transaction_tx-Follows child) (λ _. Keeps-pure (suc n))))
        (λ deleted.
          Keeps-bind _ _ (Keeps-statement _ (λ s h. h))
            (λ _. Keeps-bind _ _ (emit-Follows c start (some e) _ _ _ _) (λ _. Keeps-pure _))))

  purge_source-Follows : (source : Text) → Keeps (Follows start) (purge_source c u (some e) source)
  unfolding purge_source list_accounts
  purge_source-Follows source = Keeps-bind _ _ (Keeps-statement _ (λ s h. h)) (λ accounts.
      Keeps-fold_each _ _ accounts (λ res a.
        Keeps-if (not (text_eq a.source source)) _ _ (Keeps-pure res)
          (purge_account-Follows res a)))

-- `PurgeSource` with an emitter is all or nothing, whichever of the driver's calls fail: with an
-- error the database is as it was and nothing is published; with a result the published events are
-- exactly the rows that the events table gained, in their order.
pub purge_source-AllOrNothing :
    (c : Codec) (u : CaseTable) (e : Emitter) (sched : Schedule) (db : Db) (source : Text)
    → AllOrNothing db (record_tx (some e) sched db (purge_source c u (some e) source))
purge_source-AllOrNothing c u e sched db source =
    record_tx-AllOrNothing e sched db (purge_source c u (some e) source)
      (purge_source-Follows c u e db.events source)
