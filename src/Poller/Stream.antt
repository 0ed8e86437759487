-- ===== src/Poller/Stream.antt =====
-- Persisting a batch is all or nothing, and the stream tells of it.
use kasas.Tx.Keeps.{
  Keeps, Keeps-bind, Keeps-fail, Keeps-fold_each, Keeps-if, Keeps-or_marshal_error, Keeps-pure,
  Keeps-statement,
}
use kasas.Search.Std.{Std}
use kasas.Store.{
  get_account, get_transaction, insert_row, insert_transaction, list_enabled_rules,
  update_transaction_extensions, update_transaction_from_sync, update_transaction_labels,
  upsert_account, upsert_organization,
}
use kasas.Prelude.Text.{Text}
use kasas.Prelude.{Bool, List, Option, [], arith, none, some, ◌∙◌, ◌≡◌}
use kasas.Events.Stream.{
  AllOrNothing, Follows, Schedule, emit-Follows, extension_diff-Follows, label_diff-Follows,
  record_tx, record_tx-AllOrNothing, version-Follows, version_change-Follows,
}
use kasas.Poller.{
  Reader, account_event, apply_extensions_to, apply_labels_to, apply_rules_to_new_txn, import_new,
  load_enabled_rules, no_rules, or_no_rows, persist, persist_account, persist_txn, refresh,
}
use kasas.Rules.{Compiled}
use kasas.Events.Recorder.{Emitter}
use kasas.Prelude.Dict.{Dict}
use kasas.Events.Codec.{Codec}
use kasas.Tx.{no_rows}
use kasas.Prelude.Int.{ℤ}
use kasas.Poller.Batch.{
  ImportAccount, ImportBatch, ImportTxn, SyncResult, account_changed, inserted_row,
}
use kasas.Store.Tables.{Account, Db, EventRow, Transaction}

module _ (s : Std) (rd : Reader s) (c : Codec) (e : Emitter) (start : List EventRow) where
  apply_labels_to-Follows :
      (id : Text) (m : Dict Text × Bool)
      → Keeps (Follows start) (apply_labels_to s rd c (some e) id m)
  unfolding apply_labels_to update_transaction_labels
  apply_labels_to-Follows id (merged, changed) =
      Keeps-if changed _ _
        (Keeps-bind _ _ (Keeps-or_marshal_error _) (λ encoded.
          Keeps-bind _ _ (Keeps-statement _ (λ x h. h)) (λ _.
            Keeps-bind _ _ (label_diff-Follows c start (some e) id [] merged) (λ _. Keeps-pure _))))
        (Keeps-pure _)

  apply_extensions_to-Follows :
      (id : Text) (m : Dict Text × Bool)
      → Keeps (Follows start) (apply_extensions_to s rd c (some e) id m)
  unfolding apply_extensions_to update_transaction_extensions
  apply_extensions_to-Follows id (merged, changed) =
      Keeps-if changed _ _
        (Keeps-bind _ _ (Keeps-or_marshal_error _) (λ encoded.
          Keeps-bind _ _ (Keeps-statement _ (λ x h. h)) (λ _.
            Keeps-bind _ _ (extension_diff-Follows c start (some e) id [] merged)
              (λ _. Keeps-pure _))))
        (Keeps-pure _)

  apply_rules-Follows :
      (compiled : List (Compiled s)) (acct : ImportAccount) (t : ImportTxn) (synced_at : ℤ)
      → Keeps (Follows start) (apply_rules_to_new_txn s rd c (some e) compiled acct t synced_at)
  unfolding apply_rules_to_new_txn
  apply_rules-Follows compiled acct t synced_at =
      Keeps-if (no_rules s rd c (some e) compiled) _ _ (Keeps-pure _) (
        Keeps-bind _ _ (apply_labels_to-Follows _ _)
          (λ ls. Keeps-bind _ _ (apply_extensions_to-Follows _ _) (λ xs. Keeps-pure _)))

  import_new-Follows :
      (compiled : List (Compiled s)) (acct : ImportAccount) (synced_at : ℤ) (res : SyncResult)
      (t : ImportTxn)
      → Keeps (Follows start) (import_new s rd c (some e) compiled acct synced_at res t)
  unfolding import_new
  import_new-Follows compiled acct synced_at res t =
      Keeps-bind _ _ (emit-Follows c start (some e) _ _ _ _) (λ _.
        Keeps-bind _ _ (apply_rules-Follows compiled acct t synced_at)
          (λ applied. Keeps-bind _ _ (version-Follows c start (some e) _ _ _) (λ _. Keeps-pure _)))

  or_no_rows-Follows :
      (found : Option Transaction) → Keeps (Follows start) (or_no_rows s rd c (some e) found)
  or_no_rows-Follows none = Keeps-fail no_rows
  or_no_rows-Follows (some row) = Keeps-pure row

  refresh-Follows :
      (acct : ImportAccount) (synced_at : ℤ) (res : SyncResult) (t : ImportTxn)
      → Keeps (Follows start) (refresh s rd c (some e) acct synced_at res t)
  unfolding refresh get_transaction update_transaction_from_sync
  refresh-Follows acct synced_at res t = Keeps-bind _ _ (Keeps-statement _ (λ x h. h)) (λ found.
      Keeps-bind _ _ (or_no_rows-Follows found) (λ prev.
        Keeps-bind _ _ (Keeps-statement _ (λ x h. h)) (λ _.
          Keeps-bind _ _
            (Keeps-if _ _ _
              (Keeps-bind _ _ (emit-Follows c start (some e) _ _ _ _)
                (λ _. version_change-Follows c start (some e) _ _ _ _))
              (Keeps-pure tt))
            (λ _. Keeps-pure _))))

  insert_row-events : (t : Transaction) (db : Db) → (insert_row t db).1.events ≡ db.events
  unfolding insert_row
  insert_row-events t db = ground arith

  persist_txn-Follows :
      (compiled : List (Compiled s)) (batch : ImportBatch) (acct : ImportAccount) (synced_at : ℤ)
      (res : SyncResult) (t : ImportTxn)
      → Keeps (Follows start) (persist_txn s rd c (some e) compiled batch acct synced_at res t)
  unfolding persist_txn insert_transaction
  persist_txn-Follows compiled batch acct synced_at res t =
      Keeps-bind _ _
        (Keeps-statement _
          (λ x h. insert_row-events (inserted_row batch acct t synced_at) x.db ∙ h))
        (λ inserted.
          Keeps-if inserted _ _ (import_new-Follows compiled acct synced_at res t)
            (refresh-Follows acct synced_at res t))

  account_event-Follows :
      (prev : Option Account) (next : Account)
      → Keeps (Follows start) (account_event s rd c (some e) prev next)
  account_event-Follows none next = emit-Follows c start (some e) _ _ _ _
  account_event-Follows (some prev) next =
      Keeps-if (account_changed prev next) _ _ (emit-Follows c start (some e) _ _ _ _)
        (Keeps-pure tt)

  persist_account-Follows :
      (compiled : List (Compiled s)) (batch : ImportBatch) (synced_at : ℤ) (res : SyncResult)
      (acct : ImportAccount)
      → Keeps (Follows start) (persist_account s rd c (some e) compiled batch synced_at res acct)
  unfolding persist_account upsert_organization get_account upsert_account
  persist_account-Follows compiled batch synced_at res acct =
      Keeps-bind _ _ (Keeps-statement _ (λ x h. h)) (λ _.
        Keeps-bind _ _ (Keeps-statement _ (λ x h. h)) (λ prev.
          Keeps-bind _ _ (Keeps-statement _ (λ x h. h)) (λ _.
            Keeps-bind _ _ (account_event-Follows prev _) (λ _.
              Keeps-fold_each _ _ acct.txns (persist_txn-Follows compiled batch acct synced_at)))))

  persist-Follows :
      (batch : ImportBatch) (synced_at : ℤ)
      → Keeps (Follows start) (persist s rd c (some e) batch synced_at)
  unfolding persist load_enabled_rules list_enabled_rules
  persist-Follows batch synced_at =
      Keeps-bind _ _ (Keeps-bind _ _ (Keeps-statement _ (λ x h. h)) (λ rows. Keeps-pure _))
        (λ compiled.
          Keeps-fold_each _ _ batch.accounts (persist_account-Follows compiled batch synced_at))

-- `Persist` with an emitter is all or nothing, whatever the batch and whichever of the driver's calls
-- fail: with an error the database is as it was and nothing is published; with a result the published
-- events are exactly the rows that the events table gained, in their order.
pub persist-AllOrNothing :
    (s : Std) (rd : Reader s) (c : Codec) (e : Emitter) (sched : Schedule) (db : Db)
    (batch : ImportBatch) (synced_at : ℤ)
    → AllOrNothing db (record_tx (some e) sched db (persist s rd c (some e) batch synced_at))
persist-AllOrNothing s rd c e sched db batch synced_at =
    record_tx-AllOrNothing e sched db (persist s rd c (some e) batch synced_at)
      (persist-Follows s rd c e db.events batch synced_at)
