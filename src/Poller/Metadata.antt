-- ===== src/Poller/Metadata.antt =====
-- A sync leaves what the user has added to a transaction alone.
pub mod Rows
use kasas.Tx.Keeps.{
  Keeps, Keeps-bind, Keeps-bind_knowing, Keeps-fail, Keeps-fold_each, Keeps-if,
  Keeps-or_marshal_error, Keeps-pure, Keeps-statement, statement_inv,
}
use kasas.Prelude.{
  Bool, List, Option, [], false, if◌then◌else◌, none, refl, some, subst, sym, true, ◌∙◌, ◌≡◌,
}
use kasas.Poller.{
  Reader, account_event, apply_extensions_to, apply_labels_to, apply_rules_to_new_txn, import_new,
  load_enabled_rules, no_rules, or_no_rows, persist, persist_account, persist_txn, refresh,
}
use kasas.Store.{
  Session, find, get_account, get_transaction, has_id, insert_row, insert_transaction,
  list_enabled_rules, on_db, update_transaction_extensions, update_transaction_from_sync,
  update_transaction_labels, update_transactions, upsert_account, upsert_organization,
}
use kasas.Events.Recorder.{Emitter}
use kasas.Prelude.Dict.{Dict}
use kasas.Events.Unchanged.{
  OfLedger, emit-OfLedger, extension_diff-OfLedger, label_diff-OfLedger, version-OfLedger,
  version_change-OfLedger,
}
use kasas.Tx.{Conn, no_rows, ok}
use kasas.Search.Std.{Std}
use kasas.Poller.Metadata.Rows.{
  Kept, Kept-insert, Kept-update_bridge, Kept-update_other, insert_row-fresh,
}
use kasas.Prelude.Text.{Text, text_eq}
use kasas.Rules.{Compiled}
use kasas.Events.Codec.{Codec}
use kasas.Prelude.Int.{ℤ}
use kasas.Poller.Batch.{
  ImportAccount, ImportBatch, ImportTxn, SyncResult, account_changed, inserted_row,
  new_transaction_row, no_result,
}
use kasas.Store.Tables.{Account, Transaction}

module _ (s : Std) (rd : Reader s) (c : Codec) (e : Option Emitter) (old : Transaction) where
  -- The table holds the transaction, with the labels, the extensions, the relationships and the
  -- source that it has in `old`.
  abbrev Keeping : Session → Type 0
  Keeping = OfLedger (λ ts accounts. Kept old ts)

  -- A body that changes one transaction other than `old`.
  update_other :
      (id : Text) (f : Transaction → Transaction)
      → ((x : Transaction) → (f x).id ≡ x.id)
      → text_eq old.id id ≡ false
      → Keeps Keeping (update_transactions id f)
  update_other id f same other =
      Keeps-statement _ (λ x h. Kept-update_other old id f same other x.db.transactions h)

  apply_labels_to-Keeping :
      (id : Text) (m : Dict Text × Bool)
      → text_eq old.id id ≡ false
      → Keeps Keeping (apply_labels_to s rd c e id m)
  unfolding apply_labels_to update_transaction_labels
  apply_labels_to-Keeping id (merged, changed) other =
      Keeps-if changed _ _
        (Keeps-bind _ _ (Keeps-or_marshal_error _) (λ encoded.
          Keeps-bind _ _ (update_other id _ (λ x. refl) other) (λ _.
            Keeps-bind _ _ (label_diff-OfLedger c (λ ts accounts. Kept old ts) e id [] merged)
              (λ _. Keeps-pure _))))
        (Keeps-pure _)

  apply_extensions_to-Keeping :
      (id : Text) (m : Dict Text × Bool)
      → text_eq old.id id ≡ false
      → Keeps Keeping (apply_extensions_to s rd c e id m)
  unfolding apply_extensions_to update_transaction_extensions
  apply_extensions_to-Keeping id (merged, changed) other =
      Keeps-if changed _ _
        (Keeps-bind _ _ (Keeps-or_marshal_error _) (λ encoded.
          Keeps-bind _ _ (update_other id _ (λ x. refl) other) (λ _.
            Keeps-bind _ _ (extension_diff-OfLedger c (λ ts accounts. Kept old ts) e id [] merged)
              (λ _. Keeps-pure _))))
        (Keeps-pure _)

  import_new-Keeping :
      (compiled : List (Compiled s)) (acct : ImportAccount) (synced_at : ℤ) (res : SyncResult)
      (t : ImportTxn)
      → text_eq old.id t.external_id ≡ false
      → Keeps Keeping (import_new s rd c e compiled acct synced_at res t)
  unfolding import_new apply_rules_to_new_txn
  import_new-Keeping compiled acct synced_at res t other =
      Keeps-bind _ _ (emit-OfLedger c (λ ts accounts. Kept old ts) e _ _ _ _) (λ _.
        Keeps-bind _ _
          (Keeps-if (no_rules s rd c e compiled) _ _ (Keeps-pure _) (
            Keeps-bind _ _ (apply_labels_to-Keeping t.external_id _ other) (λ ls.
              Keeps-bind _ _ (apply_extensions_to-Keeping t.external_id _ other)
                (λ xs. Keeps-pure _))))
          (λ applied.
            Keeps-bind _ _ (version-OfLedger c (λ ts accounts. Kept old ts) e _ _ _)
              (λ _. Keeps-pure _)))

  or_no_rows-Keeping : (found : Option Transaction) → Keeps Keeping (or_no_rows s rd c e found)
  or_no_rows-Keeping none = Keeps-fail no_rows
  or_no_rows-Keeping (some row) = Keeps-pure row

  refresh-Keeping :
      (acct : ImportAccount) (synced_at : ℤ) (res : SyncResult) (t : ImportTxn)
      → Keeps Keeping (refresh s rd c e acct synced_at res t)
  unfolding refresh get_transaction update_transaction_from_sync
  refresh-Keeping acct synced_at res t = Keeps-bind _ _ (Keeps-statement _ (λ x h. h)) (λ found.
      Keeps-bind _ _ (or_no_rows-Keeping found) (λ prev.
        Keeps-bind _ _
          (Keeps-statement _ (λ x h.
            Kept-update_bridge old _ _ (λ y. refl)
              (λ y. record {
                labels = refl;
                extensions = refl;
                relationships = refl;
                source = refl;
              })
              x.db.transactions h))
          (λ _.
            Keeps-bind _ _
              (Keeps-if _ _ _
                (Keeps-bind _ _ (emit-OfLedger c (λ ts accounts. Kept old ts) e _ _ _ _)
                  (λ _. version_change-OfLedger c (λ ts accounts. Kept old ts) e _ _ _ _))
                (Keeps-pure tt))
              (λ _. Keeps-pure _))))

  branch-Keeping :
      (compiled : List (Compiled s)) (acct : ImportAccount) (synced_at : ℤ) (res : SyncResult)
      (t : ImportTxn) (inserted : Bool)
      → ((inserted ≡ true) → text_eq old.id t.external_id ≡ false)
      → Keeps Keeping (
          if inserted
          then import_new s rd c e compiled acct synced_at res t
          else refresh s rd c e acct synced_at res t)
  branch-Keeping compiled acct synced_at res t true k =
      import_new-Keeping compiled acct synced_at res t (k refl)
  branch-Keeping compiled acct synced_at res t false k = refresh-Keeping acct synced_at res t

  persist_txn-Keeping :
      (compiled : List (Compiled s)) (batch : ImportBatch) (acct : ImportAccount) (synced_at : ℤ)
      (res : SyncResult) (t : ImportTxn)
      → Keeps Keeping (persist_txn s rd c e compiled batch acct synced_at res t)
  unfolding persist_txn insert_transaction new_transaction_row
  persist_txn-Keeping compiled batch acct synced_at res t =
      Keeps-bind_knowing (λ inserted. (inserted ≡ true) → text_eq old.id t.external_id ≡ false) _ _
        (λ k inserted d h r.
          let row = inserted_row batch acct t synced_at in
          let (is_new, now) = statement_inv (on_db (insert_row row)) k inserted d r in
          (
            subst Keeping (sym now) (Kept-insert old row k.state.db h),
            λ q. insert_row-fresh old row k.state.db h (sym is_new ∙ q),
          ))
        (branch-Keeping compiled acct synced_at res t)

  account_event-Keeping :
      (prev : Option Account) (next : Account) → Keeps Keeping (account_event s rd c e prev next)
  account_event-Keeping none next = emit-OfLedger c (λ ts accounts. Kept old ts) e _ _ _ _
  account_event-Keeping (some prev) next =
      Keeps-if (account_changed prev next) _ _
        (emit-OfLedger c (λ ts accounts. Kept old ts) e _ _ _ _) (Keeps-pure tt)

  persist_account-Keeping :
      (compiled : List (Compiled s)) (batch : ImportBatch) (synced_at : ℤ) (res : SyncResult)
      (acct : ImportAccount)
      → Keeps Keeping (persist_account s rd c e compiled batch synced_at res acct)
  unfolding persist_account upsert_organization get_account upsert_account
  persist_account-Keeping compiled batch synced_at res acct =
      Keeps-bind _ _ (Keeps-statement _ (λ x h. h)) (λ _.
        Keeps-bind _ _ (Keeps-statement _ (λ x h. h)) (λ prev.
          Keeps-bind _ _ (Keeps-statement _ (λ x h. h)) (λ _.
            Keeps-bind _ _ (account_event-Keeping prev _) (λ _.
              Keeps-fold_each _ _ acct.txns (persist_txn-Keeping compiled batch acct synced_at)))))

  -- A sync never clobbers what the user has added: if a transaction is in the table and `Persist`
  -- succeeds, whatever the batch and the rules, the table still has a transaction of that id, with the
  -- same labels, extensions, relationships and source.
  pub persist-Kept :
      (batch : ImportBatch) (synced_at : ℤ) (k : Conn Session) (res : SyncResult) (d : Conn Session)
      → find (has_id old.id) k.state.db.transactions ≡ some old
      → persist s rd c e batch synced_at k ≡ ok (res, d)
      → Kept old d.state.db.transactions
  unfolding persist load_enabled_rules list_enabled_rules
  persist-Kept batch synced_at k res d h r =
      (Keeps-bind _ _ (Keeps-bind _ _ (Keeps-statement _ (λ x q. q)) (λ rows. Keeps-pure _))
          (λ compiled.
            Keeps-fold_each _ no_result batch.accounts
              (persist_account-Keeping compiled batch synced_at))).at
        k res d
        (record {
          row = old;
          found = h;
          same = record { labels = refl; extensions = refl; relationships = refl; source = refl };
        })
        r
