-- ===== src/Poller/Quiet.antt =====
-- A sync that brings nothing new is silent.
pub mod Rows
use kasas.Tx.{◌>>◌, ◌>>=◌, Conn, fold_each, ok, pure}
use kasas.Tx.Keeps.{
  Keeps, Keeps-bind, Keeps-bind_knowing, Keeps-pure, Keeps-statement, statement_inv,
}
use kasas.Poller.Quiet.Rows.{QuietAccount, QuietTxn, QuietTxn-update, QuietAccount-upsert}
use kasas.Store.{
  Session, from_sync, get_transaction, has_id, update_transaction_from_sync, update_where, find,
  get_account, insert_row, insert_transaction, insert_unless, list_enabled_rules, upsert_account,
  upsert_organization, upsert_row, Body,
}
use kasas.Poller.{
  Reader, refresh, refresh_row, load_enabled_rules, or_no_rows, persist, persist_account,
  persist_txn, account_event, import_new,
}
use kasas.Store.Tables.{Transaction, Account}
use kasas.Poller.Batch.{
  ImportAccount, ImportBatch, ImportTxn, SyncResult, bridge_changed, new_transaction_row,
  account_changed, inserted_row, new_account, no_result,
}
use kasas.Prelude.{
  All, All-map_impl, Option, [], false, ◌≡◌, List, ap, some, subst, sym, ◌∙◌, ◌∷◌, if◌then◌else◌,
  suc,
}
use kasas.Events.Codec.{Codec}
use kasas.Search.Std.{Std}
use kasas.Prelude.Int.{ℤ}
use kasas.Events.Recorder.{Emitter}
use kasas.Rules.{Compiled}

module _ (s : Std) (rd : Reader s) (c : Codec) (e : Option Emitter) (batch : ImportBatch)
    (synced_at : ℤ) (begin : Session) where
  -- The tables agree with the batch on what the bridge owns, and since `begin` nothing was recorded.
  pub record Settled (now : Session) : Type 0 where
    pub accounts : All (λ a. QuietAccount batch synced_at a now.db.accounts) batch.accounts
    pub txns :
        All (λ a. All (λ t. QuietTxn synced_at a t now.db.transactions) a.txns) batch.accounts
    pub events : now.db.events ≡ begin.db.events
    pub emitted : now.emitted ≡ begin.emitted
    pub versions : now.db.versions ≡ begin.db.versions

  -- What `Settled` gives for an element of the batch.
  abbrev TxnOf : ImportAccount → ImportTxn → Type 0
  TxnOf a t = (x : Session) → Settled x → QuietTxn synced_at a t x.db.transactions

  abbrev AccountOf : ImportAccount → Type 0
  AccountOf a =
      ((x : Session) → Settled x → QuietAccount batch synced_at a x.db.accounts)
      × All (TxnOf a) a.txns

  update-Settled :
      (a : ImportAccount) (t : ImportTxn) (x : Session)
      → TxnOf a t
      → Settled x
      → Settled (record x {
        db = record x.db {
          transactions =
              update_where
                (has_id t.external_id)
                (from_sync (new_transaction_row a t synced_at [] []))
                x.db.transactions;
        };
      })
  update-Settled a t x of h = record {
    accounts = h.accounts;
    txns =
        All-map_impl
          (λ b us.
            All-map_impl
              (λ u same. QuietTxn-update synced_at a b t u x.db.transactions (of x h) same) b.txns
              us)
          batch.accounts h.txns;
    events = h.events;
    emitted = h.emitted;
    versions = h.versions;
  }

  refresh_row-Settled :
      (a : ImportAccount) (res : SyncResult) (t : ImportTxn) (row : Transaction)
      → TxnOf a t
      → bridge_changed row (new_transaction_row a t synced_at row.labels row.extensions) ≡ false
      → Keeps Settled (refresh_row s rd c e a synced_at res t row)
  unfolding update_transaction_from_sync new_transaction_row
  refresh_row-Settled a res t row of quiet =
      Keeps-bind _ _ (Keeps-statement _ (λ x h. update-Settled a t x of h))
        (λ _. Keeps-bind _ _ (rw quiet (Keeps-pure tt)) (λ _. Keeps-pure _))

  refresh-Settled :
      (a : ImportAccount) (res : SyncResult) (t : ImportTxn)
      → TxnOf a t
      → Keeps Settled (refresh s rd c e a synced_at res t)
  unfolding refresh get_transaction bridge_changed new_transaction_row
  refresh-Settled a res t of =
      Keeps-bind_knowing
        (λ found.
          (row : Transaction) × (found ≡ some row)
          × (bridge_changed row (new_transaction_row a t synced_at [] []) ≡ false))
        _ _
        (λ k found d h r.
          let (value, now) = statement_inv _ k found d r in
          let (row, is_row, quiet) = of k.state h in
          (subst Settled (sym now) h, (row, value ∙ is_row, quiet)))
        (λ found (row, is_row, quiet).
          subst
            (λ o. Keeps Settled (or_no_rows s rd c e o >>= refresh_row s rd c e a synced_at res t))
            (sym is_row) (unfold pure in refresh_row-Settled a res t row of quiet))

  -- The row is there, and the insert says so.
  insert_unless-Settled :
      (a : ImportAccount) (t : ImportTxn) (x : Session) (row : Transaction)
      → find (has_id t.external_id) x.db.transactions ≡ some row
      → insert_row (inserted_row batch a t synced_at) x.db ≡ (false, x.db)
  unfolding insert_row new_transaction_row
  insert_unless-Settled a t x row is_row =
      ap (insert_unless (inserted_row batch a t synced_at) x.db) is_row

  persist_txn-Settled :
      (compiled : List (Compiled s)) (a : ImportAccount) (res : SyncResult) (t : ImportTxn)
      → TxnOf a t
      → Keeps Settled (persist_txn s rd c e compiled batch a synced_at res t)
  unfolding persist_txn insert_transaction
  persist_txn-Settled compiled a res t of =
      Keeps-bind_knowing (λ inserted. inserted ≡ false) _ _
        (λ k inserted d h r.
          let (value, now) = statement_inv _ k inserted d r in
          let (row, is_row, quiet) = of k.state h in
          let same = insert_unless-Settled a t k.state row is_row in
          (
            subst Settled (sym now)
                (subst (λ q. Settled (record k.state { db = q.1 })) (sym same) h),
            value ∙ ap (λ q. q.0) same,
          ))
        (λ inserted not_new.
          subst
            (λ b. Keeps Settled (
              if b
              then import_new s rd c e compiled a synced_at res t
              else refresh s rd c e a synced_at res t))
            (sym not_new) (refresh-Settled a res t of))

  fold_txns-Settled :
      (compiled : List (Compiled s)) (a : ImportAccount) (res : SyncResult) (ts : List ImportTxn)
      → All (TxnOf a) ts
      → Keeps Settled (fold_each (persist_txn s rd c e compiled batch a synced_at) res ts)
  unfolding fold_each
  fold_txns-Settled compiled a res [] all = Keeps-pure res
  fold_txns-Settled compiled a res (t ∷ rest) (of, all) =
      Keeps-bind _ _ (persist_txn-Settled compiled a res t of)
        (λ res'. fold_txns-Settled compiled a res' rest all)

  upsert-Settled :
      (a : ImportAccount) (x : Session)
      → AccountOf a
      → Settled x
      → Settled (record x {
        db = record x.db { accounts = upsert_row (new_account batch synced_at a) x.db.accounts };
      })
  upsert-Settled a x of h = record {
    accounts =
        All-map_impl
          (λ b same. QuietAccount-upsert batch synced_at a b x.db.accounts (of.0 x h) same)
          batch.accounts h.accounts;
    txns = h.txns;
    events = h.events;
    emitted = h.emitted;
    versions = h.versions;
  }

  account_event-Settled :
      (a : ImportAccount) (found : Option Account) (prev : Account)
      → found ≡ some prev
      → account_changed prev (new_account batch synced_at a) ≡ false
      → Keeps Settled (account_event s rd c e found (new_account batch synced_at a))
  account_event-Settled a found prev is_prev quiet = rw is_prev (rw quiet (Keeps-pure tt))

  -- What `persist_account` does once the account was looked up.
  abbrev rest_of : List (Compiled s) → ImportAccount → SyncResult → Option Account → Body SyncResult
  rest_of compiled a res prev =
      upsert_account (new_account batch synced_at a)
      >> (account_event s rd c e prev (new_account batch synced_at a)
          >> fold_each (persist_txn s rd c e compiled batch a synced_at)
              (record res { accounts = suc res.accounts }) a.txns)

  rest_of-Settled :
      (compiled : List (Compiled s)) (a : ImportAccount) (res : SyncResult) (found : Option Account)
      → AccountOf a
      → (prev : Account) × (found ≡ some prev)
        × (account_changed prev (new_account batch synced_at a) ≡ false)
      → Keeps Settled (rest_of compiled a res found)
  unfolding upsert_account
  rest_of-Settled compiled a res found of (prev, is_prev, quiet) =
      Keeps-bind _ _ (Keeps-statement _ (λ x h. upsert-Settled a x of h)) (λ _.
        Keeps-bind _ _ (account_event-Settled a found prev is_prev quiet)
          (λ _. fold_txns-Settled compiled a _ a.txns of.1))

  look_up-Settled :
      (compiled : List (Compiled s)) (a : ImportAccount) (res : SyncResult)
      → AccountOf a
      → Keeps Settled (get_account a.external_id >>= rest_of compiled a res)
  unfolding get_account
  look_up-Settled compiled a res of =
      Keeps-bind_knowing
        (λ found.
          (prev : Account) × (found ≡ some prev)
          × (account_changed prev (new_account batch synced_at a) ≡ false))
        (get_account a.external_id) (rest_of compiled a res)
        (λ k found d h r.
          let (value, now) = statement_inv _ k found d r in
          let (prev, is_prev, quiet) = of.0 k.state h in
          (subst Settled (sym now) h, (prev, value ∙ is_prev, quiet)))
        (λ found known. rest_of-Settled compiled a res found of known)

  persist_account-Settled :
      (compiled : List (Compiled s)) (a : ImportAccount) (res : SyncResult)
      → AccountOf a
      → Keeps Settled (persist_account s rd c e compiled batch synced_at res a)
  unfolding persist_account upsert_organization account_changed
  persist_account-Settled compiled a res of =
      Keeps-bind _ _
        (Keeps-statement _ (λ x h. record {
          accounts = h.accounts;
          txns = h.txns;
          events = h.events;
          emitted = h.emitted;
          versions = h.versions;
        }))
        (λ _. look_up-Settled compiled a res of)

  fold_accounts-Settled :
      (compiled : List (Compiled s)) (res : SyncResult) (accts : List ImportAccount)
      → All AccountOf accts
      → Keeps Settled (fold_each (persist_account s rd c e compiled batch synced_at) res accts)
  unfolding fold_each
  fold_accounts-Settled compiled res [] all = Keeps-pure res
  fold_accounts-Settled compiled res (a ∷ rest) (of, all) =
      Keeps-bind _ _ (persist_account-Settled compiled a res of)
        (λ res'. fold_accounts-Settled compiled res' rest all)

  every_txn :
      (a : ImportAccount) (ts : List ImportTxn)
      → ((x : Session) → Settled x → All (λ t. QuietTxn synced_at a t x.db.transactions) ts)
      → All (TxnOf a) ts
  every_txn a [] p = tt
  every_txn a (t ∷ rest) p = (λ x h. (p x h).0, every_txn a rest (λ x h. (p x h).1))

  every_account :
      (accts : List ImportAccount)
      → ((x : Session) → Settled x → All (λ a. QuietAccount batch synced_at a x.db.accounts) accts)
      → ((x : Session)
          → Settled x
          → All (λ a. All (λ t. QuietTxn synced_at a t x.db.transactions) a.txns) accts)
      → All AccountOf accts
  every_account [] p q = tt
  every_account (a ∷ rest) p q = (
    (λ x h. (p x h).0, every_txn a a.txns (λ x h. (q x h).0)),
    every_account rest (λ x h. (p x h).1) (λ x h. (q x h).1),
  )

  -- A sync of a batch with which the tables agree on all that a source owns is silent: if `Persist`
  -- succeeds, no event was stored or buffered for the bus and no version recorded, and the tables
  -- still agree with the batch.
  pub persist-Settled :
      (k : Conn Session) (res : SyncResult) (d : Conn Session)
      → Settled k.state
      → persist s rd c e batch synced_at k ≡ ok (res, d)
      → Settled d.state
  unfolding persist load_enabled_rules list_enabled_rules
  persist-Settled k res d h r =
      (Keeps-bind _ _ (Keeps-bind _ _ (Keeps-statement _ (λ x q. q)) (λ rows. Keeps-pure _))
          (λ compiled.
            fold_accounts-Settled compiled no_result batch.accounts
              (every_account batch.accounts (λ x h. h.accounts) (λ x h. h.txns)))).at
        k res d h r
