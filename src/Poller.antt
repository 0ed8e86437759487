-- ===== src/Poller.antt =====
-- internal/poller/persister.go: the path by which a batch of any source is written.
pub mod Batch
pub mod Stream
pub mod Metadata
pub mod Quiet
pub mod Engine
use kasas.Tx.{◌>>=◌, ◌>>◌, fail, fold_each, no_rows, or_marshal_error, pure}
use kasas.Rules.{apply, Compiled, apply_extensions, compile}
use kasas.Store.{
  Body, get_account, get_transaction, insert_transaction, list_enabled_rules,
  update_transaction_extensions, update_transaction_from_sync, update_transaction_labels,
  upsert_account, upsert_organization,
}
use kasas.Events.Recorder.{
  Emitter, emit, emit_extension_diff, emit_label_diff, version, version_change,
}
use kasas.Prelude.{
  Bool, List, Option, [], false, if◌then◌else◌, none, not, some, suc, true, ℕ, ◌==◌, ◌||◌, ◌∷◌,
}
use kasas.Prelude.Int.{int_eq, ℤ}
use kasas.Events.Codec.{
  Codec, TransactionPayload, account_snapshot, of_account, of_transaction, transaction_snapshot,
}
use kasas.Search.Std.{SearchRecord, Std}
use kasas.Prelude.Dict.{Dict}
use kasas.Prelude.Text.{Text, codes, text_eq}
use kasas.Search.Values.{drop_commas}
use kasas.Prelude.Trim.{trim_space}
use kasas.Poller.Batch.{
  ImportAccount, ImportBatch, ImportTxn, SyncResult, account_changed, bridge_changed, inserted_row,
  new_account, new_transaction_row, no_result,
}
use kasas.Store.Tables.{
  Account, Rule, Transaction, account_created, account_entity, account_updated, imported, synced,
  transaction_created, transaction_entity, transaction_updated,
}

-- What the persister takes from Go's libraries: time.Unix, and the value that strconv.ParseFloat gives
-- next to its error.
pub record Reader (s : Std) : Type 0 where
  pub unix : ℤ → s.Time
  pub float_of : Text → s.Amount

module _ (s : Std) (rd : Reader s) (c : Codec) (e : Option Emitter) where
  -- `newSearchRecord`; a fresh transaction carries no labels, extensions or relationships
  unfoldable pub new_search_record : ImportAccount → ImportTxn → ℤ → SearchRecord s
  new_search_record acct t synced_at = record {
    id = t.external_id;
    account_id = acct.external_id;
    account_name = acct.name;
    amount = rd.float_of (drop_commas (trim_space t.amount));
    amount_raw = t.amount;
    pending = t.pending;
    date = rd.unix t.date;
    description = t.description;
    payee = t.payee;
    memo = t.memo;
    labels = [];
    extensions = [];
    relationships = [];
    synced_at = rd.unix synced_at;
  }

  -- a rule whose query does not parse is skipped
  abbrev pub add_compiled : Option (Compiled s) → List (Compiled s) → List (Compiled s)
  add_compiled none rest = rest
  add_compiled (some r) rest = r ∷ rest

  unfoldable pub compile_all : List Rule → List (Compiled s)
  compile_all [] = []
  compile_all (row ∷ rows) = add_compiled (compile s c row) (compile_all rows)

  unfoldable pub load_enabled_rules : Body (List (Compiled s))
  unfolding compile_all
  load_enabled_rules = do rows ← list_enabled_rules; pure (compile_all rows)

  -- The two halves of `applyRulesToNewTxn`: the stored text, and whether it was written.
  unfoldable pub apply_labels_to : Text → Dict Text × Bool → Body (Text × Bool)
  apply_labels_to id (merged, changed) =
      if changed
      then (do
        encoded ← or_marshal_error (c.marshal_labels merged)
        update_transaction_labels id encoded
        emit_label_diff c e id [] merged
        pure (encoded, true))
      else pure (codes "{}", false)

  unfoldable pub apply_extensions_to : Text → Dict Text × Bool → Body (Text × Bool)
  apply_extensions_to id (merged, changed) =
      if changed
      then (do
        encoded ← or_marshal_error (c.marshal_extensions merged)
        update_transaction_extensions id encoded
        emit_extension_diff c e id [] merged
        pure (encoded, true))
      else pure (codes "{}", false)

  abbrev pub no_rules : List (Compiled s) → Bool
  no_rules [] = true
  no_rules (r ∷ rest) = false

  -- `applyRulesToNewTxn`: the labels and the extensions as stored, and whether a rule changed them
  unfoldable pub apply_rules_to_new_txn :
      List (Compiled s) → ImportAccount → ImportTxn → ℤ → Body (Text × Text × Bool)
  unfolding new_search_record apply_labels_to apply_extensions_to
  apply_rules_to_new_txn compiled acct t synced_at =
      let r = new_search_record acct t synced_at in
      if no_rules compiled then pure (codes "{}", codes "{}", false) else (do
        ls ← apply_labels_to t.external_id (apply s compiled r [])
        xs ← apply_extensions_to t.external_id (apply_extensions s c compiled r [])
        pure (ls.0, xs.0, ls.1 || xs.1))

  abbrev pub snapshot_of : ImportAccount → ImportTxn → ℤ → Text → Text → TransactionPayload c.Value
  snapshot_of acct t synced_at ls xs =
      transaction_snapshot c (new_transaction_row acct t synced_at ls xs)

  -- The body of the loop over transactions where the insert made a row.
  unfoldable pub import_new :
      List (Compiled s) → ImportAccount → ℤ → SyncResult → ImportTxn → Body SyncResult
  unfolding apply_rules_to_new_txn new_transaction_row
  import_new compiled acct synced_at res t = do
    emit c e transaction_created transaction_entity t.external_id
        (of_transaction (snapshot_of acct t synced_at (codes "{}") (codes "{}")))
    applied ← apply_rules_to_new_txn compiled acct t synced_at
    version c e t.external_id (snapshot_of acct t synced_at applied.0 applied.1) imported
    pure (record res {
      new_transactions = suc res.new_transactions;
      auto_labeled = if applied.2 then suc res.auto_labeled else res.auto_labeled;
    })

  -- A row that is missing after the insert found it is sql.ErrNoRows.
  abbrev pub or_no_rows : Option Transaction → Body Transaction
  or_no_rows none = fail no_rows
  or_no_rows (some row) = pure row

  -- The refresh of a row that was there.
  abbrev pub refresh_row :
      ImportAccount → ℤ → SyncResult → ImportTxn → Transaction → Body SyncResult
  refresh_row acct synced_at res t prev = do
    update_transaction_from_sync (new_transaction_row acct t synced_at [] [])
    (if bridge_changed prev (new_transaction_row acct t synced_at prev.labels prev.extensions)
        then (do
          emit c e transaction_updated transaction_entity t.external_id
              (of_transaction (snapshot_of acct t synced_at prev.labels prev.extensions))
          version_change c e t.external_id (transaction_snapshot c prev)
              (snapshot_of acct t synced_at prev.labels prev.extensions) synced)
        else pure tt)
    pure (record res { updated_transactions = suc res.updated_transactions })

  -- The body of the loop over transactions where the row was there.
  unfoldable pub refresh : ImportAccount → ℤ → SyncResult → ImportTxn → Body SyncResult
  unfolding bridge_changed new_transaction_row
  refresh acct synced_at res t = do
    found ← get_transaction t.external_id
    prev ← or_no_rows found
    refresh_row acct synced_at res t prev

  unfoldable pub persist_txn :
      List (Compiled s) → ImportBatch → ImportAccount → ℤ → SyncResult → ImportTxn → Body SyncResult
  unfolding import_new refresh
  persist_txn compiled batch acct synced_at res t = do
    inserted ← insert_transaction (inserted_row batch acct t synced_at)
    if inserted then import_new compiled acct synced_at res t else refresh acct synced_at res t

  abbrev pub account_event : Option Account → Account → Body (Unit {0})
  account_event none next =
      emit c e account_created account_entity next.id (of_account (account_snapshot next))
  account_event (some prev) next =
      if account_changed prev next
      then emit c e account_updated account_entity next.id (of_account (account_snapshot next))
      else pure tt

  -- The body of the loop over accounts.
  unfoldable pub persist_account :
      List (Compiled s) → ImportBatch → ℤ → SyncResult → ImportAccount → Body SyncResult
  unfolding persist_txn account_changed
  persist_account compiled batch synced_at res acct = do
    upsert_organization (record {
      id = acct.org.id;
      domain = acct.org.domain;
      name = acct.org.name;
      sfin_url = acct.org.url;
    })
    prev ← get_account acct.external_id
    upsert_account (new_account batch synced_at acct)
    account_event prev (new_account batch synced_at acct)
    fold_each (persist_txn compiled batch acct synced_at)
        (record res { accounts = suc res.accounts }) acct.txns

  -- what `Persist` runs in the recorder's transaction
  unfoldable pub persist : ImportBatch → ℤ → Body SyncResult
  unfolding persist_account load_enabled_rules
  persist batch synced_at = do
    compiled ← load_enabled_rules
    fold_each (persist_account compiled batch synced_at) no_result batch.accounts
