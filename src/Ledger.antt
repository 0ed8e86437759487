-- ===== src/Ledger.antt =====
-- internal/ledger/ledger.go: deleting a transaction with all that points at it, and purging the rows
-- of a source.
pub mod Stream
pub mod Returns
pub mod Strip
pub mod Loop
pub mod Purged
pub mod Delete
use kasas.Relationships.{Relationship, normalize}
use kasas.Tx.{◌>>=◌, ◌>>◌, for_each, or_marshal_error, pure, fold_each}
use kasas.Prelude.{List, Option, if◌then◌else◌, keep, length, not, ◌==◌, suc, ℕ}
use kasas.Events.Codec.{
  Codec, account_snapshot, decode_relationships, of_account, of_transaction, transaction_snapshot,
}
use kasas.Store.{
  Body, delete_account, delete_transaction, delete_transaction_versions, list_accounts,
  list_related_transactions, list_transactions_by_account, update_transaction_relationships,
}
use kasas.Prelude.Text.{CaseTable, Text, text_eq}
use kasas.Events.Recorder.{Emitter, emit, emit_relationship_diff}
use kasas.Store.Tables.{
  Account, Transaction, account_deleted, account_entity, transaction_deleted, transaction_entity,
}

pub record PurgeResult : Type 0 where
  pub accounts : ℕ
  pub transactions : ℕ

-- `kept`: the edges with another target
unfoldable pub kept_edges : Text → List Relationship → List Relationship
kept_edges target_id = keep (λ r. not (text_eq r.target target_id))

module _ (c : Codec) (u : CaseTable) (e : Option Emitter) where
  abbrev pub encode_relationships : List Relationship → Body Text
  encode_relationships es = or_marshal_error (c.marshal_relationships es)

  -- one round of the loop of `stripInboundRelationships`
  unfoldable pub strip_row : Text → Transaction → Body (Unit {0})
  unfolding kept_edges decode_relationships
  strip_row target_id row =
      let old = decode_relationships c row.relationships in
      let kept = kept_edges target_id old in
      if text_eq row.id target_id
      then pure tt
      else if length kept == length old
      then pure tt
      else (do
        encoded ← encode_relationships (normalize u kept)
        update_transaction_relationships row.id encoded
        emit_relationship_diff c e row.id old (normalize u kept))

  unfoldable pub strip_inbound_relationships : Text → Body (Unit {0})
  unfolding strip_row
  strip_inbound_relationships target_id = do
    rows ← list_related_transactions
    for_each (strip_row target_id) rows

  unfoldable pub delete_transaction_tx : Transaction → Body (Unit {0})
  unfolding strip_inbound_relationships
  delete_transaction_tx txn = do
    strip_inbound_relationships txn.id
    delete_transaction_versions txn.id
    delete_transaction txn.id
    emit c e transaction_deleted transaction_entity txn.id
        (of_transaction (transaction_snapshot c txn))

  -- The body of the loop of `PurgeSource` at an account of the source.
  unfoldable pub purge_account : PurgeResult → Account → Body PurgeResult
  unfolding delete_transaction_tx
  purge_account res acct = do
    children ← list_transactions_by_account acct.id
    deleted ←
        fold_each (λ n child. delete_transaction_tx child >> pure (suc n)) res.transactions children
    delete_account acct.id
    emit c e account_deleted account_entity acct.id (of_account (account_snapshot acct))
    pure (record { accounts = suc res.accounts; transactions = deleted })

  -- what `PurgeSource` runs in the recorder's transaction
  unfoldable pub purge_source : Text → Body PurgeResult
  unfolding purge_account
  purge_source source = do
    accounts ← list_accounts
    fold_each (λ res a. if not (text_eq a.source source) then pure res else purge_account res a)
        (record { accounts = 0; transactions = 0 }) accounts
