-- ===== src/Ledger/Returns.antt =====
-- Where no call of the driver fails, purging a source goes through to its result.
use kasas.Events.Codec.{Codec, Payload}
use kasas.Prelude.{List, Option, none, not, some, suc, ◌≡◌}
use kasas.Events.Recorder.{Emitter, buffer, emit, emit_relationship_diff}
use kasas.Store.{
  delete_account, delete_transaction, delete_transaction_versions, insert_event, list_accounts,
  list_related_transactions, list_transactions_by_account, update_transaction_relationships,
}
use kasas.Ledger.{PurgeResult, delete_transaction_tx, purge_account, purge_source, strip_row}
use kasas.Tx.Returns.{
  Returns, Returns-bind, Returns-fold_each, Returns-for_each, Returns-if, Returns-modify,
  Returns-or_marshal_error, Returns-pure, Returns-statement,
}
use kasas.Relationships.{Relationship}
use kasas.Prelude.Text.{CaseTable, Text, text_eq}
use kasas.Store.Tables.{Account, EntityType, EventType, Transaction}

-- json.Marshal takes every payload and every list of edges.
pub record Marshals (c : Codec) : Type 0 where
  pub payload : (v : Payload c.Value) → (t : Text) × (c.marshal v ≡ some t)
  pub edges : (es : List Relationship) → (t : Text) × (c.marshal_relationships es ≡ some t)

module _ (c : Codec) (u : CaseTable) (e : Option Emitter) (m : Marshals c) where
  emit-Returns :
      (e : Option Emitter) (kind : EventType) (entity : EntityType) (id : Text)
      (v : Payload c.Value)
      → Returns (emit c e kind entity id v)
  unfolding emit insert_event buffer
  emit-Returns none kind entity id v = Returns-pure tt
  emit-Returns (some e) kind entity id v =
      Returns-bind _ _ (Returns-or_marshal_error _ (m.payload v).0 (m.payload v).1)
        (λ raw. Returns-bind _ _ (Returns-statement _) (λ row. Returns-modify _))

  strip_row-Returns :
      (target_id : Text) (row : Transaction) → Returns (strip_row c u e target_id row)
  unfolding strip_row update_transaction_relationships emit_relationship_diff
  strip_row-Returns target_id row = Returns-if (text_eq row.id target_id) _ _ (Returns-pure tt) (
      Returns-if _ _ _ (Returns-pure tt) (
        Returns-bind _ _ (Returns-or_marshal_error _ (m.edges _).0 (m.edges _).1) (λ encoded.
          Returns-bind _ _ (Returns-statement _) (λ _.
            Returns-bind _ _ (Returns-for_each _ _ (λ r. emit-Returns e _ _ _ _))
              (λ _. Returns-for_each _ _ (λ r. emit-Returns e _ _ _ _))))))

  pub delete_transaction_tx-Returns :
      (txn : Transaction) → Returns (delete_transaction_tx c u e txn)
  unfolding delete_transaction_tx list_related_transactions delete_transaction_versions
      delete_transaction
  delete_transaction_tx-Returns txn =
      Returns-bind _ _
        (Returns-bind _ _ (Returns-statement _)
          (λ rows. Returns-for_each _ rows (strip_row-Returns txn.id)))
        (λ _.
          Returns-bind _ _ (Returns-statement _)
            (λ _. Returns-bind _ _ (Returns-statement _) (λ _. emit-Returns e _ _ _ _)))

  purge_account-Returns :
      (res : PurgeResult) (acct : Account) → Returns (purge_account c u e res acct)
  unfolding purge_account list_transactions_by_account delete_account
  purge_account-Returns res acct = Returns-bind _ _ (Returns-statement _) (λ children.
      Returns-bind _ _
        (Returns-fold_each _ _ children (λ n child.
          Returns-bind _ _ (delete_transaction_tx-Returns child) (λ _. Returns-pure (suc n))))
        (λ deleted.
          Returns-bind _ _ (Returns-statement _)
            (λ _. Returns-bind _ _ (emit-Returns e _ _ _ _) (λ _. Returns-pure _))))

  pub purge_source_run-Returns : (source : Text) → Returns (purge_source c u e source)
  unfolding purge_source list_accounts
  purge_source_run-Returns source = Returns-bind _ _ (Returns-statement _) (λ accounts.
      Returns-fold_each _ _ accounts (λ res a.
        Returns-if (not (text_eq a.source source)) _ _ (Returns-pure res)
          (purge_account-Returns res a)))
