-- ===== src/Events/Unchanged.antt =====
-- Recording events and versions leaves the tables of the ledger alone.
use kasas.Relationships.{Relationship}
use kasas.Tx.Keeps.{
  Keeps, Keeps-bind, Keeps-for_each, Keeps-if, Keeps-modify, Keeps-or_marshal_error, Keeps-pure,
  Keeps-statement,
}
use kasas.Events.Recorder.{
  Emitter, emit, emit_extension_diff, emit_label_diff, emit_relationship_diff, version,
  version_change,
}
use kasas.Store.{Session, count_transaction_versions, insert_event, insert_transaction_version}
use kasas.Prelude.{List, Option, none, some, ◌==◌}
use kasas.Events.Codec.{Codec, Payload, TransactionPayload, of_transaction}
use kasas.Prelude.Dict.{Dict}
use kasas.Prelude.Text.{Text}
use kasas.Store.Tables.{Account, ChangeKind, EntityType, EventType, Transaction, imported}

-- What `Q` says of the transactions and the accounts.
abbrev pub OfLedger : (List Transaction → List Account → Type 0) → Session → Type 0
OfLedger Q s = Q s.db.transactions s.db.accounts

module _ (c : Codec) (Q : List Transaction → List Account → Type 0) where
  pub emit-OfLedger :
      (e : Option Emitter) (kind : EventType) (entity : EntityType) (id : Text)
      (v : Payload c.Value)
      → Keeps (OfLedger Q) (emit c e kind entity id v)
  unfolding emit insert_event
  emit-OfLedger none kind entity id v = Keeps-pure tt
  emit-OfLedger (some e) kind entity id v =
      Keeps-bind _ _ (Keeps-or_marshal_error (c.marshal v))
        (λ raw. Keeps-bind _ _ (Keeps-statement _ (λ s h. h)) (λ row. Keeps-modify _ (λ s h. h)))

  pub version-OfLedger :
      (e : Option Emitter) (id : Text) (snap : TransactionPayload c.Value) (kind : ChangeKind)
      → Keeps (OfLedger Q) (version c e id snap kind)
  unfolding version insert_transaction_version
  version-OfLedger none id snap kind = Keeps-pure tt
  version-OfLedger (some e) id snap kind =
      Keeps-bind _ _ (Keeps-or_marshal_error (c.marshal (of_transaction snap)))
        (λ raw. Keeps-statement _ (λ s h. h))

  pub version_change-OfLedger :
      (e : Option Emitter) (id : Text) (prior next : TransactionPayload c.Value) (kind : ChangeKind)
      → Keeps (OfLedger Q) (version_change c e id prior next kind)
  unfolding version_change count_transaction_versions
  version_change-OfLedger none id prior next kind = Keeps-pure tt
  version_change-OfLedger (some e) id prior next kind =
      Keeps-bind _ _ (Keeps-statement _ (λ s h. h)) (λ n.
        Keeps-bind _ _
          (Keeps-if (n == 0) _ _ (version-OfLedger (some e) id prior imported) (Keeps-pure tt))
          (λ _. version-OfLedger (some e) id next kind))

  pub label_diff-OfLedger :
      (e : Option Emitter) (id : Text) (old new : Dict Text)
      → Keeps (OfLedger Q) (emit_label_diff c e id old new)
  unfolding emit_label_diff
  label_diff-OfLedger e id old new =
      Keeps-bind _ _ (Keeps-for_each _ _ (λ p. emit-OfLedger e _ _ _ _))
        (λ _. Keeps-for_each _ _ (λ p. emit-OfLedger e _ _ _ _))

  pub extension_diff-OfLedger :
      (e : Option Emitter) (id : Text) (old new : Dict Text)
      → Keeps (OfLedger Q) (emit_extension_diff c e id old new)
  unfolding emit_extension_diff
  extension_diff-OfLedger e id old new =
      Keeps-bind _ _ (Keeps-for_each _ _ (λ p. emit-OfLedger e _ _ _ _))
        (λ _. Keeps-for_each _ _ (λ p. emit-OfLedger e _ _ _ _))

  pub relationship_diff-OfLedger :
      (e : Option Emitter) (id : Text) (old new : List Relationship)
      → Keeps (OfLedger Q) (emit_relationship_diff c e id old new)
  unfolding emit_relationship_diff
  relationship_diff-OfLedger e id old new =
      Keeps-bind _ _ (Keeps-for_each _ _ (λ r. emit-OfLedger e _ _ _ _))
        (λ _. Keeps-for_each _ _ (λ r. emit-OfLedger e _ _ _ _))
