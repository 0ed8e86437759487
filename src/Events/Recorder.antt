-- ===== src/Events/Recorder.antt =====
-- `Recorder` of emitter.go. A nil emitter, which records nothing, is `none`.
use kasas.Relationships.{Relationship}
use kasas.Tx.{◌>>=◌, ◌>>◌}
use kasas.Store.{Body, count_transaction_versions, insert_event, insert_transaction_version}
use kasas.Prelude.Dict.{Dict, get, has}
use kasas.Events.Codec.{
  Codec, Payload, TransactionPayload, of_extension, of_label, of_relationship, of_transaction,
}
use kasas.Prelude.{
  Bool, List, Option, [], any, if◌then◌else◌, keep, none, not, some, true, ℕ, ◌++◌, ◌==◌, ◌∷◌,
}
use kasas.Tx.{for_each, modify, or_marshal_error, pure}
use kasas.Prelude.Text.{Text, text_eq}
use kasas.Relationships.{key}
use kasas.Prelude.Int.{ℤ}
use kasas.Store.Tables.{
  ChangeKind, EntityType, EventRow, EventType, TransactionVersion, extension_removed, extension_set,
  imported, label_applied, label_removed, relationship_created, relationship_removed,
  transaction_entity,
}

-- What the emitter takes from outside: the n-th UUID and the clock at the n-th call.
pub record Emitter : Type 0 where
  pub new_id : ℕ → Text
  pub now : ℕ → ℤ

module _ (c : Codec) where
  abbrev pub event_row : Emitter → EventType → EntityType → Text → Text → ℕ → EventRow
  event_row e kind entity id raw n = record {
    id = n;
    event_id = e.new_id n;
    event_type = kind;
    entity_type = entity;
    entity_id = id;
    occurred_at = e.now n;
    payload = raw;
  }

  -- r.events = append(r.events, …), with the row that was stored
  unfoldable pub buffer : EventRow → Body (Unit {0})
  buffer row = modify (λ s. record s { emitted = s.emitted ++ (row ∷ []) })

  -- the number of events so far indexes the emitter's calls
  unfoldable pub emit :
      Option Emitter → EventType → EntityType → Text → Payload c.Value → Body (Unit {0})
  unfolding buffer
  emit none kind entity id value = pure tt
  emit (some e) kind entity id value = do
    raw ← or_marshal_error (c.marshal value)
    row ← insert_event (λ n. event_row e kind entity id raw n)
    buffer row

  abbrev pub version_row : Emitter → Text → ChangeKind → Text → ℕ → TransactionVersion
  version_row e id kind raw n = record {
    id = n;
    transaction_id = id;
    change_kind = kind;
    occurred_at = e.now n;
    payload = raw;
  }

  unfoldable pub version :
      Option Emitter → Text → TransactionPayload c.Value → ChangeKind → Body (Unit {0})
  version none id snap kind = pure tt
  version (some e) id snap kind = do
    raw ← or_marshal_error (c.marshal (of_transaction snap))
    insert_transaction_version (λ n. version_row e id kind raw n)

  unfoldable pub version_change :
      Option Emitter
      → Text
      → TransactionPayload c.Value
      → TransactionPayload c.Value
      → ChangeKind
      → Body (Unit {0})
  unfolding version
  version_change none id prior next kind = pure tt
  version_change (some e) id prior next kind = do
    n ← count_transaction_versions id
    if n == 0 then version (some e) id prior imported else pure tt
    version (some e) id next kind

  abbrev label_event : Text → (Text × Text) → Payload c.Value
  label_event id (k, v) = of_label (record { transaction_id = id; label_key = k; label_value = v })

  abbrev extension_event : Text → (Text × Text) → Payload c.Value
  extension_event id (k, v) =
      of_extension (record { transaction_id = id; extension_key = k; extension_value = v })

  abbrev edge_event : Text → Relationship → Payload c.Value
  edge_event id r =
      of_relationship (record { transaction_id = id; edge_kind = r.kind; edge_target = r.target })

  -- `oldLabels[k] != v`, where a missing key reads as ""
  unfoldable pub label_differs : Dict Text → Text × Text → Bool
  label_differs old (k, v) = elim (get k old) [
    | none ↦ not (text_eq [] v)
    | some w ↦ not (text_eq w v)
  ]

  -- `old, ok := oldExt[k]; !ok || !bytes.Equal(old, v)`
  unfoldable pub extension_differs : Dict Text → Text × Text → Bool
  extension_differs old (k, v) = elim (get k old) [ none ↦ true | some w ↦ not (text_eq w v) ]

  unfoldable pub emit_label_diff : Option Emitter → Text → Dict Text → Dict Text → Body (Unit {0})
  unfolding emit label_differs
  emit_label_diff e id old new = do
    for_each (λ p. emit e label_applied transaction_entity id (label_event id p))
        (keep (label_differs old) new)
    for_each (λ p. emit e label_removed transaction_entity id (label_event id p))
        (keep (λ p. not (has p.0 new)) old)

  unfoldable pub emit_extension_diff :
      Option Emitter → Text → Dict Text → Dict Text → Body (Unit {0})
  unfolding emit extension_differs
  emit_extension_diff e id old new = do
    for_each (λ p. emit e extension_set transaction_entity id (extension_event id p))
        (keep (extension_differs old) new)
    for_each (λ p. emit e extension_removed transaction_entity id (extension_event id p))
        (keep (λ p. not (has p.0 new)) old)

  abbrev has_edge : List Relationship → Relationship → Bool
  has_edge es r = any (λ x. text_eq (key x) (key r)) es

  unfoldable pub emit_relationship_diff :
      Option Emitter → Text → List Relationship → List Relationship → Body (Unit {0})
  unfolding emit
  emit_relationship_diff e id old new = do
    for_each (λ r. emit e relationship_created transaction_entity id (edge_event id r))
        (keep (λ r. not (has_edge old r)) new)
    for_each (λ r. emit e relationship_removed transaction_entity id (edge_event id r))
        (keep (λ r. not (has_edge new r)) old)
