-- ===== src/Tests/Writes.antt =====
-- Writes to a ledger of two transactions of a source, the first with an edge to the second.
use kasas.Store.{Session, has_id}
use kasas.Relationships
use kasas.Events.Bus
use kasas.Events.Bus.{Bus, new_bus, receive, subscribe}
use kasas.Prelude.Sort.{sort, insert_sorted}
use kasas.Prelude.Text.{text_lt, text_eq, to_lower, lower_rune, codes, Text, ascii_case}
use kasas.Prelude.Trim.{trim, trim_left, trim_right, is_space}
use kasas.Prelude.Dict.{mem}
use kasas.Tests.Stubs.{
  stub_codec, stub_codec-Marshals, stub_codec-RoundTrips, stub_emitter, stub_marshal,
}
use kasas.Relationships.Sets.{IsEdgeSet, normalize-IsEdgeSet}
use kasas.Prelude.{All, [], arith, false, refl, some, true, ℕ, ◌∷◌, ◌≡◌}
use kasas.Events.Bus.Contiguous.{Reaches-IsSound}
use kasas.Events.Stream.{AllOrNothing, Schedule, record_tx}
use kasas.Tx.Returns.{Returned}
use kasas.Tx.{Conn}
use kasas.Relationships.{Relationship, normalize_kind}
use kasas.Ledger.Strip.{HoldsEdgeSet, points_at}
use kasas.Ledger.{delete_transaction_tx, purge_source}
use kasas.Ledger.Stream.{purge_source-AllOrNothing}
use kasas.Events.Codec.{decode_relationships}
use kasas.Prelude.Int.{pos}
use kasas.Ledger.Returns.{delete_transaction_tx-Returns, purge_source_run-Returns}
use kasas.Ledger.Delete.{delete_transaction_tx-unreferenced}
use kasas.Ledger.Purged.{purge_source-no_account}
use kasas.Store.Tables.{Db, EventRow, Transaction, transaction_created, transaction_entity}
use kasas.Events.Bus.History.{
  IsSound, Reaches, Starts, begins, publishes, receives, start_at, subscribes,
}

abbrev edge : Relationship
edge = record { kind = codes "r"; target = codes "t2" }

abbrev row : Text → Text → Transaction
row id rels = record {
  id = id;
  account_id = codes "a1";
  amount = codes "1.00";
  pending = 0;
  date = pos 5;
  description = codes "x";
  payee = [];
  memo = [];
  synced_at = pos 6;
  labels = codes "{}";
  extensions = codes "{}";
  source = codes "csv";
  relationships = rels;
}

abbrev edges_text : Text
edges_text = stub_marshal (edge ∷ [])

abbrev refund : Transaction
refund = row (codes "t1") edges_text

abbrev purchase : Transaction
purchase = row (codes "t2") (codes "[]")

abbrev ledger_db : Db
ledger_db = record {
  organizations = [];
  accounts =
      record {
        id = codes "a1";
        org_id = codes "o1";
        name = codes "Checking";
        currency = codes "EUR";
        balance = codes "0";
        balance_date = pos 0;
        synced_at = pos 0;
        source = codes "csv";
      }
      ∷ [];
  transactions = refund ∷ purchase ∷ [];
  events = [];
  versions = [];
  rules = [];
  next_event = 1;
  next_version = 1;
}

abbrev all_goes_well : Schedule
all_goes_well = record { begin_fails = false; faults = []; commit_fails = false }

-- the third statement fails
abbrev third_fails : Schedule
third_fails = record {
  begin_fails = false;
  faults = false ∷ false ∷ true ∷ [];
  commit_fails = false;
}

purge_source-AllOrNothing_example : AllOrNothing ledger_db (
    record_tx
      (some stub_emitter)
      third_fails
      ledger_db
      (purge_source stub_codec ascii_case (some stub_emitter) (codes "csv")))
purge_source-AllOrNothing_example =
    purge_source-AllOrNothing stub_codec ascii_case stub_emitter third_fails ledger_db (codes "csv")

abbrev opened : Conn Session
opened = record { state = record { db = ledger_db; emitted = [] }; faults = [] }

-- the deletion of the second transaction
abbrev deletion :
    Returned (delete_transaction_tx stub_codec ascii_case (some stub_emitter) purchase opened)
deletion =
    (delete_transaction_tx-Returns stub_codec ascii_case (some stub_emitter) stub_codec-Marshals
        purchase).at
      opened refl

edge-IsEdgeSet : IsEdgeSet (edge ∷ [])
unfolding Relationships.normalize Relationships.collect Relationships.add_edge sort insert_sorted
    text_eq normalize_kind to_lower trim trim_right trim_left is_space lower_rune
    Relationships.edge_less text_lt Relationships.write_kind Relationships.is_ident
    Relationships.is_separator Relationships.cap_kind Relationships.key mem
edge-IsEdgeSet = normalize-IsEdgeSet ascii_case (edge ∷ [])

rows-HoldsEdgeSet : All (HoldsEdgeSet stub_codec ascii_case (codes "t2")) ledger_db.transactions
unfolding decode_relationships text_eq
rows-HoldsEdgeSet =
    (edge-IsEdgeSet, (record { edges = tt; distinct = tt; sorted = tt; bounded = omega arith }, tt))

delete_transaction_tx-unreferenced_example :
    All
      (λ t.
        (has_id (codes "t2") t ≡ false) × (points_at stub_codec ascii_case (codes "t2") t ≡ false))
      deletion.conn.state.db.transactions
delete_transaction_tx-unreferenced_example =
    delete_transaction_tx-unreferenced stub_codec ascii_case (some stub_emitter) purchase opened
      deletion.value deletion.conn stub_codec-RoundTrips rows-HoldsEdgeSet deletion.result

abbrev event : ℕ → EventRow
event n = record {
  id = n;
  event_id = n ∷ [];
  event_type = transaction_created;
  entity_type = transaction_entity;
  entity_id = codes "t1";
  occurred_at = pos 0;
  payload = codes "{}";
}

-- one subscriber from the second event on, which has received one event
abbrev late_bus : Bus
late_bus =
    receive 0
      (Bus.publish (event 2 ∷ event 3 ∷ []) (subscribe (Bus.publish (event 1 ∷ []) new_bus)).1)

-- the subscriber's first event is the second
abbrev late_starts : Starts
late_starts = start_at 0 (event 1 ∷ []) (λ id. [])

late_bus-Reaches : Reaches (event 1 ∷ event 2 ∷ event 3 ∷ []) late_starts late_bus
unfolding Bus.publish
late_bus-Reaches =
    receives 0 (publishes (event 2 ∷ event 3 ∷ []) (subscribes (publishes (event 1 ∷ []) begins)))

Reaches-IsSound_example : IsSound (event 1 ∷ event 2 ∷ event 3 ∷ []) late_starts late_bus
Reaches-IsSound_example =
    Reaches-IsSound (event 1 ∷ event 2 ∷ event 3 ∷ []) late_starts late_bus late_bus-Reaches

abbrev purge :
    Returned (purge_source stub_codec ascii_case (some stub_emitter) (codes "csv") opened)
purge =
    (purge_source_run-Returns stub_codec ascii_case (some stub_emitter) stub_codec-Marshals
        (codes "csv")).at
      opened refl

purge_source-no_account_example :
    All (λ a. text_eq a.source (codes "csv") ≡ false) purge.conn.state.db.accounts
purge_source-no_account_example =
    purge_source-no_account stub_codec ascii_case (some stub_emitter) (codes "csv") opened
      purge.value purge.conn purge.result
