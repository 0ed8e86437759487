-- ===== src/Tests/Sync.antt =====
-- A sync at concrete inputs: an account of the table with a transaction that the table has, whose
-- amount has changed and to which the user gave a label, and a new one.
use kasas.Prelude.Sort.{sort}
use kasas.Extensions
use kasas.Poller.{
  Reader, apply_rules_to_new_txn, compile_all, import_new, load_enabled_rules, persist,
  persist_account, persist_txn, refresh,
}
use kasas.Poller.Metadata.{persist-Kept}
use kasas.Prelude.{[], false, none, refl, some, true, ◌∷◌, ◌≡◌}
use kasas.Tests.Stubs.{stub_codec, stub_emitter, stub_std}
use kasas.Store.{
  Session, get_account, get_transaction, insert_transaction, list_enabled_rules,
  update_transaction_from_sync, upsert_account, upsert_organization, find,
}
use kasas.Extensions.Sets.{IsExtensionSet, normalize-IsExtensionSet}
use kasas.Events.Stream.{AllOrNothing, Schedule, record_tx}
use kasas.Tx.{Conn, fold_each, ok, pure, statement}
use kasas.Events.Recorder.{emit, version, version_change}
use kasas.Prelude.Text.{Text, codes, text_eq}
use kasas.Prelude.Int.{pos}
use kasas.Poller.Metadata.Rows.{Kept}
use kasas.Poller.Stream.{persist-AllOrNothing}
use kasas.Poller.Batch.{
  ImportBatch, ImportOrg, ImportTxn, account_changed, bool_to_int, bridge_changed,
  new_transaction_row,
}
use kasas.Store.Tables.{Account, Db, Transaction}
use kasas.Poller.Quiet.{Settled, persist-Settled}

abbrev stub_reader : Reader stub_std
stub_reader = record { unix = λ t. 0; float_of = λ t. 0 }

abbrev stored : Transaction
stored = record {
  id = codes "t1";
  account_id = codes "a1";
  amount = codes "1.00";
  pending = 0;
  date = pos 5;
  description = codes "x";
  payee = [];
  memo = [];
  synced_at = pos 6;
  labels = codes "{\"food\":\"\"}";
  extensions = codes "{}";
  source = codes "csv";
  relationships = codes "[]";
}

abbrev stored_account : Account
stored_account = record {
  id = codes "a1";
  org_id = codes "o1";
  name = codes "Checking";
  currency = codes "EUR";
  balance = codes "0";
  balance_date = pos 0;
  synced_at = pos 0;
  source = codes "csv";
}

abbrev empty_db : Db
empty_db = record {
  organizations = [];
  accounts = [];
  transactions = [];
  events = [];
  versions = [];
  rules = [];
  next_event = 1;
  next_version = 1;
}

abbrev before : Db
before = record empty_db { accounts = stored_account ∷ []; transactions = stored ∷ [] }

abbrev incoming : Text → Text → ImportTxn
incoming id amount = record {
  external_id = id;
  amount = amount;
  date = pos 5;
  description = codes "x";
  payee = [];
  memo = [];
  pending = false;
}

abbrev the_org : ImportOrg
the_org = record { id = codes "o1"; domain = []; name = codes "Bank"; url = [] }

abbrev the_batch : ImportBatch
the_batch = record {
  source = codes "bank";
  accounts =
      record {
        external_id = codes "a1";
        org = the_org;
        name = codes "Checking";
        currency = codes "EUR";
        balance = codes "0";
        balance_date = pos 0;
        txns = incoming (codes "t1") (codes "2.00") ∷ incoming (codes "t2") (codes "3.00") ∷ [];
      }
      ∷ [];
}

abbrev opened : Conn Session
opened = record { state = record { db = before; emitted = [] }; faults = [] }

abbrev after : Db
after = record before {
  organizations = record { id = codes "o1"; domain = []; name = codes "Bank"; sfin_url = [] } ∷ [];
  accounts = record stored_account { synced_at = pos 9 } ∷ [];
  transactions =
      record stored { amount = codes "2.00"; synced_at = pos 9 }
      ∷ record stored {
        id = codes "t2";
        amount = codes "3.00";
        synced_at = pos 9;
        labels = codes "{}";
        source = codes "bank";
      }
      ∷ [];
}

persist_test :
    persist stub_std stub_reader stub_codec none the_batch (pos 9) opened
    ≡ ok (
      record {
        accounts = 1;
        new_transactions = 1;
        updated_transactions = 1;
        auto_labeled = 0;
        duration = 0;
      },
      record { state = record { db = after; emitted = [] }; faults = [] },
    )
unfolding persist load_enabled_rules compile_all persist_account persist_txn refresh import_new
    apply_rules_to_new_txn account_changed bridge_changed new_transaction_row bool_to_int emit
    version version_change upsert_organization upsert_account get_account get_transaction
    insert_transaction list_enabled_rules update_transaction_from_sync statement pure fold_each
    text_eq sort
persist_test = refl

persist-Kept_example : Kept stored after.transactions
unfolding find text_eq
persist-Kept_example =
    persist-Kept stub_std stub_reader stub_codec none stored the_batch (pos 9) opened _ _ refl
      persist_test

abbrev third_call_fails : Schedule
third_call_fails = record {
  begin_fails = false;
  faults = false ∷ false ∷ true ∷ [];
  commit_fails = false;
}

persist-AllOrNothing_example : AllOrNothing before (
    record_tx
      (some stub_emitter)
      third_call_fails
      before
      (persist stub_std stub_reader stub_codec (some stub_emitter) the_batch (pos 9)))
persist-AllOrNothing_example =
    persist-AllOrNothing stub_std stub_reader stub_codec stub_emitter third_call_fails before
      the_batch (pos 9)

normalize-IsExtensionSet_example :
    IsExtensionSet stub_codec
      (Extensions.normalize stub_codec ((codes "Risk/score", codes "3") ∷ []))
normalize-IsExtensionSet_example =
    normalize-IsExtensionSet stub_codec ((codes "Risk/score", codes "3") ∷ [])

-- The same batch a second time, with an emitter.
abbrev opened_again : Conn Session
opened_again = record { state = record { db = after; emitted = [] }; faults = [] }

after-Settled :
    Settled stub_std stub_reader stub_codec
      (some stub_emitter)
      the_batch
      (pos 10)
      opened_again.state
      opened_again.state
unfolding account_changed bridge_changed new_transaction_row bool_to_int find text_eq
after-Settled = record {
  accounts = ((record stored_account { synced_at = pos 9 }, refl, refl), tt);
  txns = (
    (
      (record stored { amount = codes "2.00"; synced_at = pos 9 }, refl, refl),
      ((_, refl, refl), tt),
    ),
    tt,
  );
  events = refl;
  emitted = refl;
  versions = refl;
}

abbrev refreshed : Db
refreshed = record after {
  accounts = record stored_account { synced_at = pos 10 } ∷ [];
  transactions =
      record stored { amount = codes "2.00"; synced_at = pos 10 }
      ∷ record stored {
        id = codes "t2";
        amount = codes "3.00";
        synced_at = pos 10;
        labels = codes "{}";
        source = codes "bank";
      }
      ∷ [];
}

persist_again :
    persist stub_std stub_reader stub_codec (some stub_emitter) the_batch (pos 10) opened_again
    ≡ ok (
      record {
        accounts = 1;
        new_transactions = 0;
        updated_transactions = 2;
        auto_labeled = 0;
        duration = 0;
      },
      record { state = record { db = refreshed; emitted = [] }; faults = [] },
    )
unfolding persist load_enabled_rules compile_all persist_account persist_txn refresh import_new
    apply_rules_to_new_txn account_changed bridge_changed new_transaction_row bool_to_int emit
    version version_change upsert_organization upsert_account get_account get_transaction
    insert_transaction list_enabled_rules update_transaction_from_sync statement pure fold_each
    text_eq sort
persist_again = refl

persist-Settled_example :
    Settled stub_std stub_reader stub_codec
      (some stub_emitter)
      the_batch
      (pos 10)
      opened_again.state
      (record { db = refreshed; emitted = [] })
persist-Settled_example =
    persist-Settled stub_std stub_reader stub_codec (some stub_emitter) the_batch (pos 10)
      opened_again.state opened_again _ _ after-Settled persist_again
