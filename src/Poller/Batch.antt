-- ===== src/Poller/Batch.antt =====
-- The rows of a batch (internal/source/source.go), the rows of the tables that the persister makes of
-- them, and when an upsert is a change (internal/poller/persister.go).
use kasas.Prelude.{Bool, List, [], if◌then◌else◌, not, ℕ, ◌==◌, ◌||◌}
use kasas.Store.Tables.{Account, Transaction}
use kasas.Prelude.Text.{Text, text_eq}
use kasas.Prelude.Int.{int_eq, ℤ}

pub record ImportOrg : Type 0 where
  pub id : Text
  pub domain : Text
  pub name : Text
  pub url : Text

-- The extensions of an imported transaction are not persisted, and left out.
pub record ImportTxn : Type 0 where
  pub external_id : Text
  pub amount : Text
  pub date : ℤ
  pub description : Text
  pub payee : Text
  pub memo : Text
  pub pending : Bool

pub record ImportAccount : Type 0 where
  pub external_id : Text
  pub org : ImportOrg
  pub name : Text
  pub currency : Text
  pub balance : Text
  pub balance_date : ℤ
  pub txns : List ImportTxn

-- The cursor is the engine's, and left out.
pub record ImportBatch : Type 0 where
  pub source : Text
  pub accounts : List ImportAccount

-- The duration, in nanoseconds, is set by the caller of `Persist`.
pub record SyncResult : Type 0 where
  pub accounts : ℕ
  pub new_transactions : ℕ
  pub updated_transactions : ℕ
  pub auto_labeled : ℕ
  pub duration : ℕ

abbrev pub no_result : SyncResult
no_result = record {
  accounts = 0;
  new_transactions = 0;
  updated_transactions = 0;
  auto_labeled = 0;
  duration = 0;
}

-- `boolToInt`
unfoldable pub bool_to_int : Bool → ℕ
bool_to_int b = if b then 1 else 0

-- `accountChanged`
unfoldable pub account_changed : Account → Account → Bool
account_changed prev next =
    not (text_eq prev.name next.name)
    || not (text_eq prev.currency next.currency)
    || not (text_eq prev.balance next.balance)
    || not (int_eq prev.balance_date next.balance_date)
    || not (text_eq prev.org_id next.org_id)

-- `transactionBridgeChanged`
unfoldable pub bridge_changed : Transaction → Transaction → Bool
bridge_changed prev next =
    not (text_eq prev.account_id next.account_id)
    || not (text_eq prev.amount next.amount)
    || not (prev.pending == next.pending)
    || not (int_eq prev.date next.date)
    || not (text_eq prev.description next.description)
    || not (text_eq prev.payee next.payee)
    || not (text_eq prev.memo next.memo)

-- `newTransactionRow`; the source and the relationships are not in it
unfoldable pub new_transaction_row : ImportAccount → ImportTxn → ℤ → Text → Text → Transaction
unfolding bool_to_int
new_transaction_row acct t synced_at labels_json ext_json = record {
  id = t.external_id;
  account_id = acct.external_id;
  amount = t.amount;
  pending = bool_to_int t.pending;
  date = t.date;
  description = t.description;
  payee = t.payee;
  memo = t.memo;
  synced_at = synced_at;
  labels = labels_json;
  extensions = ext_json;
  source = [];
  relationships = [];
}

-- What is inserted, with its provenance.
abbrev pub inserted_row : ImportBatch → ImportAccount → ImportTxn → ℤ → Transaction
inserted_row batch acct t synced_at = record (new_transaction_row acct t synced_at [] []) {
  source = batch.source;
}

abbrev pub new_account : ImportBatch → ℤ → ImportAccount → Account
new_account batch synced_at acct = record {
  id = acct.external_id;
  org_id = acct.org.id;
  name = acct.name;
  currency = acct.currency;
  balance = acct.balance;
  balance_date = acct.balance_date;
  synced_at = synced_at;
  source = batch.source;
}
