-- ===== src/Store/Tables.antt =====
-- The rows of the ledger's tables (internal/db/models.go, and the constants of internal/events/events.go).
use kasas.Prelude.Text.{Text}
use kasas.Prelude.Int.{ℤ}
use kasas.Prelude.{List, ℕ}

pub record Organization : Type 0 where
  pub id : Text
  pub domain : Text
  pub name : Text
  pub sfin_url : Text

pub record Account : Type 0 where
  pub id : Text
  pub org_id : Text
  pub name : Text
  pub currency : Text
  pub balance : Text
  pub balance_date : ℤ
  pub synced_at : ℤ
  pub source : Text

pub record Transaction : Type 0 where
  pub id : Text
  pub account_id : Text
  pub amount : Text
  pub pending : ℕ
  pub date : ℤ
  pub description : Text
  pub payee : Text
  pub memo : Text
  pub synced_at : ℤ
  pub labels : Text
  pub extensions : Text
  pub source : Text
  pub relationships : Text

-- The strings of the column event_type, of events.go.
pub data EventType : Type 0 where
  transaction_created transaction_updated transaction_deleted : EventType
  account_created account_updated account_deleted : EventType
  label_applied label_removed extension_set extension_removed : EventType
  relationship_created relationship_removed : EventType

pub data EntityType : Type 0 where
  transaction_entity account_entity : EntityType

pub data ChangeKind : Type 0 where
  imported synced labeled extended edited : ChangeKind

pub record EventRow : Type 0 where
  pub id : ℕ
  pub event_id : Text
  pub event_type : EventType
  pub entity_type : EntityType
  pub entity_id : Text
  pub occurred_at : ℤ
  pub payload : Text

pub record TransactionVersion : Type 0 where
  pub id : ℕ
  pub transaction_id : Text
  pub change_kind : ChangeKind
  pub occurred_at : ℤ
  pub payload : Text

pub record Rule : Type 0 where
  pub id : ℕ
  pub name : Text
  pub query : Text
  pub labels : Text
  pub enabled : ℕ
  pub extensions : Text

pub record Db : Type 0 where
  pub organizations : List Organization
  pub accounts : List Account
  pub transactions : List Transaction
  pub events : List EventRow
  pub versions : List TransactionVersion
  pub rules : List Rule
  pub next_event : ℕ
  pub next_version : ℕ
