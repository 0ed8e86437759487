-- ===== src/Store.antt =====
-- internal/db: the statements on the ledger's tables that the write paths run (*.sql.go, from
-- queries/*.sql). A table is the list of its rows in the order of
-- insertion.
pub mod Tables
use kasas.Prelude.{
  Bool, List, Option, [], false, if◌then◌else◌, keep, length, ltb, none, not, some, suc, true, ℕ,
  ◌++◌, ◌==◌, ◌∷◌,
}
use kasas.Prelude.Text.{Text, codes, text_eq, text_lt}
use kasas.Tx.{Tx, statement}
use kasas.Prelude.Sort.{sort}
use kasas.Prelude.Int.{ℤ, int_eq, int_lt}
use kasas.Store.Tables.{Account, Db, EventRow, Organization, Rule, Transaction, TransactionVersion}

-- The state of a recorder transaction: the database, and the events that `Recorder` buffers.
pub record Session : Type 0 where
  pub db : Db
  pub emitted : List EventRow

abbrev pub Body : Type 0 → Type 0
Body A = Tx Session A

abbrev pub on_db {ℓ} : {A : Type ℓ} → (Db → A × Db) → Session → A × Session
on_db f s = let (a, db) = f s.db in (a, record s { db = db })

-- The rows that a test selects are rewritten.
unfoldable pub update_where {ℓ} : {A : Type ℓ} → (A → Bool) → (A → A) → List A → List A
update_where p f [] = []
update_where p f (x ∷ xs) = (if p x then f x else x) ∷ update_where p f xs

unfoldable pub find {ℓ} : {A : Type ℓ} → (A → Bool) → List A → Option A
find p [] = none
find p (x ∷ xs) = if p x then some x else find p xs

abbrev pub has_id : Text → Transaction → Bool
has_id id t = text_eq t.id id

abbrev pub is_account : Text → Account → Bool
is_account id a = text_eq a.id id

-- ON CONFLICT (id) DO UPDATE: all columns but the provenance
unfoldable pub upsert_row : Account → List Account → List Account
upsert_row a [] = a ∷ []
upsert_row a (x ∷ xs) =
    if is_account a.id x then record a { source = x.source } ∷ xs else x ∷ upsert_row a xs

unfoldable pub upsert_org : Organization → List Organization → List Organization
upsert_org o [] = o ∷ []
upsert_org o (x ∷ xs) = if text_eq x.id o.id then o ∷ xs else x ∷ upsert_org o xs

unfoldable pub upsert_organization : Organization → Body (Unit {0})
unfolding upsert_org
upsert_organization o =
    statement (on_db (λ db. (tt, record db { organizations = upsert_org o db.organizations })))

-- `none` is sql.ErrNoRows
unfoldable pub get_account : Text → Body (Option Account)
unfolding find
get_account id = statement (on_db (λ db. (find (is_account id) db.accounts, db)))

unfoldable pub upsert_account : Account → Body (Unit {0})
unfolding upsert_row
upsert_account a = statement (on_db (λ db. (tt, record db { accounts = upsert_row a db.accounts })))

unfoldable pub list_accounts : Body (List Account)
list_accounts = statement (on_db (λ db. (sort (λ a b. text_lt a.name b.name) db.accounts, db)))

-- The rows of `transactions.account_id` go with the account: ON DELETE CASCADE.
unfoldable pub delete_account : Text → Body (Unit {0})
delete_account id = statement (
    on_db (λ db. (
      tt,
      record db {
        accounts = keep (λ a. not (is_account id a)) db.accounts;
        transactions = keep (λ t. not (text_eq t.account_id id)) db.transactions;
      },
    )))

-- ON CONFLICT (id) DO NOTHING; the number is that of the rows inserted. The columns of metadata
-- start empty, whatever the argument says.
abbrev pub insert_unless : Transaction → Db → Option Transaction → Bool × Db
insert_unless t db (some old) = (false, db)
insert_unless t db none = (
  true,
  record db {
    transactions =
        db.transactions
        ++ (record t { labels = codes "{}"; extensions = codes "{}"; relationships = codes "[]" }
            ∷ []);
  },
)

unfoldable pub insert_row : Transaction → Db → Bool × Db
unfolding find
insert_row t db = insert_unless t db (find (has_id t.id) db.transactions)

-- whether `n > 0`
unfoldable pub insert_transaction : Transaction → Body Bool
unfolding insert_row
insert_transaction t = statement (on_db (insert_row t))

unfoldable pub get_transaction : Text → Body (Option Transaction)
unfolding find
get_transaction id = statement (on_db (λ db. (find (has_id id) db.transactions, db)))

abbrev pub update_transactions : Text → (Transaction → Transaction) → Body (Unit {0})
update_transactions id f =
    statement
      (on_db (λ db. (tt, record db { transactions = update_where (has_id id) f db.transactions })))

-- The columns of the bridge; labels, extensions, relationships and source are not in the SET list.
-- The fields that the bridge owns.
abbrev pub from_sync : Transaction → Transaction → Transaction
from_sync t x = record x {
  account_id = t.account_id;
  amount = t.amount;
  pending = t.pending;
  date = t.date;
  description = t.description;
  payee = t.payee;
  memo = t.memo;
  synced_at = t.synced_at;
}

unfoldable pub update_transaction_from_sync : Transaction → Body (Unit {0})
unfolding update_where
update_transaction_from_sync t = update_transactions t.id (from_sync t)

unfoldable pub update_transaction_labels : Text → Text → Body (Unit {0})
unfolding update_where
update_transaction_labels id labels = update_transactions id (λ x. record x { labels = labels })

unfoldable pub update_transaction_extensions : Text → Text → Body (Unit {0})
unfolding update_where
update_transaction_extensions id ext = update_transactions id (λ x. record x { extensions = ext })

unfoldable pub update_transaction_relationships : Text → Text → Body (Unit {0})
unfolding update_where
update_transaction_relationships id rels =
    update_transactions id (λ x. record x { relationships = rels })

unfoldable pub delete_transaction : Text → Body (Unit {0})
delete_transaction id =
    statement (
      on_db
        (λ db. (tt, record db { transactions = keep (λ t. not (has_id id t)) db.transactions })))

-- WHERE relationships <> '[]' ORDER BY id
unfoldable pub related_rows : Db → List Transaction
related_rows db =
    sort (λ a b. text_lt a.id b.id)
      (keep (λ t. not (text_eq t.relationships (codes "[]"))) db.transactions)

unfoldable pub list_related_transactions : Body (List Transaction)
unfolding related_rows
list_related_transactions = statement (on_db (λ db. (related_rows db, db)))

abbrev newest_first : Transaction → Transaction → Bool
newest_first a b = if int_eq a.date b.date then text_lt a.id b.id else int_lt b.date a.date

-- WHERE account_id = … ORDER BY date DESC, id, with no bound on the date, and a limit of
-- math.MaxInt32 rows that no table is taken to reach.
unfoldable pub list_transactions_by_account : Text → Body (List Transaction)
list_transactions_by_account id =
    statement
      (on_db (λ db. (sort newest_first (keep (λ t. text_eq t.account_id id) db.transactions), db)))

-- WHERE enabled = 1 ORDER BY id
unfoldable pub list_enabled_rules : Body (List Rule)
list_enabled_rules =
    statement
      (on_db (λ db. (sort (λ a b. ltb a.id b.id) (keep (λ r. r.enabled == 1) db.rules), db)))

-- The row as it was stored: `row n` is the row with the generated id `n`.
unfoldable pub insert_event : (ℕ → EventRow) → Body EventRow
insert_event row = statement (
    on_db (λ db. (
      row db.next_event,
      record db { events = db.events ++ (row db.next_event ∷ []); next_event = suc db.next_event },
    )))

unfoldable pub insert_transaction_version : (ℕ → TransactionVersion) → Body (Unit {0})
insert_transaction_version row = statement (
    on_db (λ db. (
      tt,
      record db {
        versions = db.versions ++ (row db.next_version ∷ []);
        next_version = suc db.next_version;
      },
    )))

abbrev pub version_of : Text → TransactionVersion → Bool
version_of id v = text_eq v.transaction_id id

unfoldable pub count_transaction_versions : Text → Body ℕ
count_transaction_versions id =
    statement (on_db (λ db. (length (keep (version_of id) db.versions), db)))

unfoldable pub delete_transaction_versions : Text → Body (Unit {0})
delete_transaction_versions id =
    statement
      (on_db (λ db. (tt, record db { versions = keep (λ v. not (version_of id v)) db.versions })))
