-- ===== src/Lib.antt =====
-- A model of kasas, a self-hosted ledger that collects bank transactions, stores them with user
-- metadata, and streams what happens to them.
--
-- The parts and their files:
--   Labels         internal/labels/labels.go: NormalizeKey, NormalizeValue, Normalize.
--   Relationships  internal/relationships/relationships.go: NormalizeKind, Normalize.
--   Search         internal/search/search.go: Lexer is lex and classify, Parser the recursive
--                  descent, Values and Preds the predicate builders, Query is Parse and Match.
--   Extensions     internal/extensions/extensions.go: NormalizeKey, Normalize, Namespace.
--   Rules          internal/rules/rules.go: Compile, Apply and Unapply, on labels and on extensions.
--   Tx             internal/db/store.go: RunInTx, as a state and error monad in which the driver
--                  may fail at any statement.
--   Store          internal/db/models.go and the *.sql.go files: the tables and the statements
--                  that the write paths run; Tables has the rows.
--   Events         internal/events: Codec is payload.go with the columns that hold JSON, Recorder
--                  and Stream are emitter.go, Bus is bus.go, Diff is diff.go.
--   Ledger         internal/ledger/ledger.go: DeleteTransactionTx, PurgeSource.
--   Poller         internal/poller/persister.go: Persist, with the rows of internal/source/source.go;
--                  Batch has these rows, Engine is the registry of pollers (engine.go).
--   Provenance     internal/provenance/provenance.go: Build, on the diffs of Events.Diff.
--   Csv            internal/sources/csv/parse.go, from the records of a file to an import: Columns
--                  resolves the mapping, Clean reads an amount, Records makes the transactions.
--   Webhooks       internal/webhooks: the dispatcher (dispatcher.go), with what it has dispatched in
--                  Feed and the jobs it queues in Queue; Delivery is the worker's part of it and the signed
--                  POST (webhooks.go).
--   Prelude        texts, dictionaries, lists and sorting, shared by all.
--   Tests          stand-ins for parameters, runs, and the theorems at concrete inputs.
--
-- How they interact: a write path is a body that the emitter's Record runs in one database
-- transaction (Events.Stream.record_tx). The body runs statements of Store and emits through
-- Events.Recorder, which inserts an event row and buffers it; on commit the buffer goes to the bus.
-- Ledger reads and writes the relationships of rows in the form that Relationships.normalize gives.
-- A query of Search is lexed, parsed to a tree of predicates, and evaluated on a record; a rule of
-- Rules is such a query with labels and extensions, which pass through Labels.normalize and
-- Extensions.normalize. Poller writes a batch by such a body, and applies the rules to new rows.
-- Webhooks follows the log of events and the bus by a cursor, and queues jobs for its workers.
--
-- Choices. A text is a list of code points, so byte offsets of valid UTF-8 are positions in it. A Go
-- map is an association list, and a loop over one visits it in the list's order. The lexer has a
-- fuel of the length of its input, since each round takes a rune, and the parser one of four times
-- the number of tokens plus four, since each token opens at most four calls. A transaction's driver
-- faults are a list of Booleans, one for each statement to come, and BeginTx and Commit have their
-- own. A replay has a turn for each row of the log and one more, since a page takes a row or is the
-- last. The workers of Webhooks run beside the dispatcher: the jobs they take, the answers of the
-- store and the end of the context are schedules. An event's UUID and time are functions of its row
-- number. An int64 duration is a pattern of 64 bits where the code shifts it.
--
-- Parameters: the case table of Unicode beyond ASCII (Prelude.Text.CaseTable), floats and times
-- (Search.Std), encoding/json (Events.Codec), the clock and the UUIDs (Events.Recorder.Emitter),
-- time.Unix and strconv.ParseFloat of the poller (Poller.Reader), encoding/csv, time.Parse, strconv
-- and SHA-256 of the CSV source (Csv.Libraries), rendering in a diff (Events.Diff.Renderer), HTTP and
-- HMAC (Webhooks.Delivery.Http).
--
-- Not modelled: a poller's own schedule and sync log, settings, API keys, the market data and the
-- plugins, which are left for later; the bank and chain sources, the HTTP API and the dashboard, which
-- pass requests on to the parts above; self-update, the vault and start-up, which call libraries; and
-- the generated queries that only list or report.
pub mod Prelude
pub mod Labels
pub mod Relationships
pub mod Extensions
pub mod Search
pub mod Rules
pub mod Tx
pub mod Store
pub mod Events
pub mod Ledger
pub mod Poller
pub mod Provenance
pub mod Csv
pub mod Webhooks
pub mod Tests
