-- ===== src/Poller/Engine.antt =====
-- internal/poller/engine.go: the registry of pollers by the type of their source, which plugins change
-- at run time, and the sync of all of them. The mutex is held for each change of the registry, so a
-- history of it is a sequence of its operations. The schedule of a poller is the scheduler library's.
pub mod Registry
pub mod Totals
use kasas.Prelude.{Bool, List, Option, [], if◌then◌else◌, none, some, suc, ℕ, ◌++◌, ◌+◌, ◌∷◌}
use kasas.Prelude.Dict.{Dict, get, has, put, remove}
use kasas.Prelude.Text.{Text, text_eq}
use kasas.Ledger.Strip.{skipped}
use kasas.Poller.Batch.{SyncResult, no_result}

module _ {P : Type 0} (type_of : P → Text) where
  pub record Engine : Type 0 where
    pub pollers : Dict P
    pub order : List Text

  -- the body of the loop of `NewEngine`: the first of a type wins
  abbrev pub register_new : Engine → P → Engine
  register_new e p =
      if has (type_of p) e.pollers
      then e
      else record { pollers = put (type_of p) p e.pollers; order = e.order ++ (type_of p ∷ []) }

  abbrev pub register_all : Engine → List P → Engine
  register_all e [] = e
  register_all e (p ∷ rest) = register_all (register_new e p) rest

  unfoldable pub new_engine : List P → Engine
  new_engine ps = register_all (record { pollers = []; order = [] }) ps

  -- `none` is a nil poller
  abbrev pub lookups : Dict P → List Text → List (Option P)
  lookups pollers [] = []
  lookups pollers (t ∷ rest) = get t pollers ∷ lookups pollers rest

  unfoldable pub snapshot : Engine → List (Option P)
  snapshot e = lookups e.pollers e.order

  -- `AddPoller`: the poller that was replaced, to be stopped, and the engine
  unfoldable pub add_poller : P → Engine → Option P × Engine
  add_poller p e = (
    get (type_of p) e.pollers,
    record {
      pollers = put (type_of p) p e.pollers;
      order = if has (type_of p) e.pollers then e.order else e.order ++ (type_of p ∷ []);
    },
  )

  -- the loop over `e.order`
  abbrev pub drop_first : Text → List Text → List Text
  drop_first t [] = []
  drop_first t (u ∷ rest) = if text_eq u t then rest else u ∷ drop_first t rest

  abbrev pub without : Text → Engine → Option P → Option (P × Engine)
  without t e none = none
  without t e (some p) =
      some (p, record { pollers = remove t e.pollers; order = drop_first t e.order })

  -- `RemovePoller`: the poller to be stopped and the engine, or an error for an unknown type
  unfoldable pub remove_poller : Text → Engine → Option (P × Engine)
  remove_poller t e = without t e (get t e.pollers)

  -- `Sync`, with what each poller's own sync gives: the sum of the results, and the number of errors
  module _ (on_demand_cache : P → Bool) (sync_one : P → Option SyncResult) where
    abbrev pub add_results : SyncResult → SyncResult → SyncResult
    add_results a b = record {
      accounts = a.accounts + b.accounts;
      new_transactions = a.new_transactions + b.new_transactions;
      updated_transactions = a.updated_transactions + b.updated_transactions;
      auto_labeled = a.auto_labeled + b.auto_labeled;
      duration = a.duration + b.duration;
    }

    abbrev pub add_outcome : SyncResult × ℕ → Option SyncResult → SyncResult × ℕ
    add_outcome (agg, errors) none = (agg, suc errors)
    add_outcome (agg, errors) (some res) = (add_results agg res, errors)

    -- A nil poller would be dereferenced: `none` is that panic.
    abbrev pub sync_loop : SyncResult × ℕ → List (Option P) → Option (SyncResult × ℕ)
    sync_loop acc [] = some acc
    sync_loop acc (none ∷ rest) = none
    sync_loop acc (some p ∷ rest) =
        let skipped = sync_loop acc rest in
        let synced_one = sync_loop (add_outcome acc (sync_one p)) rest in
        if on_demand_cache p then skipped else synced_one

    unfoldable pub sync : Engine → Option (SyncResult × ℕ)
    unfolding snapshot
    sync e = sync_loop (no_result, 0) (snapshot e)

  -- A call that changes the registry.
  pub data Call : Type 0 where
    adds : P → Call
    removes : Text → Call

  abbrev pub or_kept : Engine → Option (P × Engine) → Engine
  or_kept e none = e
  or_kept e (some (p, e')) = e'

  abbrev pub call : Engine → Call → Engine
  call e (adds p) = (add_poller p e).1
  call e (removes t) = or_kept e (remove_poller t e)

  unfoldable pub run_calls : Engine → List Call → Engine
  unfolding add_poller remove_poller
  run_calls e [] = e
  run_calls e (c ∷ rest) = run_calls (call e c) rest
