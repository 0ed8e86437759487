-- ===== src/Tests/Pollers.antt =====
-- The registry of pollers at concrete inputs: a poller is its type and whether it is the second of it.
use kasas.Prelude.Dict.{get, put, has, keys, mem, remove}
use kasas.Prelude.Text.{Text, codes, text_eq}
use kasas.Prelude.{
  Bool, List, [], false, refl, some, true, ℕ, ◌∷◌, ◌≡◌, Option, if◌then◌else◌, map, none,
}
use kasas.Poller.Engine.{
  Call, add_poller, adds, new_engine, remove_poller, removes, run_calls, sync, snapshot,
}
use kasas.Poller.Engine.Registry.{IsRegistry}
use kasas.Poller.Engine.Totals.{IsTotal, asked, run_calls-IsTotal}
use kasas.Poller.Batch.{SyncResult, no_result}

abbrev Named : Type 0
Named = Text × Bool

abbrev name_of : Named → Text
name_of p = p.0

abbrev changes : List (Call name_of)
changes =
    adds (codes "plugin", false)
    ∷ adds (codes "bank", true)
    ∷ removes (codes "csv")
    ∷ removes (codes "none")
    ∷ []

abbrev started : List Named
started = (codes "bank", false) ∷ (codes "csv", false) ∷ (codes "bank", true) ∷ []

-- The replaced poller keeps its place.
changes_test : run_calls name_of (new_engine name_of started) changes ≡ record {
  pollers = (codes "bank", (codes "bank", true)) ∷ (codes "plugin", (codes "plugin", false)) ∷ [];
  order = codes "bank" ∷ codes "plugin" ∷ [];
}
unfolding run_calls new_engine add_poller remove_poller has keys mem put get remove text_eq
changes_test = refl

abbrev one_new : SyncResult
one_new = record no_result { new_transactions = 1; duration = 7 }

-- the bank's poller answers and the plugin's fails
abbrev answer_of : Named → Option SyncResult
answer_of p = if text_eq p.0 (codes "bank") then some one_new else none

sync_test :
    sync name_of (λ p. false) answer_of (run_calls name_of (new_engine name_of started) changes)
    ≡ some (one_new, 1)
unfolding sync snapshot run_calls new_engine add_poller remove_poller has keys mem put get remove
    text_eq
sync_test = refl

run_calls-IsTotal_example :
    IsRegistry name_of (run_calls name_of (new_engine name_of started) changes)
    × ((found : List Named) × (snapshot name_of
            (run_calls name_of (new_engine name_of started) changes)
          ≡ map some found)
        × (r : SyncResult × ℕ) × (sync name_of
              (λ p. false)
              answer_of
              (run_calls name_of (new_engine name_of started) changes)
            ≡ some r)
        × IsTotal name_of
            (λ p. false)
            answer_of
            (no_result, 0)
            (asked name_of (λ p. false) answer_of found)
            r)
run_calls-IsTotal_example = run_calls-IsTotal name_of (λ p. false) answer_of started changes
