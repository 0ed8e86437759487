-- ===== src/Poller/Engine/Totals.antt =====
-- What the engine's `Sync` returns: the sums of the pollers' results.
use kasas.Prelude.Dict.{Dict, get, get-has, has}
use kasas.Prelude.{
  All, All-map_impl, Bool, Bool-cases, List, Option, Option-cases, [], arith, inl, inr, keep, map,
  none, not, refl, some, sym, true, ℕ, ◌+◌, ◌∙◌, ◌∷◌, ◌≡◌,
}
use kasas.Poller.Engine.{
  Call, add_outcome, lookups, new_engine, run_calls, snapshot, sync, sync_loop,
}
use kasas.Poller.Engine.Registry.{All-mem, IsRegistry, run_calls-IsRegistry}
use kasas.Poller.Batch.{SyncResult, no_result}
use kasas.Prelude.Text.{Text}

module _ {P : Type 0} (type_of : P → Text) where
  module _ (on_demand_cache : P → Bool) (sync_one : P → Option SyncResult) where
    -- The pollers that `Sync` asks, in order: those with an on-demand cache are not polled.
    abbrev pub asked : List P → List P
    asked ps = keep (λ p. not (on_demand_cache p)) ps

    abbrev pub amount : (SyncResult → ℕ) → Option SyncResult → ℕ
    amount field none = 0
    amount field (some res) = field res

    abbrev pub total : (SyncResult → ℕ) → List P → ℕ
    total field [] = 0
    total field (p ∷ rest) = amount field (sync_one p) + total field rest

    abbrev pub fault : Option SyncResult → ℕ
    fault none = 1
    fault (some res) = 0

    abbrev pub failures : List P → ℕ
    failures [] = 0
    failures (p ∷ rest) = fault (sync_one p) + failures rest

    -- Each count of the result is the sum of what the pollers report, an error reports nothing, and the
    -- errors are counted, all on top of what there was.
    pub record IsTotal (start : SyncResult × ℕ) (ps : List P) (result : SyncResult × ℕ)
        : Type 0 where
      pub accounts : (result.0).accounts ≡ (start.0).accounts + total (λ r. r.accounts) ps
      pub new_transactions :
          (result.0).new_transactions
          ≡ (start.0).new_transactions + total (λ r. r.new_transactions) ps
      pub updated_transactions :
          (result.0).updated_transactions
          ≡ (start.0).updated_transactions + total (λ r. r.updated_transactions) ps
      pub auto_labeled :
          (result.0).auto_labeled ≡ (start.0).auto_labeled + total (λ r. r.auto_labeled) ps
      pub duration : (result.0).duration ≡ (start.0).duration + total (λ r. r.duration) ps
      pub errors : result.1 ≡ start.1 + failures ps

    IsTotal-cons :
        (acc result : SyncResult × ℕ) (p : P) (ps : List P) (answer : Option SyncResult)
        → sync_one p ≡ answer
        → IsTotal (add_outcome type_of on_demand_cache sync_one acc answer) ps result
        → IsTotal acc (p ∷ ps) result
    IsTotal-cons (agg, errors) result p ps none e h = record {
      accounts = h.accounts ∙ rw e (omega arith);
      new_transactions = h.new_transactions ∙ rw e (omega arith);
      updated_transactions = h.updated_transactions ∙ rw e (omega arith);
      auto_labeled = h.auto_labeled ∙ rw e (omega arith);
      duration = h.duration ∙ rw e (omega arith);
      errors = h.errors ∙ rw e (omega arith);
    }
    IsTotal-cons (agg, errors) result p ps (some res) e h = record {
      accounts = h.accounts ∙ rw e (omega arith);
      new_transactions = h.new_transactions ∙ rw e (omega arith);
      updated_transactions = h.updated_transactions ∙ rw e (omega arith);
      auto_labeled = h.auto_labeled ∙ rw e (omega arith);
      duration = h.duration ∙ rw e (omega arith);
      errors = h.errors ∙ rw e (omega arith);
    }

    sync_loop-IsTotal :
        (pollers : Dict P) (order : List Text) (acc : SyncResult × ℕ)
        → All (λ t. has t pollers ≡ true) order
        → (ps : List P) × (lookups type_of pollers order ≡ map some ps)
          × (r : SyncResult × ℕ) × (sync_loop type_of on_demand_cache sync_one acc
                (lookups type_of pollers order)
              ≡ some r)
          × IsTotal acc (asked ps) r
    sync_loop-IsTotal pollers [] acc h = (
      [],
      refl,
      acc,
      refl,
      record {
        accounts = omega arith;
        new_transactions = omega arith;
        updated_transactions = omega arith;
        auto_labeled = omega arith;
        duration = omega arith;
        errors = omega arith;
      },
    )
    sync_loop-IsTotal pollers (t ∷ rest) acc (there, h) = elim (Option-cases (get t pollers)) [
      | inl gone ↦ absurd (cc (sym there ∙ get-has t pollers gone))
      | inr (p, found) ↦ elim (Bool-cases (on_demand_cache p)) [
        | inl e ↦
            let (ps, are, r, gives, totals) = sync_loop-IsTotal pollers rest acc h in
            (p ∷ ps, rw (found, are) refl, r, rw (found, e) gives, rw e totals)
        | inr e ↦
            let (ps, are, r, gives, totals) =
              sync_loop-IsTotal pollers rest
                (add_outcome type_of on_demand_cache sync_one acc (sync_one p)) h in
            (
              p ∷ ps,
              rw (found, are) refl,
              r,
              rw (found, e) gives,
              rw e (IsTotal-cons acc r p (asked ps) (sync_one p) refl totals),
            )
      ]
    ]

    -- After any calls of `AddPoller` and `RemovePoller` on a new engine, the order has each registered
    -- type once, and `Sync` meets no type without a poller: it returns, and each field of its result is
    -- the sum of that field over the results of the pollers in that order, without those that have an
    -- on-demand cache and those that fail, of which it gives the number of the latter.
    pub run_calls-IsTotal :
        (ps : List P) (calls : List (Call type_of))
        → IsRegistry type_of (run_calls type_of (new_engine type_of ps) calls)
          × ((found : List P) × (snapshot type_of (run_calls type_of (new_engine type_of ps) calls)
                ≡ map some found)
              × (r : SyncResult × ℕ) × (sync type_of on_demand_cache sync_one
                    (run_calls type_of (new_engine type_of ps) calls)
                  ≡ some r)
              × IsTotal (no_result, 0) (asked found) r)
    unfolding sync snapshot
    run_calls-IsTotal ps calls =
        let e = run_calls type_of (new_engine type_of ps) calls in
        let h = run_calls-IsRegistry type_of ps calls in
        (
          h,
          sync_loop-IsTotal e.pollers e.order (no_result, 0)
              (All-map_impl (λ t m. sym (h.registered t) ∙ m) e.order (All-mem type_of e.order)),
        )
