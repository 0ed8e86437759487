-- ===== src/Tests/Hooks.antt =====
-- The webhook dispatcher at concrete inputs: a log of three events, two webhooks, a queue of one job.
use kasas.Prelude.Trim.{trim, trim_right, trim_left, is_space}
use kasas.Webhooks.Delivery.{
  Context, Http, Message, attempts, backoff, deliver, deliver_with_retry, judge, marshal_event,
  max_delay, no_error, record_status, request_of, sign, with_status, work, update_delivery_status,
}
use kasas.Prelude.{
  All, List, Option, [], arith, false, if◌then◌else◌, inl, inr, none, refl, some, true, ℕ, ◌*◌, ◌<◌,
  ◌==◌, ◌↔◌, ◌∷◌, ◌≡◌, ◌≤◌, ◌⊎◌,
}
use kasas.Webhooks.Cursor.{Ascending}
use kasas.Webhooks.Delivery.Attempts.{deliver-success, work-first, IsRecorded}
use kasas.Webhooks.{
  Dispatcher, Turn, Webhook, consume_live, decode_event_types, dispatch, event_name, matches_types,
  replay, run, send, send_all, turn,
}
use kasas.Webhooks.Queue.Served.{Served, run-IsServed}
use kasas.Webhooks.Delivery.Backoff.{backoff-bounds, backoff-doubles}
use kasas.Webhooks.Feed.Rising.{IsRising, run-IsRising}
use kasas.Prelude.Text.{Text, codes, text_eq}
use kasas.Webhooks.Feed.Complete.{IsCaughtUp, run-IsCaughtUp}
use kasas.Webhooks.Feed.Late.{consume_live-late}
use Prim.Native.Nat.{min, ◌^◌}
use kasas.Prelude.Int.{pos}
use kasas.Prelude.Trim.{trim_space}
use kasas.Store.Tables.{
  EventRow, EventType, label_applied, transaction_created, transaction_entity, transaction_updated,
}
use kasas.Webhooks.Queue.{nothing_yet}

abbrev event : ℕ → EventType → EventRow
event n kind = record {
  id = n;
  event_id = n ∷ [];
  event_type = kind;
  entity_type = transaction_entity;
  entity_id = codes "t1";
  occurred_at = pos 0;
  payload = [];
}

abbrev first : EventRow
first = event 1 transaction_created

abbrev second : EventRow
second = event 2 label_applied

abbrev third : EventRow
third = event 3 transaction_updated

abbrev the_log : List EventRow
the_log = first ∷ second ∷ third ∷ []

abbrev hook : ℕ → Text → Webhook
hook n types = record {
  id = n;
  url = codes "https://example.org";
  secret = codes "whsec_1";
  event_types = types;
  last_status = 0;
  last_error = [];
  last_attempt_at = pos 0;
  last_success_at = pos 0;
}

-- one type in place of a list in JSON
abbrev stub_types : Text → Option (List Text)
stub_types raw = some (raw ∷ [])

abbrev hooks : List Webhook
hooks = hook 1 (codes "*") ∷ hook 2 (codes "label.applied") ∷ []

abbrev idle : Dispatcher
idle = record {
  last_seq = 0;
  jobs = [];
  accepted = [];
  dropped = 0;
  dispatched = [];
  hook_reads = some hooks ∷ none ∷ some hooks ∷ [];
  taken = [];
  stops = [];
}

-- The second replay reads the whole log, and its subscription repeats the last event.
abbrev turns : List Turn
turns =
    record { log = first ∷ []; live = second ∷ [] }
    ∷ record { log = the_log; live = third ∷ [] }
    ∷ []

the_log-Ascending : Ascending 0 the_log
the_log-Ascending = (omega arith, (omega arith, (omega arith, tt)))

run_test : (run 1 stub_types turns idle).dispatched ≡ the_log
unfolding run turn replay consume_live dispatch send_all send matches_types decode_event_types
    text_eq trim_space event_name trim trim_right trim_left is_space
run_test = refl

run-IsRising_example : IsRising 1 stub_types 0 (run 1 stub_types turns idle)
run-IsRising_example =
    run-IsRising 1 stub_types 0 turns idle ((omega arith, tt), (the_log-Ascending, tt))
      (record { dispatched = tt; last_seq = refl })

run-IsCaughtUp_example :
    IsCaughtUp 1 stub_types 0 the_log (run 1 stub_types turns idle)
    × (0 ≤ (run 1 stub_types turns idle).last_seq)
    × All (λ t. All (λ ev. ev.id ≤ (run 1 stub_types turns idle).last_seq) t.log) turns
run-IsCaughtUp_example =
    run-IsCaughtUp 1 stub_types 0 the_log turns idle the_log-Ascending
      (
        record {
          rest = second ∷ third ∷ [];
          before = first ∷ [];
          between_them = [];
          after = third ∷ [];
          replayed = refl;
          subscribed = refl;
          delivered = refl;
        },
        (
          record {
            rest = [];
            before = first ∷ second ∷ [];
            between_them = third ∷ [];
            after = [];
            replayed = refl;
            subscribed = refl;
            delivered = refl;
          },
          tt,
        ),
      )
      (record { dispatched = refl; from_start = omega arith; stops = refl })

-- The second event is committed before the third, and published after it.
consume_live-late_example :
    consume_live 1 stub_types (third ∷ second ∷ []) idle
    ≡ consume_live 1 stub_types (third ∷ []) idle
consume_live-late_example = consume_live-late 1 stub_types (third ∷ []) second [] idle refl

run-IsServed_example : Served 1 stub_types idle.hook_reads (run 1 stub_types turns idle)
run-IsServed_example = run-IsServed 1 stub_types idle.hook_reads turns idle nothing_yet

backoff-bounds_example : (n : ℕ) × (backoff 500000000 60 ≡ pos n) × (0 < n) × (n ≤ max_delay)
backoff-bounds_example = backoff-bounds 500000000 60

backoff-doubles_example : backoff 500000000 4 ≡ pos (min (500000000 * 2 ^ 3) max_delay)
backoff-doubles_example = backoff-doubles 500000000 3 (omega arith) (omega arith)

abbrev patient : Context
patient = record { done_after = λ i. false; done_waiting = λ i. false }

-- the third attempt succeeds
abbrev flaky : Http
flaky = record {
  marshal = λ ev. inr (codes "{}");
  new_request = λ url. none;
  round_trip = λ n req. if n == 3 then inr 204 else inl (codes "refused");
  unix_now = λ n. pos n;
  format_int = λ n. codes "1";
  hmac_hex = λ secret text. codes "00";
  status_error = λ status. codes "status";
}

abbrev try_first : ℕ → ℕ × Option Message
try_first n = deliver flaky (codes "kasas") n (hook 1 (codes "*")) first

work_test :
    work false patient try_first 5 (pos 9) (hook 1 (codes "*")) hooks
    ≡ record (hook 1 (codes "*")) {
      last_status = 204;
      last_attempt_at = pos 9;
      last_success_at = pos 9;
    }
      ∷ hook 2 (codes "label.applied")
      ∷ []
unfolding work deliver_with_retry attempts deliver judge marshal_event sign record_status
    update_delivery_status with_status event_name text_eq
work_test = refl

work-first_example :
    (k : ℕ) × (1 ≤ k)
    × (k ≤ 5)
    × ((i : ℕ) → 1 ≤ i → i < k → no_error (try_first i) ≡ false)
    × ((no_error (try_first k) ≡ true) ⊎ (k ≡ 5))
    × (false ≡ false
        → IsRecorded
            (pos 9)
            (hook 1 (codes "*"))
            (try_first k)
            hooks
            (work false patient try_first 5 (pos 9) (hook 1 (codes "*")) hooks))
    × (false ≡ true → work false patient try_first 5 (pos 9) (hook 1 (codes "*")) hooks ≡ hooks)
work-first_example =
    work-first false patient try_first 4 (pos 9) (hook 1 (codes "*")) hooks (λ i. (refl, refl))

deliver-success_example :
    (no_error (deliver flaky (codes "kasas") 3 (hook 1 (codes "*")) first) ≡ true) ↔ (
      (body : Text) × (status : ℕ) × (marshal_event flaky (codes "kasas") first ≡ inr body)
      × (flaky.new_request (hook 1 (codes "*")).url ≡ none)
      × (flaky.round_trip 3 (request_of flaky (codes "kasas") 3 (hook 1 (codes "*")) first body)
          ≡ inr status)
      × (200 ≤ status)
      × (status < 300))
deliver-success_example = deliver-success flaky (codes "kasas") 3 (hook 1 (codes "*")) first
