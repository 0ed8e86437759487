-- ===== src/Webhooks.antt =====
-- internal/webhooks/dispatcher.go: the dispatcher that follows the event stream and hands a job to the
-- delivery workers for each subscribed webhook, with the subscriptions of webhooks.go and the reads of
-- the event log that it makes (internal/db/events.sql.go). The workers run beside the dispatcher: how
-- many jobs they take from the queue before a send is a schedule that the environment chooses, and so
-- are the answers of the store.
pub mod Cursor
pub mod Feed
pub mod Delivery
pub mod Queue
use kasas.Prelude.Text.{Text, codes, text_eq}
use kasas.Prelude.{
  Bool, List, Option, [], drop, false, if◌then◌else◌, keep, leb, length, ltb, none, some, suc, take,
  true, zero, ℕ, ◌++◌, ◌||◌, ◌∷◌,
}
use kasas.Search.Parser.Grammar.{stop}
use kasas.Prelude.Trim.{trim_space}
use kasas.Prelude.Int.{ℤ}
use kasas.Store.Tables.{
  EventRow, EventType, account_created, account_deleted, account_updated, extension_removed,
  extension_set, label_applied, label_removed, relationship_created, relationship_removed,
  transaction_created, transaction_deleted, transaction_updated,
}

pub record Webhook : Type 0 where
  pub id : ℕ
  pub url : Text
  pub secret : Text
  pub event_types : Text
  pub last_status : ℕ
  pub last_error : Text
  pub last_attempt_at : ℤ
  pub last_success_at : ℤ

pub record Job : Type 0 where
  pub hook : Webhook
  pub event : EventRow

abbrev pub wildcard : Text
wildcard = codes "*"

abbrev pub replay_page : ℕ
replay_page = 500

-- The strings of events.go.
unfoldable pub event_name : EventType → Text
event_name transaction_created = codes "transaction.created"
event_name transaction_updated = codes "transaction.updated"
event_name transaction_deleted = codes "transaction.deleted"
event_name account_created = codes "account.created"
event_name account_updated = codes "account.updated"
event_name account_deleted = codes "account.deleted"
event_name label_applied = codes "label.applied"
event_name label_removed = codes "label.removed"
event_name extension_set = codes "extension.set"
event_name extension_removed = codes "extension.removed"
event_name relationship_created = codes "relationship.created"
event_name relationship_removed = codes "relationship.removed"

-- the loop of `matchesTypes`
abbrev pub is_listed : Text → List Text → Bool
is_listed name [] = false
is_listed name (s ∷ rest) =
    if text_eq s wildcard || text_eq s name then true else is_listed name rest

unfoldable pub matches_types : List Text → Text → Bool
matches_types [] name = true
matches_types (s ∷ rest) name = is_listed name (s ∷ rest)

-- `DecodeEventTypes`, where `unmarshal` is json.Unmarshal into a list of strings
unfoldable pub decode_event_types : (Text → Option (List Text)) → Text → List Text
decode_event_types unmarshal raw =
    if text_eq (trim_space raw) []
    then []
    else elim (unmarshal raw) [ none ↦ [] | some types ↦ types ]

abbrev pub matches : (Text → Option (List Text)) → Webhook → EventType → Bool
matches unmarshal wh kind =
    matches_types (decode_event_types unmarshal wh.event_types) (event_name kind)

-- `jobs` are the jobs that wait in the channel, `accepted` all that were sent to it, `dropped` the
-- counter `webhookDropped`, and `dispatched` the events that `dispatch` was called with. The rest is
-- what the environment does from now on: the answers to the reads of the webhooks, of which `none` is
-- an error, the numbers of jobs that the workers take, and for each turn of `replay` whether it is
-- stopped, by a failed read or by the end of the context.
pub record Dispatcher : Type 0 where
  pub last_seq : ℕ
  pub jobs : List Job
  pub accepted : List Job
  pub dropped : ℕ
  pub dispatched : List EventRow
  pub hook_reads : List (Option (List Webhook))
  pub taken : List ℕ
  pub stops : List Bool

-- A turn of `Run`: the log that the replay reads, and what the subscription delivers until it is
-- closed.
pub record Turn : Type 0 where
  pub log : List EventRow
  pub live : List EventRow

abbrev pub next_or {ℓ} : {A : Type ℓ} → A → List A → A × List A
next_or d [] = (d, [])
next_or d (x ∷ rest) = (x, rest)

abbrev pub newer : ℕ → EventRow → Bool
newer after ev = ltb after ev.id

-- the events after a cursor, in the order of their ids, which is the order of the log
abbrev pub list_events_after : ℕ → ℕ → List EventRow → List EventRow
list_events_after after limit log = take limit (keep (newer after) log)

-- a page takes a row at least from the log, or is the last
abbrev pub replay_fuel : List EventRow → ℕ
replay_fuel log = suc (length log)

module _ (queue_size : ℕ) where
  -- a send to the channel that does not block
  unfoldable pub send : Job → Dispatcher → Dispatcher
  send j d =
      let (n, later) = next_or 0 d.taken in
      let waiting = drop n d.jobs in
      if ltb (length waiting) queue_size
      then record d { jobs = waiting ++ (j ∷ []); accepted = d.accepted ++ (j ∷ []); taken = later }
      else record d { jobs = waiting; dropped = suc d.dropped; taken = later }

  -- the loop of `dispatch`
  unfoldable pub send_all : (Webhook → Bool) → EventRow → List Webhook → Dispatcher → Dispatcher
  unfolding send
  send_all wants ev [] d = d
  send_all wants ev (wh ∷ rest) d =
      if wants wh
      then send_all wants ev rest (send (record { hook = wh; event = ev }) d)
      else send_all wants ev rest d

  module _ (unmarshal : Text → Option (List Text)) where
    abbrev pub dispatch_to : EventRow → Option (List Webhook) → Dispatcher → Dispatcher
    dispatch_to ev none d = d
    dispatch_to ev (some hooks) d = send_all (λ wh. matches unmarshal wh ev.event_type) ev hooks d

    unfoldable pub dispatch : EventRow → Dispatcher → Dispatcher
    unfolding send_all matches_types
    dispatch ev d =
        let (hooks, later) = next_or (some []) d.hook_reads in
        dispatch_to ev hooks
          (record d { dispatched = d.dispatched ++ (ev ∷ []); hook_reads = later })

    -- dispatch, and the move of the cursor
    abbrev pub forward : EventRow → Dispatcher → Dispatcher
    forward ev d = record (dispatch ev d) { last_seq = ev.id }

    abbrev pub forward_all : List EventRow → Dispatcher → Dispatcher
    forward_all [] d = d
    forward_all (ev ∷ rest) d = forward_all rest (forward ev d)

    -- the loop of `replay`, a turn per unit of fuel
    unfoldable pub replay : ℕ → List EventRow → Dispatcher → Dispatcher
    unfolding dispatch
    replay zero log d = d
    replay (suc fuel) log d =
        let (halted, later) = next_or false d.stops in
        let page = list_events_after d.last_seq replay_page log in
        let d' = forward_all page (record d { stops = later }) in
        let rest = replay fuel log d' in
        if halted
        then record d { stops = later }
        else if ltb (length page) replay_page
        then d'
        else rest

    -- the receives of `consumeLive` until the channel is closed
    unfoldable pub consume_live : List EventRow → Dispatcher → Dispatcher
    unfolding dispatch
    consume_live [] d = d
    consume_live (ev ∷ rest) d =
        if leb ev.id d.last_seq then consume_live rest d else consume_live rest (forward ev d)

    unfoldable pub turn : Turn → Dispatcher → Dispatcher
    unfolding replay consume_live
    turn t d = consume_live t.live (replay (replay_fuel t.log) t.log d)

    -- the loop of `Run`
    unfoldable pub run : List Turn → Dispatcher → Dispatcher
    unfolding turn
    run [] d = d
    run (t ∷ rest) d = run rest (turn t d)

-- `headSequence`, where `none` is a failed read
abbrev pub head_of : List EventRow → ℕ
head_of [] = 0
head_of (ev ∷ []) = ev.id
head_of (ev ∷ next ∷ rest) = head_of (next ∷ rest)

unfoldable pub head_sequence : Option (List EventRow) → ℕ
head_sequence none = 0
head_sequence (some log) = head_of log
