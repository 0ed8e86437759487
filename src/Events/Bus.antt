-- ===== src/Events/Bus.antt =====
-- internal/events/bus.go: the hub that hands committed events to the live subscribers. Each method
-- holds the mutex, so a history of the bus is a sequence of its calls and of the receives of the
-- subscribers. A Go channel is the list of the events that wait in it; what was received from it is
-- kept beside them.
pub mod Contiguous
pub mod History
use kasas.Prelude.{
  Bool, List, Option, [], false, if◌then◌else◌, keep, length, ltb, map, none, not, some, suc, true,
  ℕ, ◌++◌, ◌+◌, ◌==◌, ◌∷◌,
}
use kasas.Store.Tables.{EventRow}

abbrev pub subscriber_buffer : ℕ
subscriber_buffer = 64

pub record Channel : Type 0 where
  pub id : ℕ
  pub received : List EventRow
  pub waiting : List EventRow

-- `subs` are the registered channels, `ended` those that were closed: their waiting events can still
-- be received. `dropped` is the counter `eventsDropped`.
pub record Bus : Type 0 where
  pub subs : List Channel
  pub ended : List Channel
  pub next_id : ℕ
  pub closed : Bool
  pub dropped : ℕ

abbrev pub new_bus : Bus
new_bus = record { subs = []; ended = []; next_id = 0; closed = false; dropped = 0 }

-- `none` is an already-closed channel with a cancel function that does nothing.
unfoldable pub subscribe : Bus → Option ℕ × Bus
subscribe b = if b.closed then (none, b) else (
  some b.next_id,
  record b {
    subs = b.subs ++ (record { id = b.next_id; received = []; waiting = [] } ∷ []);
    next_id = suc b.next_id;
  },
)

abbrev pub is_channel : ℕ → Channel → Bool
is_channel id ch = ch.id == id

-- the function that `Subscribe` returned with the channel
unfoldable pub cancel : ℕ → Bus → Bus
cancel id b = record b {
  subs = keep (λ ch. not (is_channel id ch)) b.subs;
  ended = b.ended ++ keep (is_channel id) b.subs;
}

abbrev pub has_room : Channel → Bool
has_room ch = ltb (length ch.waiting) subscriber_buffer

abbrev pub push : EventRow → Channel → Channel
push ev ch = record ch { waiting = ch.waiting ++ (ev ∷ []) }

-- The inner loop of `Publish`: a send that does not block, or else the channel is closed.
unfoldable pub publish_one : Bus → EventRow → Bus
publish_one b ev =
    let full = keep (λ ch. not (has_room ch)) b.subs in
    record b {
      subs = map (push ev) (keep has_room b.subs);
      ended = b.ended ++ full;
      dropped = b.dropped + length full;
    }

unfoldable pub publish : List EventRow → Bus → Bus
unfolding publish_one
publish [] b = b
publish (ev ∷ evs) b = publish evs (publish_one b ev)

unfoldable pub close_bus : Bus → Bus
close_bus b =
    if b.closed then b else record b { closed = true; subs = []; ended = b.ended ++ b.subs }

-- A receive by the holder of a channel: the first waiting event, if there is one.
abbrev pub receive_from : List EventRow → Channel → Channel
receive_from [] ch = ch
receive_from (ev ∷ rest) ch = record ch { received = ch.received ++ (ev ∷ []); waiting = rest }

abbrev pub receive_if : ℕ → Channel → Channel
receive_if id ch = if is_channel id ch then receive_from ch.waiting ch else ch

unfoldable pub receive : ℕ → Bus → Bus
receive id b = record b { subs = map (receive_if id) b.subs; ended = map (receive_if id) b.ended }
