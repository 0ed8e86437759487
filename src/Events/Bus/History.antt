-- ===== src/Events/Bus/History.antt =====
-- The histories of the bus, and what holds of its channels after them.
use kasas.Events.Bus.{
  publish, Bus, Channel, cancel, close_bus, new_bus, receive, subscribe, subscriber_buffer,
}
use kasas.Prelude.{All, List, [], if◌then◌else◌, length, true, ℕ, ◌++◌, ◌<◌, ◌==◌, ◌≡◌, ◌≤◌}
use kasas.Store.Tables.{EventRow}

-- The histories of the event log at the subscriptions, by the channel's id.
abbrev pub Starts : Type 0
Starts = ℕ → List EventRow

abbrev pub start_at : ℕ → List EventRow → Starts → Starts
start_at n h starts id = if id == n then h else starts id

-- The bus after some calls, all the events that were published on it, and for each channel those of
-- them that were published before its subscription.
pub data Reaches : List EventRow → Starts → Bus → Type 0 where
  begins : Reaches [] (λ id. []) new_bus
  subscribes :
      {h : List EventRow} {starts : Starts} {b : Bus}
      → Reaches h starts b
      → Reaches h (start_at b.next_id h starts) (subscribe b).1
  cancels :
      {h : List EventRow} {starts : Starts} {b : Bus} (id : ℕ)
      → Reaches h starts b
      → Reaches h starts (cancel id b)
  publishes :
      {h : List EventRow} {starts : Starts} {b : Bus} (evs : List EventRow)
      → Reaches h starts b
      → Reaches (h ++ evs) starts (publish evs b)
  receives :
      {h : List EventRow} {starts : Starts} {b : Bus} (id : ℕ)
      → Reaches h starts b
      → Reaches h starts (receive id b)
  closes :
      {h : List EventRow} {starts : Starts} {b : Bus}
      → Reaches h starts b
      → Reaches h starts (close_bus b)

abbrev pub stream : Channel → List EventRow
stream ch = ch.received ++ ch.waiting

-- The channel's id is one that was given out, and what it was sent is all that was published since its
-- subscription, in order.
abbrev pub IsLive : ℕ → List EventRow → Starts → Channel → Type 0
IsLive n h starts ch =
    (h ≡ starts ch.id ++ stream ch) × (length ch.waiting ≤ subscriber_buffer) × (ch.id < n)

-- The same of a closed channel, up to an event from which on it was sent none.
abbrev pub IsRun : ℕ → List EventRow → Starts → Channel → Type 0
IsRun n h starts ch =
    ((later : List EventRow) × (h ≡ (starts ch.id ++ stream ch) ++ later))
    × (length ch.waiting ≤ subscriber_buffer)
    × (ch.id < n)

pub record IsSound (h : List EventRow) (starts : Starts) (b : Bus) : Type 0 where
  pub live : All (IsLive b.next_id h starts) b.subs
  pub runs : All (IsRun b.next_id h starts) b.ended
  pub no_subs : b.closed ≡ true → b.subs ≡ []
