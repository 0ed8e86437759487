-- ===== src/Events/Bus/Contiguous.antt =====
-- No subscriber misses an event in silence.
use kasas.Prelude.{
  List, [], append-nil, append_assoc, arith, length, length-append, refl, true, ℕ, ◌++◌, ◌∷◌, ◌≡◌,
  ◌≤◌, All-append, All-both, All-keep, All-map, All-map_impl, Bool-cases, inl, inr, keep, keep-All,
  not, sym, suc, ◌<◌,
}
use kasas.Events.Bus.{
  publish, Bus, Channel, cancel, close_bus, has_room, push, receive, subscribe, is_channel,
  publish_one, receive_from, receive_if,
}
use kasas.Store.Tables.{EventRow}
use kasas.Events.Bus.History.{
  IsLive, IsRun, IsSound, Reaches, Starts, begins, cancels, closes, publishes, receives, start_at,
  stream, subscribes,
}

IsLive-IsRun :
    (n : ℕ) (h : List EventRow) (starts : Starts) (ch : Channel)
    → IsLive n h starts ch
    → IsRun n h starts ch
IsLive-IsRun n h starts ch (e, few, given) =
    (([], rw (append-nil (starts ch.id ++ stream ch)) e), few, given)

IsRun-later :
    (n : ℕ) (h : List EventRow) (starts : Starts) (ev : EventRow) (ch : Channel)
    → IsRun n h starts ch
    → IsRun n (h ++ (ev ∷ [])) starts ch
IsRun-later n h starts ev ch ((later, e), few, given) = (
  (later ++ (ev ∷ []), rw (e, append_assoc (starts ch.id ++ stream ch) later (ev ∷ [])) refl),
  few,
  given,
)

push-IsLive :
    (n : ℕ) (h : List EventRow) (starts : Starts) (ev : EventRow) (ch : Channel)
    → has_room ch ≡ true
    → IsLive n h starts ch
    → IsLive n (h ++ (ev ∷ [])) starts (push ev ch)
push-IsLive n h starts ev ch r (e, few, given) =
    (rw e (simp append_assoc), ground (arith, length-append ch.waiting (ev ∷ [])), given)

publish_one-IsSound :
    (h : List EventRow) (starts : Starts) (b : Bus) (ev : EventRow)
    → IsSound h starts b
    → IsSound (h ++ (ev ∷ [])) starts (publish_one b ev)
unfolding publish_one
publish_one-IsSound h starts b ev s =
    let n : ℕ = b.next_id in
    let Live : Channel → Type 0 = IsLive n h starts in
    let Run : Channel → Type 0 = IsRun n (h ++ (ev ∷ [])) starts in
    record {
      live = All-map (IsLive n (h ++ (ev ∷ [])) starts) (push ev) (keep has_room b.subs) (
          All-map_impl (λ ch (r, l). push-IsLive n h starts ev ch r l) (keep has_room b.subs)
            (All-both (λ ch. has_room ch ≡ true) Live (keep has_room b.subs)
              (keep-All has_room b.subs) (All-keep Live has_room b.subs s.live)));
      runs = All-append Run b.ended _ (All-map_impl (IsRun-later n h starts ev) b.ended s.runs) (
          All-map_impl (λ ch l. IsRun-later n h starts ev ch (IsLive-IsRun n h starts ch l)) _
            (All-keep Live (λ ch. not (has_room ch)) b.subs s.live));
      no_subs = λ c. rw (s.no_subs c) refl;
    }

publish-IsSound :
    (h evs : List EventRow) (starts : Starts) (b : Bus)
    → IsSound h starts b
    → IsSound (h ++ evs) starts (publish evs b)
unfolding publish
publish-IsSound h [] starts b s = rw (append-nil h) s
publish-IsSound h (ev ∷ evs) starts b s = rw (← append_assoc h (ev ∷ []) evs) (
    publish-IsSound (h ++ (ev ∷ [])) evs starts (publish_one b ev)
      (publish_one-IsSound h starts b ev s))

-- A subscription leaves the starts of the channels before it as they are.
start_at-old :
    (n id : ℕ) (h : List EventRow) (starts : Starts) → id < n → start_at n h starts id ≡ starts id
start_at-old n id h starts lt = ground arith

start_at-new : (n : ℕ) (h : List EventRow) (starts : Starts) → start_at n h starts n ≡ h
start_at-new n h starts = ground arith

subscribe-IsSound :
    (h : List EventRow) (starts : Starts) (b : Bus)
    → IsSound h starts b
    → IsSound h (start_at b.next_id h starts) (subscribe b).1
unfolding subscribe
subscribe-IsSound h starts b s = elim (Bool-cases b.closed) [
  | inl e ↦ simp e (record {
    live = All-map_impl still_live b.subs s.live;
    runs = All-map_impl still_run b.ended s.runs;
    no_subs = s.no_subs;
  })
  | inr e ↦ simp e (record {
    live =
        All-append (IsLive (suc b.next_id) h (start_at b.next_id h starts)) b.subs _
          (All-map_impl (λ ch l. newer_live ch (still_live ch l)) b.subs s.live)
          (
            (rw (start_at-new b.next_id h starts) (sym (append-nil h)), omega arith, omega arith),
            tt,
          );
    runs = All-map_impl (λ ch r. newer_run ch (still_run ch r)) b.ended s.runs;
    no_subs = λ c. cc;
  })
]
  where
    still_live :
        (ch : Channel)
        → IsLive b.next_id h starts ch
        → IsLive b.next_id h (start_at b.next_id h starts) ch
    still_live ch (e, few, given) = (rw (start_at-old b.next_id ch.id h starts given) e, few, given)

    still_run :
        (ch : Channel)
        → IsRun b.next_id h starts ch
        → IsRun b.next_id h (start_at b.next_id h starts) ch
    still_run ch ((later, e), few, given) =
        ((later, rw (start_at-old b.next_id ch.id h starts given) e), few, given)

    newer_live :
        (ch : Channel)
        → IsLive b.next_id h (start_at b.next_id h starts) ch
        → IsLive (suc b.next_id) h (start_at b.next_id h starts) ch
    newer_live ch (e, few, given) = (e, few, omega arith)

    newer_run :
        (ch : Channel)
        → IsRun b.next_id h (start_at b.next_id h starts) ch
        → IsRun (suc b.next_id) h (start_at b.next_id h starts) ch
    newer_run ch (e, few, given) = (e, few, omega arith)

cancel-IsSound :
    (h : List EventRow) (starts : Starts) (b : Bus) (id : ℕ)
    → IsSound h starts b
    → IsSound h starts (cancel id b)
unfolding cancel
cancel-IsSound h starts b id s =
    let n : ℕ = b.next_id in
    let Live : Channel → Type 0 = IsLive n h starts in
    record {
      live = All-keep Live (λ ch. not (is_channel id ch)) b.subs s.live;
      runs =
          All-append (IsRun n h starts) b.ended _ s.runs (
            All-map_impl (IsLive-IsRun n h starts) _ (All-keep Live (is_channel id) b.subs s.live));
      no_subs = λ c. rw (s.no_subs c) refl;
    }

close_bus-IsSound :
    (h : List EventRow) (starts : Starts) (b : Bus)
    → IsSound h starts b
    → IsSound h starts (close_bus b)
unfolding close_bus
close_bus-IsSound h starts b s = elim (Bool-cases b.closed) [
  | inl e ↦ simp e s
  | inr e ↦ simp e (record {
    live = tt;
    runs =
        All-append (IsRun b.next_id h starts) b.ended b.subs s.runs
          (All-map_impl (IsLive-IsRun b.next_id h starts) b.subs s.live);
    no_subs = λ c. refl;
  })
]

-- Receiving moves the first waiting event and loses none.
receive_from-stream :
    (ch : Channel) (ws : List EventRow)
    → ch.waiting ≡ ws
    → (stream (receive_from ws ch) ≡ stream ch)
      × (length (receive_from ws ch).waiting ≤ length ch.waiting)
      × ((receive_from ws ch).id ≡ ch.id)
receive_from-stream ch [] e = (refl, omega arith, refl)
receive_from-stream ch (ev ∷ rest) e =
    rw e (append_assoc ch.received (ev ∷ []) rest, omega arith, refl)

receive_if-stream :
    (id : ℕ) (ch : Channel)
    → (stream (receive_if id ch) ≡ stream ch)
      × (length (receive_if id ch).waiting ≤ length ch.waiting)
      × ((receive_if id ch).id ≡ ch.id)
receive_if-stream id ch = elim (Bool-cases (is_channel id ch)) [
  | inl e ↦ rw e (receive_from-stream ch ch.waiting refl)
  | inr e ↦ rw e (refl, omega arith, refl)
]

receive-IsSound :
    (h : List EventRow) (starts : Starts) (b : Bus) (id : ℕ)
    → IsSound h starts b
    → IsSound h starts (receive id b)
unfolding receive
receive-IsSound h starts b id s = record {
  live =
      All-map (IsLive b.next_id h starts) (receive_if id) b.subs
        (All-map_impl live_at b.subs s.live);
  runs =
      All-map (IsRun b.next_id h starts) (receive_if id) b.ended
        (All-map_impl run_at b.ended s.runs);
  no_subs = λ c. rw (s.no_subs c) refl;
}
  where
    live_at :
        (ch : Channel) → IsLive b.next_id h starts ch → IsLive b.next_id h starts (receive_if id ch)
    live_at ch (e, few, given) =
        let (same, fewer, is_id) = receive_if-stream id ch in
        (rw (same, is_id) e, omega arith, rw is_id given)

    run_at :
        (ch : Channel) → IsRun b.next_id h starts ch → IsRun b.next_id h starts (receive_if id ch)
    run_at ch ((later, e), few, given) =
        let (same, fewer, is_id) = receive_if-stream id ch in
        ((later, rw (same, is_id) e), omega arith, rw is_id given)

-- Whatever the calls so far, in whatever order: the events published so far are those from before the
-- subscription of a channel that is still registered, followed by those that were sent to it, received
-- or waiting, so it has had each event since its subscription once and in order; a closed channel has
-- had those up to some event and none after it; at most 64 events wait in any channel; and a closed
-- bus has no channel registered.
pub Reaches-IsSound :
    (h : List EventRow) (starts : Starts) (b : Bus) → Reaches h starts b → IsSound h starts b
Reaches-IsSound [] starts b' begins = record { live = tt; runs = tt; no_subs = λ c. refl }
Reaches-IsSound h starts' b' (subscribes {starts = starts} {b = b} r) =
    subscribe-IsSound h starts b (Reaches-IsSound h starts b r)
Reaches-IsSound h starts b' (cancels {b = b} id r) =
    cancel-IsSound h starts b id (Reaches-IsSound h starts b r)
Reaches-IsSound h' starts b' (publishes {h = h} {b = b} evs r) =
    publish-IsSound h evs starts b (Reaches-IsSound h starts b r)
Reaches-IsSound h starts b' (receives {b = b} id r) =
    receive-IsSound h starts b id (Reaches-IsSound h starts b r)
Reaches-IsSound h starts b' (closes {b = b} r) =
    close_bus-IsSound h starts b (Reaches-IsSound h starts b r)
