-- ===== src/Webhooks/Feed/Rising.antt =====
-- Whatever the store, the bus and the context do, no event is dispatched twice.
use kasas.Webhooks.{
  Dispatcher, Turn, consume_live, forward, forward_all, list_events_after, next_or, replay,
  replay_fuel, replay_page, run, turn,
}
use kasas.Prelude.{
  All, Bool-cases, List, Option, [], ap, false, if_elim, inl, inr, leb, leb→lt, length, ltb, subst,
  suc, sym, zero, ℕ, ◌∙◌, ◌∷◌, ◌≡◌,
}
use kasas.Webhooks.Cursor.{
  Ascending, Ascending-append, Ascending-take, keep-newer-Ascending, last_or, last_or-append,
}
use kasas.Webhooks.Feed.{forward_all-dispatched, forward_all-last_seq}
use kasas.Prelude.Text.{Text}
use kasas.Store.Tables.{EventRow}

module _ (queue_size : ℕ) (unmarshal : Text → Option (List Text)) (start : ℕ) where
  -- What was dispatched is in the order of its ids, from above `start`, and the cursor is at its end.
  pub record IsRising (d : Dispatcher) : Type 0 where
    pub dispatched : Ascending start d.dispatched
    pub last_seq : d.last_seq ≡ last_or start d.dispatched

  forward_all-IsRising :
      (evs : List EventRow) (d : Dispatcher)
      → IsRising d
      → Ascending d.last_seq evs
      → IsRising (forward_all queue_size unmarshal evs d)
  forward_all-IsRising evs d h up =
      let same = forward_all-dispatched queue_size unmarshal evs d in
      record {
        dispatched = subst (Ascending start) (sym same) (
            Ascending-append start d.dispatched evs h.dispatched
              (subst (λ n. Ascending n evs) h.last_seq up));
        last_seq =
            forward_all-last_seq queue_size unmarshal evs d
            ∙ ap (λ n. last_or n evs) h.last_seq
            ∙ sym (last_or-append start d.dispatched evs)
            ∙ ap (last_or start) (sym same);
      }

  replay-IsRising :
      (fuel : ℕ) (log : List EventRow) (d : Dispatcher)
      → Ascending 0 log
      → IsRising d
      → IsRising (replay queue_size unmarshal fuel log d)
  unfolding replay
  replay-IsRising zero log d up h = h
  replay-IsRising (suc fuel) log d up h =
      let later = (next_or false d.stops).1 in
      let page = list_events_after d.last_seq replay_page log in
      let at : IsRising (record d { stops = later }) = record {
        dispatched = h.dispatched;
        last_seq = h.last_seq;
      } in
      let moved =
        forward_all-IsRising page (record d { stops = later }) at
          (Ascending-take replay_page d.last_seq _ (keep-newer-Ascending d.last_seq 0 log up)) in
      if_elim IsRising ((next_or false d.stops).0) at (
        if_elim IsRising (ltb (length page) replay_page) moved (
          replay-IsRising fuel log
            (forward_all queue_size unmarshal page (record d { stops = later })) up moved))

  consume_live-IsRising :
      (live : List EventRow) (d : Dispatcher)
      → IsRising d
      → IsRising (consume_live queue_size unmarshal live d)
  unfolding consume_live
  consume_live-IsRising [] d h = h
  consume_live-IsRising (ev ∷ rest) d h = elim (Bool-cases (leb ev.id d.last_seq)) [
    | inl e ↦ rw e (consume_live-IsRising rest d h)
    | inr e ↦ rw e (
        consume_live-IsRising rest (forward queue_size unmarshal ev d)
          (forward_all-IsRising (ev ∷ []) d h (leb→lt ev.id d.last_seq e, tt)))
  ]

  -- However often the dispatcher is dropped by the bus, whatever its subscriptions deliver, and in
  -- whatever order, and whichever reads fail: the events it has dispatched have growing ids, so that
  -- none is dispatched twice, and its cursor is the id of the last one. The logs that the replays read
  -- are in the order of their ids.
  pub run-IsRising :
      (turns : List Turn) (d : Dispatcher)
      → All (λ t. Ascending 0 t.log) turns
      → IsRising d
      → IsRising (run queue_size unmarshal turns d)
  unfolding run turn
  run-IsRising [] d up h = h
  run-IsRising (t ∷ rest) d (one, up) h =
      run-IsRising rest (turn queue_size unmarshal t d) up
        (consume_live-IsRising t.live _ (replay-IsRising (replay_fuel t.log) t.log d one h))
