-- ===== src/Webhooks/Feed/Complete.antt =====
-- What the dispatcher misses: nothing, where the reads succeed and the bus delivers in order.
use kasas.Prelude.{
  All, All-map_impl, List, Option, [], arith, keep, subst, ℕ, ◌++◌, ◌∙◌, ◌∷◌, ◌≡◌, ◌≤◌, All-front,
  ap, length-keep, sym,
}
use kasas.Webhooks.Cursor.{
  Ascending, Ascending-parts, between, keep-newer-Ascending, last_or_ge, keep-between-extend,
  last_or, newer-All_passed,
}
use kasas.Webhooks.{Dispatcher, Turn, newer, replay, replay_fuel, run, turn}
use kasas.Webhooks.Feed.Pages.{Dispatches, consume_live-Dispatches, replay-Dispatches}
use kasas.Prelude.Text.{Text}
use kasas.Store.Tables.{EventRow}

module _ (queue_size : ℕ) (unmarshal : Text → Option (List Text)) (start : ℕ)
    (log : List EventRow) where
  -- A turn against a log that grows to `log`: the replay reads a first part of it, and the
  -- subscription, which was made before the replay, delivers a piece that starts in that part or
  -- right after it.
  pub record Follows (t : Turn) : Type 0 where
    pub rest : List EventRow
    pub before : List EventRow
    pub between_them : List EventRow
    pub after : List EventRow
    pub replayed : log ≡ t.log ++ rest
    pub subscribed : t.log ≡ before ++ between_them
    pub delivered : log ≡ before ++ (t.live ++ after)

  -- All of the log between the start and the cursor was dispatched, in order, and no read will fail.
  pub record IsCaughtUp (d : Dispatcher) : Type 0 where
    pub dispatched : d.dispatched ≡ keep (between start d.last_seq) log
    pub from_start : start ≤ d.last_seq
    pub stops : d.stops ≡ []

  -- A piece of the log, with all that stands before it behind the cursor.
  extend :
      (before piece after : List EventRow) (d d' : Dispatcher)
      → Ascending 0 log
      → log ≡ before ++ (piece ++ after)
      → All (λ ev. ev.id ≤ d.last_seq) before
      → IsCaughtUp d
      → Dispatches queue_size unmarshal (keep (newer d.last_seq) piece) d d'
      → IsCaughtUp d' × (d.last_seq ≤ d'.last_seq)
  extend before piece after d d' up is_log old h moved =
      let up' = subst (Ascending 0) is_log up in
      let in_piece =
        (Ascending-parts 0 piece after ((Ascending-parts 0 before (piece ++ after) up').1)).0 in
      let forth = last_or_ge d.last_seq _ (keep-newer-Ascending d.last_seq 0 piece in_piece) in
      (
        record {
          dispatched =
              moved.dispatched
              ∙ ap (λ l. l ++ keep (newer d.last_seq) piece) h.dispatched
              ∙ sym (
                  subst
                    (λ l.
                      keep (between start (last_or d.last_seq (keep (newer d.last_seq) piece))) l
                      ≡ keep (between start d.last_seq) l ++ keep (newer d.last_seq) piece)
                    (sym is_log)
                    (keep-between-extend start d.last_seq before piece after h.from_start up' old))
              ∙ ap (λ n. keep (between start n) log) (sym moved.last_seq);
          from_start = omega (arith, h.from_start, moved.last_seq);
          stops = moved.stops ∙ h.stops;
        },
        omega (arith, moved.last_seq),
      )

  turn-IsCaughtUp :
      (t : Turn) (d : Dispatcher)
      → Ascending 0 log
      → Follows t
      → IsCaughtUp d
      → IsCaughtUp (turn queue_size unmarshal t d)
        × (d.last_seq ≤ (turn queue_size unmarshal t d).last_seq)
        × All (λ ev. ev.id ≤ (turn queue_size unmarshal t d).last_seq) t.log
  unfolding turn
  turn-IsCaughtUp t d up f h =
      let in_log = (Ascending-parts 0 t.log f.rest (subst (Ascending 0) f.replayed up)).0 in
      let in_live =
        (Ascending-parts 0 t.live f.after (
          (Ascending-parts 0 f.before (t.live ++ f.after)
            (subst (Ascending 0) f.delivered up)).1)).0 in
      let d' = replay queue_size unmarshal (replay_fuel t.log) t.log d in
      let back =
        replay-Dispatches queue_size unmarshal (replay_fuel t.log) t.log d
          (omega (arith, length-keep (newer d.last_seq) t.log)) h.stops in_log in
      let (h', le) = extend [] t.log f.rest d d' up f.replayed tt h back in
      let seen : All (λ ev. ev.id ≤ d'.last_seq) t.log =
        subst (λ n. All (λ ev. ev.id ≤ n) t.log) (sym back.last_seq)
          (newer-All_passed d.last_seq 0 t.log in_log) in
      let on = consume_live-Dispatches queue_size unmarshal 0 t.live d' in_live in
      let (h'', le') =
        extend f.before t.live f.after d' _ up f.delivered
          (All-front (λ ev. ev.id ≤ d'.last_seq) f.before f.between_them
            (subst (All (λ ev. ev.id ≤ d'.last_seq)) f.subscribed seen))
          h' on in
      (h'', omega arith, All-map_impl (λ ev l. omega (arith, l, le')) t.log seen)

  -- Where the replays read what was committed when the subscription was made, or later, where the
  -- subscriptions deliver their events in the order of the log and without a gap, and where no read of
  -- the log fails: however often the bus drops the dispatcher, it has dispatched all events of the
  -- log from its start up to its cursor, in order and once each, and the cursor is past all that a
  -- replay could read.
  pub run-IsCaughtUp :
      (turns : List Turn) (d : Dispatcher)
      → Ascending 0 log
      → All Follows turns
      → IsCaughtUp d
      → IsCaughtUp (run queue_size unmarshal turns d)
        × (d.last_seq ≤ (run queue_size unmarshal turns d).last_seq)
        × All (λ t. All (λ ev. ev.id ≤ (run queue_size unmarshal turns d).last_seq) t.log) turns
  unfolding run
  run-IsCaughtUp [] d up fs h = (h, omega arith, tt)
  run-IsCaughtUp (t ∷ rest) d up (f, fs) h =
      let (h', le, seen) = turn-IsCaughtUp t d up f h in
      let (h'', le', all) = run-IsCaughtUp rest (turn queue_size unmarshal t d) up fs h' in
      (h'', omega arith, (All-map_impl (λ ev l. omega (arith, l, le')) t.log seen, all))
