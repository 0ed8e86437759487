-- ===== src/Webhooks/Queue/Served.antt =====
-- The jobs that a dispatcher makes of the events.
use kasas.Webhooks.{
  Dispatcher, Job, Turn, Webhook, consume_live, dispatch, forward_all, list_events_after, matches,
  next_or, replay, replay_fuel, replay_page, run, send, send_all, turn,
}
use kasas.Prelude.{
  Bool-cases, List, Option, [], append-nil, append_assoc, arith, drop, false, if_elim, inl, inr,
  leb, length, ltb, none, refl, some, subst, suc, sym, zero, ℕ, ◌++◌, ◌+◌, ◌∙◌, ◌∷◌, ◌≡◌, ◌⊎◌,
}
use kasas.Webhooks.Queue.{
  IsSent, IsServed, IsSubscribed, read_fails, has_none, loses, matches_iff, no_more, passes_over,
  sends, serves,
}
use kasas.Store.Tables.{EventRow}
use kasas.Events.Diff.Empty.{reads}
use kasas.Prelude.Text.{Text}

module _ (queue_size : ℕ) (unmarshal : Text → Option (List Text)) where
  -- What a send does to the dispatcher, as far as its record of the jobs goes.
  send-cases :
      (j : Job) (d : Dispatcher)
      → (((send queue_size j d).accepted ≡ d.accepted ++ (j ∷ []))
            × ((send queue_size j d).dropped ≡ d.dropped)
          ⊎ ((send queue_size j d).accepted ≡ d.accepted)
            × ((send queue_size j d).dropped ≡ suc d.dropped))
        × ((send queue_size j d).dispatched ≡ d.dispatched)
        × ((send queue_size j d).hook_reads ≡ d.hook_reads)
  unfolding send
  send-cases j d =
      elim (Bool-cases (ltb (length (drop ((next_or 0 d.taken).0) d.jobs)) queue_size)) [
        | inl e ↦ rw e (inl (refl, refl), refl, refl)
        | inr e ↦ rw e (inr (refl, refl), refl, refl)
      ]

  record Sends (ev : EventRow) (hooks : List Webhook) (d d' : Dispatcher) : Type 0 where
    jobs : List Job
    lost : ℕ
    sent : IsSent unmarshal ev hooks jobs lost
    accepted : d'.accepted ≡ d.accepted ++ jobs
    dropped : d'.dropped ≡ d.dropped + lost
    dispatched : d'.dispatched ≡ d.dispatched
    hook_reads : d'.hook_reads ≡ d.hook_reads

  send_all-Sends :
      (ev : EventRow) (hooks : List Webhook) (d : Dispatcher)
      → Sends ev hooks d (send_all queue_size (λ wh. matches unmarshal wh ev.event_type) ev hooks d)
  unfolding send_all
  send_all-Sends ev [] d = record {
    jobs = [];
    lost = 0;
    sent = no_more;
    accepted = sym (append-nil d.accepted);
    dropped = omega arith;
    dispatched = refl;
    hook_reads = refl;
  }
  send_all-Sends ev (wh ∷ rest) d =
      let kind = ev.event_type in
      let j : Job = record { hook = wh; event = ev } in
      elim (Bool-cases (matches unmarshal wh kind)) [
        | inl e ↦
            let wanted = (matches_iff unmarshal wh kind).0 e in
            let s = send_all-Sends ev rest (send queue_size j d) in
            let (one, same, reads) = send-cases j d in
            rw e (elim one [
              | inl (accepted, dropped) ↦ record {
                jobs = j ∷ s.jobs;
                lost = s.lost;
                sent = sends wanted s.sent;
                accepted = s.accepted ∙ rw accepted (append_assoc d.accepted (j ∷ []) s.jobs);
                dropped = s.dropped ∙ rw dropped refl;
                dispatched = s.dispatched ∙ same;
                hook_reads = s.hook_reads ∙ reads;
              }
              | inr (accepted, dropped) ↦ record {
                jobs = s.jobs;
                lost = suc s.lost;
                sent = loses wanted s.sent;
                accepted = s.accepted ∙ rw accepted refl;
                dropped = s.dropped ∙ rw dropped (omega arith);
                dispatched = s.dispatched ∙ same;
                hook_reads = s.hook_reads ∙ reads;
              }
            ])
        | inr e ↦
            let s = send_all-Sends ev rest d in
            let unwanted : ¬ IsSubscribed unmarshal wh kind =
              λ w. absurd (cc (sym e ∙ (matches_iff unmarshal wh kind).1 w)) in
            rw e (record {
              jobs = s.jobs;
              lost = s.lost;
              sent = passes_over unwanted s.sent;
              accepted = s.accepted;
              dropped = s.dropped;
              dispatched = s.dispatched;
              hook_reads = s.hook_reads;
            })
      ]

  module _ (answers : List (Option (List Webhook))) where
    abbrev pub Served : Dispatcher → Type 0
    Served d = IsServed unmarshal answers d.dispatched d.accepted d.dropped d.hook_reads

    dispatch-Served :
        (ev : EventRow) (d : Dispatcher) (answered : List (Option (List Webhook)))
        → d.hook_reads ≡ answered
        → Served d
        → Served (dispatch queue_size unmarshal ev d)
    unfolding dispatch
    dispatch-Served ev d [] e h =
        rw e
          (has_none ev (subst (IsServed unmarshal answers d.dispatched d.accepted d.dropped) e h))
    dispatch-Served ev d (none ∷ later) e h =
        rw e
          (read_fails ev (subst (IsServed unmarshal answers d.dispatched d.accepted d.dropped) e h))
    dispatch-Served ev d (some hooks ∷ later) e h =
        let marked : Dispatcher = record d {
          dispatched = d.dispatched ++ (ev ∷ []);
          hook_reads = later;
        } in
        let s = send_all-Sends ev hooks marked in
        let served =
          serves ev (subst (IsServed unmarshal answers d.dispatched d.accepted d.dropped) e h)
            s.sent in
        rw e (rw (s.accepted, s.dropped, s.dispatched, s.hook_reads) served)

    forward_all-Served :
        (evs : List EventRow) (d : Dispatcher)
        → Served d
        → Served (forward_all queue_size unmarshal evs d)
    forward_all-Served [] d h = h
    forward_all-Served (ev ∷ rest) d h =
        forward_all-Served rest _ (dispatch-Served ev d d.hook_reads refl h)

    replay-Served :
        (fuel : ℕ) (log : List EventRow) (d : Dispatcher)
        → Served d
        → Served (replay queue_size unmarshal fuel log d)
    unfolding replay
    replay-Served zero log d h = h
    replay-Served (suc fuel) log d h =
        let later = (next_or false d.stops).1 in
        let page = list_events_after d.last_seq replay_page log in
        let moved = forward_all-Served page (record d { stops = later }) h in
        if_elim Served ((next_or false d.stops).0) h
          (if_elim Served (ltb (length page) replay_page) moved (replay-Served fuel log _ moved))

    consume_live-Served :
        (live : List EventRow) (d : Dispatcher)
        → Served d
        → Served (consume_live queue_size unmarshal live d)
    unfolding consume_live
    consume_live-Served [] d h = h
    consume_live-Served (ev ∷ rest) d h =
        if_elim Served (leb ev.id d.last_seq) (consume_live-Served rest d h)
          (consume_live-Served rest _ (dispatch-Served ev d d.hook_reads refl h))

    -- Whatever the workers take, the store answers and the bus delivers: the jobs that entered the
    -- queue are, event for dispatched event and in order, those of the webhooks of the answer to its
    -- read that are subscribed to its type; a webhook that is not has none, a subscribed one has one or
    -- is counted as dropped, and an event whose read fails has none.
    pub run-IsServed :
        (turns : List Turn) (d : Dispatcher)
        → IsServed unmarshal answers d.dispatched d.accepted d.dropped d.hook_reads
        → Served (run queue_size unmarshal turns d)
    unfolding run turn
    run-IsServed [] d h = h
    run-IsServed (t ∷ rest) d h =
        run-IsServed rest _
          (consume_live-Served t.live _ (replay-Served (replay_fuel t.log) t.log d h))
