-- ===== src/Webhooks/Feed.antt =====
-- What a call of `dispatch` leaves of the state, and what a page of events does to the cursor.
pub mod Rising
pub mod Pages
pub mod Complete
pub mod Late
use kasas.Webhooks.{
  Dispatcher, Job, Webhook, dispatch, forward, forward_all, next_or, send, send_all, dispatch_to,
  matches, matches_types,
}
use kasas.Prelude.{
  Bool, List, Option, [], ap, append-nil, append_assoc, drop, if_elim, length, ltb, none, refl,
  some, sym, ℕ, ◌++◌, ◌∙◌, ◌∷◌, ◌≡◌,
}
use kasas.Webhooks.Cursor.{last_or}
use kasas.Prelude.Text.{Text}
use kasas.Store.Tables.{EventRow}

module _ (queue_size : ℕ) (unmarshal : Text → Option (List Text)) where
  -- A dispatch appends the event, and moves neither the cursor nor what stops a replay.
  pub record Appends (ev : EventRow) (d d' : Dispatcher) : Type 0 where
    pub dispatched : d'.dispatched ≡ d.dispatched ++ (ev ∷ [])
    pub last_seq : d'.last_seq ≡ d.last_seq
    pub stops : d'.stops ≡ d.stops

  record Leaves (d d' : Dispatcher) : Type 0 where
    dispatched : d'.dispatched ≡ d.dispatched
    last_seq : d'.last_seq ≡ d.last_seq
    stops : d'.stops ≡ d.stops

  send-Leaves : (j : Job) (d : Dispatcher) → Leaves d (send queue_size j d)
  unfolding send
  send-Leaves j d =
      if_elim (Leaves d) (ltb (length (drop ((next_or 0 d.taken).0) d.jobs)) queue_size)
        (record { dispatched = refl; last_seq = refl; stops = refl })
        (record { dispatched = refl; last_seq = refl; stops = refl })

  send_all-Leaves :
      (wants : Webhook → Bool) (ev : EventRow) (hooks : List Webhook) (d : Dispatcher)
      → Leaves d (send_all queue_size wants ev hooks d)
  unfolding send_all
  send_all-Leaves wants ev [] d = record { dispatched = refl; last_seq = refl; stops = refl }
  send_all-Leaves wants ev (wh ∷ rest) d =
      let j : Job = record { hook = wh; event = ev } in
      let one = send-Leaves j d in
      let more = send_all-Leaves wants ev rest (send queue_size j d) in
      if_elim (Leaves d) (wants wh)
        (record {
          dispatched = more.dispatched ∙ one.dispatched;
          last_seq = more.last_seq ∙ one.last_seq;
          stops = more.stops ∙ one.stops;
        })
        (send_all-Leaves wants ev rest d)

  dispatch_to-Leaves :
      (ev : EventRow) (hooks : Option (List Webhook)) (d : Dispatcher)
      → Leaves d (dispatch_to queue_size unmarshal ev hooks d)
  unfolding matches_types
  dispatch_to-Leaves ev none d = record { dispatched = refl; last_seq = refl; stops = refl }
  dispatch_to-Leaves ev (some hooks) d =
      send_all-Leaves (λ wh. matches unmarshal wh ev.event_type) ev hooks d

  pub dispatch-Appends :
      (ev : EventRow) (d : Dispatcher) → Appends ev d (dispatch queue_size unmarshal ev d)
  unfolding dispatch
  dispatch-Appends ev d =
      let (hooks, later) = next_or (some []) d.hook_reads in
      let same =
        dispatch_to-Leaves ev hooks
          (record d { dispatched = d.dispatched ++ (ev ∷ []); hook_reads = later }) in
      record { dispatched = same.dispatched; last_seq = same.last_seq; stops = same.stops }

  pub forward_all-dispatched :
      (evs : List EventRow) (d : Dispatcher)
      → (forward_all queue_size unmarshal evs d).dispatched ≡ d.dispatched ++ evs
  forward_all-dispatched [] d = sym (append-nil d.dispatched)
  forward_all-dispatched (ev ∷ rest) d =
      forward_all-dispatched rest (forward queue_size unmarshal ev d)
      ∙ ap (λ l. l ++ rest) (dispatch-Appends ev d).dispatched
      ∙ append_assoc d.dispatched (ev ∷ []) rest

  pub forward_all-last_seq :
      (evs : List EventRow) (d : Dispatcher)
      → (forward_all queue_size unmarshal evs d).last_seq ≡ last_or d.last_seq evs
  forward_all-last_seq [] d = refl
  forward_all-last_seq (ev ∷ rest) d = forward_all-last_seq rest (forward queue_size unmarshal ev d)

  pub forward_all-stops :
      (evs : List EventRow) (d : Dispatcher)
      → (forward_all queue_size unmarshal evs d).stops ≡ d.stops
  forward_all-stops [] d = refl
  forward_all-stops (ev ∷ rest) d =
      forward_all-stops rest (forward queue_size unmarshal ev d) ∙ (dispatch-Appends ev d).stops
