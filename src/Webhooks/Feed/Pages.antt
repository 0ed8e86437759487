-- ===== src/Webhooks/Feed/Pages.antt =====
-- The events that a replay and a live subscription dispatch, where no read of the log fails.
use kasas.Prelude.{
  Bool-cases, List, Option, [], ap, append-nil, append_assoc, arith, drop, false, inl, inr, keep,
  leb, leb→lt, length, lt→ltb, refl, suc, sym, take, zero, ℕ, ◌++◌, ◌-◌, ◌<◌, ◌∙◌, ◌∷◌, ◌≡◌,
  if◌then◌else◌, length-take, ltb, subst, ltb→le, ltb→lt, take_self, Bool, true,
}
use kasas.Prelude.Text.{Text}
use kasas.Webhooks.{
  Dispatcher, consume_live, forward_all, newer, replay, replay_page, forward, next_or,
  list_events_after,
}
use kasas.Webhooks.Cursor.{Ascending, last_or, last_or-append, keep-newer_self, keep-newer-page}
use kasas.Webhooks.Feed.{forward_all-dispatched, forward_all-last_seq, forward_all-stops}
use kasas.Store.Tables.{EventRow}

take-drop {ℓ} : {A : Type ℓ} (n : ℕ) (xs : List A) → take n xs ++ drop n xs ≡ xs
take-drop zero xs = refl
take-drop (suc n) [] = refl
take-drop (suc n) (x ∷ xs) = ap (◌∷◌ x) (take-drop n xs)

length-drop {ℓ} : {A : Type ℓ} (n : ℕ) (xs : List A) → length (drop n xs) ≡ length xs - n
length-drop zero xs = omega arith
length-drop (suc n) [] = omega arith
length-drop (suc n) (x ∷ xs) = omega (arith, length-drop n xs)

module _ (queue_size : ℕ) (unmarshal : Text → Option (List Text)) where
  -- The events `evs`, in their order, are what was dispatched between two states.
  pub record Dispatches (evs : List EventRow) (d d' : Dispatcher) : Type 0 where
    pub dispatched : d'.dispatched ≡ d.dispatched ++ evs
    pub last_seq : d'.last_seq ≡ last_or d.last_seq evs
    pub stops : d'.stops ≡ d.stops

  forward_all-Dispatches :
      (evs : List EventRow) (d : Dispatcher)
      → Dispatches evs d (forward_all queue_size unmarshal evs d)
  forward_all-Dispatches evs d = record {
    dispatched = forward_all-dispatched queue_size unmarshal evs d;
    last_seq = forward_all-last_seq queue_size unmarshal evs d;
    stops = forward_all-stops queue_size unmarshal evs d;
  }

  pub Dispatches-trans :
      (xs ys : List EventRow) (a b c : Dispatcher)
      → Dispatches xs a b
      → Dispatches ys b c
      → Dispatches (xs ++ ys) a c
  Dispatches-trans xs ys a b c h k = record {
    dispatched = k.dispatched ∙ ap (λ l. l ++ ys) h.dispatched ∙ append_assoc a.dispatched xs ys;
    last_seq =
        k.last_seq ∙ ap (λ n. last_or n ys) h.last_seq ∙ sym (last_or-append a.last_seq xs ys);
    stops = k.stops ∙ h.stops;
  }

  abbrev page_of : List EventRow → Dispatcher → List EventRow
  page_of log d = list_events_after d.last_seq replay_page log

  -- What a turn of the replay does, given whether it is stopped.
  abbrev after_read : ℕ → List EventRow → Dispatcher → Bool × List Bool → Dispatcher
  after_read fuel log d q =
      let d1 = forward_all queue_size unmarshal (page_of log d) (record d { stops = q.1 }) in
      if q.0
      then record d { stops = q.1 }
      else if ltb (length (page_of log d)) replay_page
      then d1
      else replay queue_size unmarshal fuel log d1

  -- A page that is not full is all that was left.
  page_of-whole :
      (log : List EventRow) (d : Dispatcher)
      → ltb (length (page_of log d)) replay_page ≡ true
      → page_of log d ≡ keep (newer d.last_seq) log
  page_of-whole log d e =
      let left = keep (newer d.last_seq) log in
      take_self replay_page left
        (omega (arith, length-take replay_page left, ltb→lt (length (page_of log d)) replay_page e))

  -- A full page leaves less than there was.
  page_of-full :
      (fuel : ℕ) (log : List EventRow) (d d1 : Dispatcher)
      → length (keep (newer d.last_seq) log) < suc fuel
      → Ascending 0 log
      → ltb (length (page_of log d)) replay_page ≡ false
      → d1.last_seq ≡ last_or d.last_seq (page_of log d)
      → (keep (newer d1.last_seq) log ≡ drop replay_page (keep (newer d.last_seq) log))
        × (length (keep (newer d1.last_seq) log) < fuel)
  page_of-full fuel log d d1 lt up e moved =
      let left = keep (newer d.last_seq) log in
      let todo : keep (newer d1.last_seq) log ≡ drop replay_page left =
        ap (λ n. keep (newer n) log) moved ∙ keep-newer-page replay_page d.last_seq 0 log up in
      (
        todo,
        omega (
          arith,
          ap length todo,
          length-drop replay_page left,
          length-take replay_page left,
          ltb→le (length (page_of log d)) replay_page e,
        ),
      )

  -- With a turn per page, a replay reads to the end of the log.
  pub replay-Dispatches :
      (fuel : ℕ) (log : List EventRow) (d : Dispatcher)
      → length (keep (newer d.last_seq) log) < fuel
      → d.stops ≡ []
      → Ascending 0 log
      → Dispatches (keep (newer d.last_seq) log) d (replay queue_size unmarshal fuel log d)
  unfolding replay
  replay-Dispatches zero log d lt quiet up = absurd (omega arith)
  replay-Dispatches (suc fuel) log d lt quiet up =
      let left = keep (newer d.last_seq) log in
      let d0 : Dispatcher = record d { stops = [] } in
      let d1 = forward_all queue_size unmarshal (page_of log d) d0 in
      let first = forward_all-Dispatches (page_of log d) d0 in
      let flow : next_or false d.stops ≡ (false, []) = rw quiet refl in
      let all : Dispatches left d0 (after_read fuel log d (false, [])) =
        elim (Bool-cases (ltb (length (page_of log d)) replay_page)) [
          | inl e ↦ rw e (subst (λ l. Dispatches l d0 d1) (page_of-whole log d e) first)
          | inr e ↦
              let (todo, fewer) = page_of-full fuel log d d1 lt up e first.last_seq in
              rw e (
                subst (λ l. Dispatches l d0 (replay queue_size unmarshal fuel log d1))
                  (ap (◌++◌ (page_of log d)) todo ∙ take-drop replay_page left)
                  (Dispatches-trans (page_of log d) _ d0 d1 _ first
                    (replay-Dispatches fuel log d1 fewer first.stops up)))
        ] in
      subst (λ q. Dispatches left d (after_read fuel log d q)) (sym flow)
        (record {
          dispatched = all.dispatched;
          last_seq = all.last_seq;
          stops = all.stops ∙ sym quiet;
        })

  pub consume_live-Dispatches :
      (n : ℕ) (live : List EventRow) (d : Dispatcher)
      → Ascending n live
      → Dispatches (keep (newer d.last_seq) live) d (consume_live queue_size unmarshal live d)
  unfolding consume_live
  consume_live-Dispatches n [] d up = record {
    dispatched = sym (append-nil d.dispatched);
    last_seq = refl;
    stops = refl;
  }
  consume_live-Dispatches n (ev ∷ rest) d (lt, up) = elim (Bool-cases (leb ev.id d.last_seq)) [
    | inl e ↦
        let old : newer d.last_seq ev ≡ false = ground arith in
        rw (e, old) (consume_live-Dispatches ev.id rest d up)
    | inr e ↦
        let new = lt→ltb d.last_seq ev.id (leb→lt ev.id d.last_seq e) in
        rw (e, new)
          (Dispatches-trans (ev ∷ []) (keep (newer d.last_seq) rest) d
            (forward queue_size unmarshal ev d) _ (forward_all-Dispatches (ev ∷ []) d)
            (subst
              (λ l.
                Dispatches l (forward queue_size unmarshal ev d)
                  (consume_live queue_size unmarshal rest (forward queue_size unmarshal ev d)))
              (keep-newer_self ev.id ev.id rest (omega arith) up
                ∙ sym (
                    keep-newer_self d.last_seq ev.id rest (omega (arith, leb→lt ev.id d.last_seq e))
                      up))
              (consume_live-Dispatches ev.id rest (forward queue_size unmarshal ev d) up)))
  ]
