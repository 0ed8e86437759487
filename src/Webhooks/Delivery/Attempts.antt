-- ===== src/Webhooks/Delivery/Attempts.antt =====
-- How often a delivery is tried, and what is recorded of it.
-- The loop from the n-th attempt on, in a context that does not end.
use kasas.Webhooks.Delivery.{
  Context, Http, Message, attempts, deliver, deliver_with_retry, marshal_event, no_error,
  record_status, request_of, work, judge, post, post_body, record_outcome, update_delivery_status,
  with_status,
}
use kasas.Prelude.{
  ==_iff, Bool-cases, List, Option, arith, false, if_elim, inl, inr, none, refl, some, subst, suc,
  sym, true, zero, ℕ, ◌+◌, ◌<◌, ◌==◌, ◌↔◌, ◌≡◌, ◌≤◌, ◌⊎◌, ap, if◌then◌else◌, leb, ltb, ◌||◌, ◌∙◌,
  Bool, [], take, ◌∷◌,
}
use kasas.Prelude.Text.{Text}
use kasas.Prelude.Int.{ℤ}
use kasas.Webhooks.{Webhook}
use kasas.Store.Tables.{EventRow}

attempts-first :
    (ctx : Context) (try : ℕ → ℕ × Option Message) (n left : ℕ)
    → ((i : ℕ) → (ctx.done_after i ≡ false) × (ctx.done_waiting i ≡ false))
    → (k : ℕ) × (attempts ctx try n left ≡ some (k, try k))
      × (n ≤ k)
      × (k ≤ n + left)
      × ((i : ℕ) → n ≤ i → i < k → no_error (try i) ≡ false)
      × ((no_error (try k) ≡ true) ⊎ (k ≡ n + left))
unfolding attempts
attempts-first ctx try n zero alive = (
  n,
  rw ((alive n).0) (if_elim (λ o. o ≡ some (n, try n)) (no_error (try n)) refl refl),
  omega arith,
  omega arith,
  λ i le lt. absurd (omega arith),
  inr (omega arith),
)
attempts-first ctx try n (suc left) alive = elim (Bool-cases (no_error (try n))) [
  | inl e ↦ (n, rw e refl, omega arith, omega arith, λ i le lt. absurd (omega arith), inl e)
  | inr e ↦
      let (k, is_k, from, to, before, end) = attempts-first ctx try (suc n) left alive in
      (
        k,
        rw (e, (alive n).0, (alive n).1) is_k,
        omega arith,
        omega arith,
        λ i le lt. elim (Bool-cases (i == n)) [
          | inl same ↦ subst (λ j. no_error (try j) ≡ false) (sym ((==_iff i n).0 same)) e
          | inr other ↦ before i (ground arith) lt
        ],
        elim end [ inl good ↦ inl good | inr last ↦ inr (omega arith) ],
      )
]

-- The row of the job's webhook after an outcome was recorded at the time `now`: its status, its error
-- up to the 500th byte, the time of the attempt, and the time of the last success, which a failure
-- leaves as the job has it; the rest is as it was.
pub record HasOutcome (now : ℤ) (job_hook : Webhook) (outcome : ℕ × Option Message)
    (before after : Webhook) : Type 0 where
  pub id : after.id ≡ before.id
  pub url : after.url ≡ before.url
  pub secret : after.secret ≡ before.secret
  pub event_types : after.event_types ≡ before.event_types
  pub status : after.last_status ≡ outcome.0
  pub attempted : after.last_attempt_at ≡ now
  pub success : outcome.1 ≡ none → (after.last_error ≡ []) × (after.last_success_at ≡ now)
  pub failure :
      (e : Message)
      → outcome.1 ≡ some e
      → (after.last_error ≡ take 500 e) × (after.last_success_at ≡ job_hook.last_success_at)

-- The rows of the table before and after: the row of the job's webhook has the outcome, and any other
-- is as it was.
pub data IsRecorded (now : ℤ) (job_hook : Webhook) (outcome : ℕ × Option Message)
    : List Webhook → List Webhook → Type 0 where
  no_rows : IsRecorded now job_hook outcome [] []
  own_row :
      {before after : Webhook} {rows rows' : List Webhook}
      → before.id ≡ job_hook.id
      → HasOutcome now job_hook outcome before after
      → IsRecorded now job_hook outcome rows rows'
      → IsRecorded now job_hook outcome (before ∷ rows) (after ∷ rows')
  other_row :
      {row : Webhook} {rows rows' : List Webhook}
      → ¬ (row.id ≡ job_hook.id)
      → IsRecorded now job_hook outcome rows rows'
      → IsRecorded now job_hook outcome (row ∷ rows) (row ∷ rows')

with_status-HasOutcome :
    (now : ℤ) (job_hook row : Webhook) (outcome : ℕ × Option Message)
    → HasOutcome now job_hook outcome row
        (with_status now outcome (record row { last_success_at = job_hook.last_success_at }))
unfolding with_status
with_status-HasOutcome now job_hook row (status, problem) = record {
  id = refl;
  url = refl;
  secret = refl;
  event_types = refl;
  status = refl;
  attempted = refl;
  success = λ e. rw e (refl, refl);
  failure = λ m e. rw e (refl, refl);
}

update-IsRecorded :
    (now : ℤ) (job_hook : Webhook) (outcome : ℕ × Option Message) (rows : List Webhook)
    → IsRecorded now job_hook outcome rows (update_delivery_status now job_hook outcome rows)
unfolding update_delivery_status
update-IsRecorded now job_hook outcome [] = no_rows
update-IsRecorded now job_hook outcome (row ∷ rest) =
    let more = update-IsRecorded now job_hook outcome rest in
    let same = ==_iff row.id job_hook.id in
    elim (Bool-cases (row.id == job_hook.id)) [
      | inl e ↦ rw e (own_row (same.0 e) (with_status-HasOutcome now job_hook row outcome) more)
      | inr e ↦ rw e (other_row (λ i. absurd (cc (sym e ∙ same.1 i))) more)
    ]

-- In a context that does not end, a delivery stops at the first attempt that succeeds, and else at
-- the last one that is allowed, of which there is at least one. The row of the webhook then has the
-- outcome of that attempt, and each other row is as it was; if the database refuses the update, every
-- row is.
pub work-first :
    (refused : Bool) (ctx : Context) (try : ℕ → ℕ × Option Message) (left : ℕ) (now : ℤ)
    (wh : Webhook) (rows : List Webhook)
    → ((i : ℕ) → (ctx.done_after i ≡ false) × (ctx.done_waiting i ≡ false))
    → (k : ℕ) × (1 ≤ k)
      × (k ≤ suc left)
      × ((i : ℕ) → 1 ≤ i → i < k → no_error (try i) ≡ false)
      × ((no_error (try k) ≡ true) ⊎ (k ≡ suc left))
      × (refused ≡ false
          → IsRecorded now wh (try k) rows (work refused ctx try (suc left) now wh rows))
      × (refused ≡ true → work refused ctx try (suc left) now wh rows ≡ rows)
unfolding work deliver_with_retry record_status
work-first refused ctx try left now wh rows alive =
    let (k, is_k, from, to, before, end) = attempts-first ctx try 1 left alive in
    let recorded : work refused ctx try (suc left) now wh rows
        ≡ record_status refused now wh (try k) rows =
      ap (record_outcome refused now wh rows) is_k in
    (
      k,
      from,
      omega arith,
      before,
      elim end [ inl good ↦ inl good | inr last ↦ inr (omega arith) ],
      λ ok. rw (recorded, ok) (update-IsRecorded now wh (try k) rows),
      λ bad. rw (recorded, bad) refl,
    )

module _ (h : Http) (user_agent : Text) where
  judge-success :
      (answer : Message ⊎ ℕ)
      → no_error (judge h user_agent answer) ≡ true
      → (status : ℕ) × (answer ≡ inr status) × (200 ≤ status) × (status < 300)
  unfolding judge
  judge-success (inl e) good = cc
  judge-success (inr status) good = elim (Bool-cases (ltb status 200 || leb 300 status)) [
    | inl bad ↦ absurd (
        cc (
          subst
            (λ b.
              no_error (if b then (status, some (h.status_error status)) else (status, none))
              ≡ true)
            bad good))
    | inr fine ↦ (status, refl, ground arith, ground arith)
  ]

  post-success :
      (n : ℕ) (wh : Webhook) (ev : EventRow) (body : Text) (made : Option Message)
      → no_error (post h user_agent n wh ev body made) ≡ true
      → (status : ℕ) × (made ≡ none)
        × (h.round_trip n (request_of h user_agent n wh ev body) ≡ inr status)
        × (200 ≤ status)
        × (status < 300)
  post-success n wh ev body (some e) good = cc
  post-success n wh ev body none good =
      let (status, answered, low, high) =
        judge-success (h.round_trip n (request_of h user_agent n wh ev body)) good in
      (status, refl, answered, low, high)

  post_body-success :
      (n : ℕ) (wh : Webhook) (ev : EventRow) (rendered : Message ⊎ Text)
      → no_error (post_body h user_agent n wh ev rendered) ≡ true
      → (body : Text) × (status : ℕ) × (rendered ≡ inr body)
        × (h.new_request wh.url ≡ none)
        × (h.round_trip n (request_of h user_agent n wh ev body) ≡ inr status)
        × (200 ≤ status)
        × (status < 300)
  post_body-success n wh ev (inl e) good = cc
  post_body-success n wh ev (inr body) good =
      let (status, made, answered, low, high) =
        post-success n wh ev body (h.new_request wh.url) good in
      (body, status, refl, made, answered, low, high)

  -- A delivery counts as a success exactly if the event could be rendered, the URL makes a request, and
  -- the endpoint answered the signed request with a status from 200 to 299.
  pub deliver-success :
      (n : ℕ) (wh : Webhook) (ev : EventRow)
      → (no_error (deliver h user_agent n wh ev) ≡ true) ↔ (
          (body : Text) × (status : ℕ) × (marshal_event h user_agent ev ≡ inr body)
          × (h.new_request wh.url ≡ none)
          × (h.round_trip n (request_of h user_agent n wh ev body) ≡ inr status)
          × (200 ≤ status)
          × (status < 300))
  unfolding deliver judge
  deliver-success n wh ev = (
    post_body-success n wh ev (marshal_event h user_agent ev),
    λ (body, status, rendered, made, answered, low, high).
        let fine : (ltb status 200 || leb 300 status) ≡ false = ground arith in
        ap (λ m. no_error (post_body h user_agent n wh ev m)) rendered
        ∙ ap (λ o. no_error (post h user_agent n wh ev body o)) made
        ∙ ap (λ a. no_error (judge h user_agent a)) answered
        ∙ ap (λ b. no_error (if b then (status, some (h.status_error status)) else (status, none)))
            fine,
  )
