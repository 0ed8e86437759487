-- ===== src/Webhooks/Delivery.antt =====
-- internal/webhooks: a signed POST to a webhook (webhooks.go), and the worker's loop that repeats it and
-- records its outcome (dispatcher.go). HTTP, JSON, HMAC and the clock are not under this repository.
pub mod Attempts
pub mod Backoff
use Prim.Native.Nat.{◌%◌, ◌^◌}
use kasas.Prelude.{
  Bool, List, Option, [], false, if◌then◌else◌, inl, inr, leb, ltb, none, not, some, suc, take,
  true, zero, ℕ, ◌*◌, ◌++◌, ◌-◌, ◌==◌, ◌||◌, ◌∷◌, ◌⊎◌,
}
use kasas.Webhooks.{Webhook, event_name}
use kasas.Prelude.Int.{int_lt, negsuc, pos, ℤ}
use kasas.Prelude.Text.{Text, codes, text_eq}
use kasas.Search.Outcome.{failed}
use kasas.Store.Tables.{EventRow}

-- An error's text, as its bytes.
abbrev pub Message : Type 0
Message = List ℕ

-- What is sent: a POST with the headers that `Deliver` sets.
pub record Request : Type 0 where
  pub url : Text
  pub user_agent : Text
  pub event : Text
  pub event_id : Text
  pub timestamp : Text
  pub signature : Text
  pub body : Text

-- `round_trip n` is the n-th attempt: the response's status, or the error of `client.Do`;
-- `new_request` is the error of http.NewRequestWithContext at a URL, `hmac_hex` the HMAC-SHA256 in
-- hexadecimal, and `status_error` the text of the error for a status.
pub record Http : Type 0 where
  pub marshal : EventRow → Message ⊎ Text
  pub new_request : Text → Option Message
  pub round_trip : ℕ → Request → Message ⊎ ℕ
  pub unix_now : ℕ → ℤ
  pub format_int : ℤ → Text
  pub hmac_hex : Text → Text → Text
  pub status_error : ℕ → Message

abbrev pub no_error : ℕ × Option Message → Bool
no_error (status, none) = true
no_error (status, some e) = false

module _ (h : Http) (user_agent : Text) where
  unfoldable pub sign : Text → Text → Text → Text
  sign secret timestamp body = h.hmac_hex secret (timestamp ++ (codes "." ++ body))

  -- `marshalEvent`: a missing payload is an empty object
  unfoldable pub marshal_event : EventRow → Message ⊎ Text
  marshal_event ev =
      h.marshal (record ev { payload = if text_eq ev.payload [] then codes "{}" else ev.payload })

  abbrev pub request_of : ℕ → Webhook → EventRow → Text → Request
  request_of n wh ev body =
      let timestamp = h.format_int (h.unix_now n) in
      record {
        url = wh.url;
        user_agent = user_agent;
        event = event_name ev.event_type;
        event_id = ev.event_id;
        timestamp = timestamp;
        signature = codes "sha256=" ++ sign wh.secret timestamp body;
        body = body;
      }

  -- what `Deliver` makes of the answer of `client.Do`
  unfoldable pub judge : Message ⊎ ℕ → ℕ × Option Message
  judge (inl e) = (0, some e)
  judge (inr status) =
      if ltb status 200 || leb 300 status
      then (status, some (h.status_error status))
      else (status, none)

  abbrev pub post : ℕ → Webhook → EventRow → Text → Option Message → ℕ × Option Message
  post n wh ev body (some e) = (0, some e)
  post n wh ev body none = judge (h.round_trip n (request_of n wh ev body))

  abbrev pub post_body : ℕ → Webhook → EventRow → Message ⊎ Text → ℕ × Option Message
  post_body n wh ev (inl e) = (0, some e)
  post_body n wh ev (inr body) = post n wh ev body (h.new_request wh.url)

  unfoldable pub deliver : ℕ → Webhook → EventRow → ℕ × Option Message
  unfolding judge sign marshal_event
  deliver n wh ev = post_body n wh ev (marshal_event ev)

-- Whether the context ends during the n-th attempt, and during the wait after it.
pub record Context : Type 0 where
  pub done_after : ℕ → Bool
  pub done_waiting : ℕ → Bool

-- The loop of `deliverWithRetry` from the n-th attempt on, with `left` attempts more to make; `none`
-- is where the event is abandoned. The number of the last attempt is returned with its outcome.
unfoldable pub attempts :
    Context → (ℕ → ℕ × Option Message) → ℕ → ℕ → Option (ℕ × (ℕ × Option Message))
attempts ctx try n zero =
    if no_error (try n) then some (n, try n) else if ctx.done_after n then none else some (n, try n)
attempts ctx try n (suc left) =
    let again = attempts ctx try (suc n) left in
    if no_error (try n)
    then some (n, try n)
    else if ctx.done_after n
    then none
    else if ctx.done_waiting n
    then none
    else again

-- Without an attempt there is no error to report.
unfoldable pub deliver_with_retry :
    Context → (ℕ → ℕ × Option Message) → ℕ → Option (ℕ × (ℕ × Option Message))
unfolding attempts
deliver_with_retry ctx try zero = some (0, (0, none))
deliver_with_retry ctx try (suc left) = attempts ctx try 1 left

abbrev pub max_error_len : ℕ
max_error_len = 500

abbrev pub error_text : Option Message → Message
error_text none = []
error_text (some e) = take max_error_len e

abbrev pub success_at : ℤ → ℤ → Option Message → ℤ
success_at old now none = now
success_at old now (some e) = old

-- The row after `recordStatus`, whose time is `now`.
unfoldable pub with_status : ℤ → ℕ × Option Message → Webhook → Webhook
with_status now (status, problem) wh = record wh {
  last_status = status;
  last_error = error_text problem;
  last_attempt_at = now;
  last_success_at = success_at wh.last_success_at now problem;
}

-- UPDATE webhooks … WHERE id = ?; the job holds the webhook as it was when the event was dispatched,
-- and so the time of its last success
unfoldable pub update_delivery_status :
    ℤ → Webhook → ℕ × Option Message → List Webhook → List Webhook
unfolding with_status
update_delivery_status now job_hook outcome [] = []
update_delivery_status now job_hook outcome (row ∷ rest) =
    (if row.id == job_hook.id
      then with_status now outcome (record row { last_success_at = job_hook.last_success_at })
      else row)
    ∷ update_delivery_status now job_hook outcome rest

-- The rows after `recordStatus`, where `refused` says that the database refuses the update, which is
-- logged and leaves them.
unfoldable pub record_status : Bool → ℤ → Webhook → ℕ × Option Message → List Webhook → List Webhook
unfolding update_delivery_status
record_status refused now job_hook outcome rows =
    if refused then rows else update_delivery_status now job_hook outcome rows

abbrev pub record_outcome :
    Bool → ℤ → Webhook → List Webhook → Option (ℕ × (ℕ × Option Message)) → List Webhook
record_outcome refused now wh rows none = rows
record_outcome refused now wh rows (some (n, outcome)) = record_status refused now wh outcome rows

-- The rows after the job's delivery, which an abandoned one leaves alone.
unfoldable pub work :
    Bool → Context → (ℕ → ℕ × Option Message) → ℕ → ℤ → Webhook → List Webhook → List Webhook
unfolding deliver_with_retry record_status
work refused ctx try max_attempts now wh rows =
    record_outcome refused now wh rows (deliver_with_retry ctx try max_attempts)

-- 30 * time.Second, in nanoseconds
abbrev pub max_delay : ℕ
max_delay = 30000000000

-- An int64 is its bit pattern, below 2 ^ 64.
abbrev pub signed64 : ℕ → ℤ
signed64 w = if ltb w (2 ^ 63) then pos w else negsuc (2 ^ 64 - w - 1)

-- the delay before the n-th retry, for the attempt n, which the loop counts from 1: `<<` drops the bits above the 64th
unfoldable pub backoff : ℕ → ℕ → ℤ
backoff base attempt =
    let delay = signed64 ((base * 2 ^ (attempt - 1)) % 2 ^ 64) in
    if int_lt (pos max_delay) delay || not (int_lt (pos 0) delay) then pos max_delay else delay

-- `Options`; a duration is in nanoseconds.
pub record Options : Type 0 where
  pub timeout : ℤ
  pub max_attempts : ℤ
  pub workers : ℤ
  pub queue_size : ℤ
  pub retry_base_delay : ℤ
  pub user_agent : Text

abbrev pub positive_or : ℕ → ℤ → ℤ
positive_or d n = if int_lt (pos 0) n then n else pos d

unfoldable pub with_defaults : Options → Options
with_defaults o = record {
  timeout = positive_or 10000000000 o.timeout;
  max_attempts = positive_or 5 o.max_attempts;
  workers = positive_or 8 o.workers;
  queue_size = positive_or 256 o.queue_size;
  retry_base_delay = positive_or 500000000 o.retry_base_delay;
  user_agent = if text_eq o.user_agent [] then codes "kasas" else o.user_agent;
}
