-- ===== src/Webhooks/Queue.antt =====
-- The queue between the dispatcher and the workers.
pub mod Served
use kasas.Webhooks.{
  Dispatcher, Job, Turn, Webhook, consume_live, dispatch, forward_all, is_listed, list_events_after,
  matches, matches_types, next_or, replay, replay_fuel, replay_page, run, send, send_all, turn,
  wildcard, decode_event_types, event_name,
}
use kasas.Prelude.{
  Bool, Bool-cases, List, Option, [], any, arith, drop, false, if_elim, inl, inr, leb, length, ltb,
  none, refl, some, suc, true, zero, ℕ, ◌++◌, ◌+◌, ◌||◌, ◌↔◌, ◌∷◌, ◌≡◌, ◌⊎◌, sym, ◌∙◌, Option-cases,
  ap, append-nil, append_assoc, subst,
}
use kasas.Prelude.Text.{Text, text_eq, codes, text_eq_iff}
use kasas.Store.Tables.{EventRow, EventType}
use kasas.Prelude.Trim.{trim_space}
use kasas.Events.Diff.Empty.{reads}
use kasas.Search.Query.Compose.{either}

or_iff : (a b : Bool) → ((a || b) ≡ true) ↔ ((a ≡ true) ⊎ (b ≡ true))
or_iff true b = (λ h. inl refl, λ h. refl)
or_iff false b = (λ h. inr h, λ h. elim h [ inl e ↦ cc | inr e ↦ e ])

is_listed-any :
    (name : Text) (types : List Text)
    → is_listed name types
      ≡ (any (λ s. text_eq s wildcard) types || any (λ s. text_eq s name) types)
is_listed-any name [] = refl
is_listed-any name (s ∷ rest) = elim (Bool-cases (text_eq s wildcard)) [
  | inl e ↦ rw e refl
  | inr e ↦ elim (Bool-cases (text_eq s name)) [
    | inl f ↦ rw (e, f) (ground arith)
    | inr f ↦ rw (e, f) (is_listed-any name rest)
  ]
]

-- A webhook is sent the events of a type exactly if it lists no type at all, or the wildcard, or this
-- type.
matches_types_iff :
    (subscribed : List Text) (name : Text)
    → (matches_types subscribed name ≡ true) ↔ (
        (subscribed ≡ [])
        ⊎ (any (λ s. text_eq s wildcard) subscribed ≡ true)
        ⊎ (any (λ s. text_eq s name) subscribed ≡ true))
unfolding matches_types
matches_types_iff [] name = (λ h. inl refl, λ h. refl)
matches_types_iff (s ∷ rest) name =
    let listed = is_listed-any name (s ∷ rest) in
    let either =
      or_iff (any (λ s. text_eq s wildcard) (s ∷ rest)) (any (λ s. text_eq s name) (s ∷ rest)) in
    (
      λ h. inr (either.0 (sym listed ∙ h)),
      λ h. elim h [ inl e ↦ absurd (cc) | inr e ↦ listed ∙ either.1 e ],
    )

-- What a webhook is subscribed to, as its column reads: every type, where the column is blank, is not a
-- list of strings or is an empty list, and else the types that it lists, where `*` stands for every one.
abbrev pub IsSubscribed : (Text → Option (List Text)) → Webhook → EventType → Type 0
IsSubscribed unmarshal wh kind =
    (trim_space wh.event_types ≡ [])
    ⊎ (unmarshal wh.event_types ≡ none)
    ⊎ (unmarshal wh.event_types ≡ some [])
    ⊎ ((types : List Text) × (unmarshal wh.event_types ≡ some types)
        × ((any (λ s. text_eq s (codes "*")) types ≡ true)
            ⊎ (any (λ s. text_eq s (event_name kind)) types ≡ true)))

-- The jobs that an event makes of the webhooks that were read, in their order, and how many it loses:
-- one job or one loss for each subscribed webhook, and nothing for another.
pub data IsSent (unmarshal : Text → Option (List Text)) (ev : EventRow)
    : List Webhook → List Job → ℕ → Type 0 where
  no_more : IsSent unmarshal ev [] [] 0
  passes_over :
      {wh : Webhook} {hooks : List Webhook} {jobs : List Job} {n : ℕ}
      → ¬ IsSubscribed unmarshal wh ev.event_type
      → IsSent unmarshal ev hooks jobs n
      → IsSent unmarshal ev (wh ∷ hooks) jobs n
  sends :
      {wh : Webhook} {hooks : List Webhook} {jobs : List Job} {n : ℕ}
      → IsSubscribed unmarshal wh ev.event_type
      → IsSent unmarshal ev hooks jobs n
      → IsSent unmarshal ev (wh ∷ hooks) (record { hook = wh; event = ev } ∷ jobs) n
  loses :
      {wh : Webhook} {hooks : List Webhook} {jobs : List Job} {n : ℕ}
      → IsSubscribed unmarshal wh ev.event_type
      → IsSent unmarshal ev hooks jobs n
      → IsSent unmarshal ev (wh ∷ hooks) jobs (suc n)

-- The events that were dispatched, the jobs that were accepted, the count of those that were lost, and
-- the answers that are left, after some dispatches with the given answers to the reads.
pub data IsServed (unmarshal : Text → Option (List Text)) (answers : List (Option (List Webhook)))
    : List EventRow → List Job → ℕ → List (Option (List Webhook)) → Type 0 where
  nothing_yet : IsServed unmarshal answers [] [] 0 answers
  read_fails :
      {evs : List EventRow} {jobs : List Job} {n : ℕ} {later : List (Option (List Webhook))}
      (ev : EventRow)
      → IsServed unmarshal answers evs jobs n (none ∷ later)
      → IsServed unmarshal answers (evs ++ (ev ∷ [])) jobs n later
  serves :
      {evs : List EventRow} {jobs more : List Job} {n m : ℕ} {later : List (Option (List Webhook))}
      {hooks : List Webhook} (ev : EventRow)
      → IsServed unmarshal answers evs jobs n (some hooks ∷ later)
      → IsSent unmarshal ev hooks more m
      → IsServed unmarshal answers (evs ++ (ev ∷ [])) (jobs ++ more) (n + m) later
  has_none :
      {evs : List EventRow} {jobs : List Job} {n : ℕ} (ev : EventRow)
      → IsServed unmarshal answers evs jobs n []
      → IsServed unmarshal answers (evs ++ (ev ∷ [])) jobs n []

module _ (unmarshal : Text → Option (List Text)) where
  matches-list :
      (types : List Text) (raw : Text) (kind : EventType)
      → unmarshal raw ≡ some types
      → (matches_types types (event_name kind) ≡ true) ↔ (
          (unmarshal raw ≡ some [])
          ⊎ ((ts : List Text) × (unmarshal raw ≡ some ts)
              × ((any (λ s. text_eq s (codes "*")) ts ≡ true)
                  ⊎ (any (λ s. text_eq s (event_name kind)) ts ≡ true))))
  matches-list types raw kind e =
      let both = matches_types_iff types (event_name kind) in
      (
        λ h. elim (both.0 h) [
          | inl empty ↦ inl (e ∙ ap some empty)
          | inr listed ↦ inr (types, e, listed)
        ],
        λ h. elim h [
          | inl empty ↦ both.1 (inl (cc (sym e ∙ empty)))
          | inr (ts, is_ts, listed) ↦
              let same : ts ≡ types = cc (sym is_ts ∙ e) in
              both.1 (
                inr (
                  subst
                    (λ l.
                      (any (λ s. text_eq s (codes "*")) l ≡ true)
                      ⊎ (any (λ s. text_eq s (event_name kind)) l ≡ true))
                    same listed))
        ],
      )

  pub matches_iff :
      (wh : Webhook) (kind : EventType)
      → (matches unmarshal wh kind ≡ true) ↔ IsSubscribed unmarshal wh kind
  unfolding decode_event_types
  matches_iff wh kind = elim (Bool-cases (text_eq (trim_space wh.event_types) [])) [
    | inl e ↦ rw e (
      λ h. inl ((text_eq_iff (trim_space wh.event_types) []).0 e),
      λ h. unfold matches_types in refl,
    )
    | inr e ↦
        let full : ¬ (trim_space wh.event_types ≡ []) =
          λ is_nil. absurd (cc (sym e ∙ (text_eq_iff (trim_space wh.event_types) []).1 is_nil)) in
        elim (Option-cases (unmarshal wh.event_types)) [
          | inl bad ↦ rw (e, bad) (λ h. inr (inl refl), λ h. unfold matches_types in refl)
          | inr (types, good) ↦
              let list = matches-list types wh.event_types kind good in
              let opens : matches unmarshal wh kind ≡ matches_types types (event_name kind) =
                rw (e, good) refl in
              (
                λ h. inr (inr (list.0 (sym opens ∙ h))),
                λ h. elim h [
                  | inl is_nil ↦ absurd (full is_nil)
                  | inr other ↦ elim other [
                    | inl bad ↦ absurd (cc (sym bad ∙ good))
                    | inr l ↦ opens ∙ list.1 l
                  ]
                ],
              )
        ]
  ]
