-- ===== src/Events/Diff/Empty.antt =====
-- When a diff is empty.
use kasas.Prelude.{
  All, Bool-cases, List, Option, [], ap, inl, inr, keep, none, refl, some, sym, true, ◌↔◌, ◌∙◌, ◌∷◌,
  ◌≡◌, if◌then◌else◌, Bool, false, subst, ◌⊎◌,
}
use kasas.Events.Diff.{
  Changes, FieldChange, Renderer, candidates, diff_maps, diff_snapshots, differs, same_text,
  stringify_ext, fmt_diff_time, format_bool, zero_time,
}
use kasas.Prelude.Text.{Text, text_eq, text_eq_iff}
use kasas.Prelude.Dict.{Dict, KeysDistinct, get}
use kasas.Events.Codec.{TransactionPayload}
use kasas.Events.Diff.Keys.{added_at, changed_at, diff_maps-TellsAt, removed_at}
use kasas.Prelude.Int.{int_eq, int_eq_iff, ℤ}

module _ {A : Type 0} (text : A → Text) where
  -- How a value reads, where there is one.
  abbrev pub reads : Option A → Option Text
  reads none = none
  reads (some v) = some (text v)

  pub record NoChanges (d : Changes) : Type 0 where
    pub added : d.added ≡ []
    pub removed : d.removed ≡ []
    pub changed : d.changed ≡ []

  reads_same :
      (a b : Option A)
      → added_at text a b ≡ none
      → removed_at text a b ≡ none
      → changed_at text a b ≡ none
      → reads a ≡ reads b
  reads_same none none p q r = refl
  reads_same none (some v) p q r = cc
  reads_same (some v) none p q r = cc
  reads_same (some v) (some w) p q r = elim (Bool-cases (text_eq (text v) (text w))) [
    | inl e ↦ ap some ((text_eq_iff (text v) (text w)).0 e)
    | inr e ↦ absurd (cc (rw e at r))
  ]

  tells_nothing :
      (a b : Option A)
      → reads a ≡ reads b
      → (added_at text a b ≡ none) × (removed_at text a b ≡ none) × (changed_at text a b ≡ none)
  tells_nothing none none h = (refl, refl, refl)
  tells_nothing none (some v) h = cc
  tells_nothing (some v) none h = cc
  tells_nothing (some v) (some w) h =
      let same : text_eq (text v) (text w) ≡ true = (text_eq_iff (text v) (text w)).1 (cc h) in
      (refl, refl, rw same refl)

  get-nil : {V : Type 0} (k : Text) → get {V = V} k [] ≡ none
  unfolding get
  get-nil k = refl

  nil-get : {V : Type 0} (m : Dict V) → ((k : Text) → get k m ≡ none) → m ≡ []
  unfolding get
  nil-get [] h = refl
  nil-get ((k, v) ∷ m) h =
      let own : text_eq k k ≡ true = (text_eq_iff k k).1 refl in
      let first : (if text_eq k k then some v else get k m) ≡ none = h k in
      absurd (cc (rw own at first))

  -- A diff of two maps is empty exactly if they have the same keys, with values that read the same.
  pub diff_maps-NoChanges :
      (prev next : Dict A)
      → KeysDistinct next
      → NoChanges (diff_maps text prev next)
        ↔ ((k : Text) → reads (get k prev) ≡ reads (get k next))
  diff_maps-NoChanges prev next distinct = (
    λ h k.
        let at = diff_maps-TellsAt text k prev next distinct in
        reads_same (get k prev) (get k next) (sym at.added ∙ ap (get k) h.added ∙ get-nil k)
          (sym at.removed ∙ ap (get k) h.removed ∙ get-nil k)
          (sym at.changed ∙ ap (get k) h.changed ∙ get-nil k),
    λ same. record {
      added = nil-get _ (λ k.
          (diff_maps-TellsAt text k prev next distinct).added ∙ (tells_nothing _ _ (same k)).0);
      removed = nil-get _ (λ k.
          (diff_maps-TellsAt text k prev next distinct).removed ∙ (tells_nothing _ _ (same k)).1);
      changed = nil-get _ (λ k.
          (diff_maps-TellsAt text k prev next distinct).changed ∙ (tells_nothing _ _ (same k)).2);
    },
  )

keep-differs_nil : (cs : List FieldChange) → (keep differs cs ≡ []) ↔ All (λ c. c.from ≡ c.to) cs
keep-differs_nil [] = (λ h. tt, λ h. refl)
keep-differs_nil (c ∷ cs) =
    let rest = keep-differs_nil cs in
    let same = text_eq_iff c.from c.to in
    elim (Bool-cases (text_eq c.from c.to)) [
      | inl e ↦ rw e (λ h. (same.0 e, rest.0 h), λ (p, h). rest.1 h)
      | inr e ↦ rw e (λ h. cc, λ (p, h). absurd (cc (sym e ∙ same.1 p)))
    ]

-- How a history shows a date: the zero time as nothing, and any other as time.Format does.
abbrev pub IsShown : {V : Type 0} → Renderer V → ℤ → Text → Type 0
IsShown r t shown = ((t ≡ zero_time) × (shown ≡ [])) ⊎ (¬ (t ≡ zero_time) × (shown ≡ r.format t))

-- Two versions that agree in all scalar fields, the dates as a history shows them, in their labels, and
-- in their extensions, as text.
pub record Agree {V : Type 0} (r : Renderer V) (prev next : TransactionPayload V) : Type 0 where
  pub account_id : prev.account_id ≡ next.account_id
  pub amount : prev.amount ≡ next.amount
  pub pending : prev.pending ≡ next.pending
  pub date : (shown : Text) × IsShown r prev.date shown × IsShown r next.date shown
  pub description : prev.description ≡ next.description
  pub payee : prev.payee ≡ next.payee
  pub memo : prev.memo ≡ next.memo
  pub labels : (k : Text) → get k prev.labels ≡ get k next.labels
  pub extensions :
      (k : Text)
      → reads (stringify_ext r) (get k prev.extensions)
        ≡ reads (stringify_ext r) (get k next.extensions)

fmt_diff_time-IsShown : {V : Type 0} (r : Renderer V) (t : ℤ) → IsShown r t (fmt_diff_time r t)
unfolding fmt_diff_time
fmt_diff_time-IsShown r t =
    let same = int_eq_iff t zero_time in
    elim (Bool-cases (int_eq t zero_time)) [
      | inl e ↦ rw e (inl (same.0 e, refl))
      | inr e ↦ rw e (inr ((λ z. absurd (cc (sym e ∙ same.1 z))), refl))
    ]

IsShown-unique :
    {V : Type 0} (r : Renderer V) (t : ℤ) (a b : Text) → IsShown r t a → IsShown r t b → a ≡ b
IsShown-unique r t a b (inl (z, is_a)) (inl (y, is_b)) = is_a ∙ sym is_b
IsShown-unique r t a b (inl (z, is_a)) (inr (y, is_b)) = absurd (y z)
IsShown-unique r t a b (inr (z, is_a)) (inl (y, is_b)) = absurd (z y)
IsShown-unique r t a b (inr (z, is_a)) (inr (y, is_b)) = is_a ∙ sym is_b

same_format : (a b : Bool) → format_bool a ≡ format_bool b → a ≡ b
same_format true true h = refl
same_format true false h = cc
same_format false true h = cc
same_format false false h = refl

reads-same_text : (a b : Option Text) → (reads same_text a ≡ reads same_text b) ↔ (a ≡ b)
reads-same_text none none = (λ h. refl, λ h. refl)
reads-same_text none (some t) = (λ h. cc, λ h. cc)
reads-same_text (some t) none = (λ h. cc, λ h. cc)
reads-same_text (some t) (some u) = (λ h. h, λ h. h)

candidates-Agree :
    {V : Type 0} (r : Renderer V) (prev next : TransactionPayload V)
    → All (λ c. c.from ≡ c.to) (candidates r prev next)
    → ((k : Text) → reads same_text (get k prev.labels) ≡ reads same_text (get k next.labels))
    → ((k : Text)
        → reads (stringify_ext r) (get k prev.extensions)
          ≡ reads (stringify_ext r) (get k next.extensions))
    → Agree r prev next
candidates-Agree r prev next
      (account, (amount, (pending, (date, (description, (payee, (memo, _))))))) ls xs =
    record {
      account_id = account;
      amount = amount;
      pending = same_format prev.pending next.pending pending;
      date = (
        fmt_diff_time r prev.date,
        fmt_diff_time-IsShown r prev.date,
        subst (IsShown r next.date) (sym date) (fmt_diff_time-IsShown r next.date),
      );
      description = description;
      payee = payee;
      memo = memo;
      labels = λ k. (reads-same_text (get k prev.labels) (get k next.labels)).0 (ls k);
      extensions = xs;
    }

Agree-candidates :
    {V : Type 0} (r : Renderer V) (prev next : TransactionPayload V)
    → Agree r prev next
    → All (λ c. c.from ≡ c.to) (candidates r prev next)
Agree-candidates r prev next h =
    let (shown, before, after) = h.date in
    let one =
      IsShown-unique r prev.date (fmt_diff_time r prev.date) shown
        (fmt_diff_time-IsShown r prev.date) before in
    let two =
      IsShown-unique r next.date (fmt_diff_time r next.date) shown
        (fmt_diff_time-IsShown r next.date) after in
    let date : fmt_diff_time r prev.date ≡ fmt_diff_time r next.date = one ∙ sym two in
    (
      h.account_id,
      (h.amount, (ap format_bool h.pending, (date, (h.description, (h.payee, (h.memo, tt)))))),
    )

-- `DiffSnapshots` has nothing to tell exactly if the two versions agree. The keys of the next version's
-- maps are distinct, as a Go map's are.
pub diff_snapshots-NoChanges :
    {V : Type 0} (r : Renderer V) (prev next : TransactionPayload V)
    → KeysDistinct next.labels
    → KeysDistinct next.extensions
    → ((diff_snapshots r prev next).fields ≡ []
        × NoChanges same_text (diff_snapshots r prev next).labels
        × NoChanges (stringify_ext r) (diff_snapshots r prev next).extensions)
      ↔ Agree r prev next
unfolding diff_snapshots
diff_snapshots-NoChanges r prev next ls xs =
    let labels = diff_maps-NoChanges same_text prev.labels next.labels ls in
    let extensions = diff_maps-NoChanges (stringify_ext r) prev.extensions next.extensions xs in
    let fields = keep-differs_nil (candidates r prev next) in
    (
      λ (f, l, x). candidates-Agree r prev next (fields.0 f) (labels.0 l) (extensions.0 x),
      λ h. (
        fields.1 (Agree-candidates r prev next h),
        labels.1 (λ k. (reads-same_text (get k prev.labels) (get k next.labels)).1 (h.labels k)),
        extensions.1 h.extensions,
      ),
    )
