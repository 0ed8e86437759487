-- ===== src/Events/Diff/Keys.antt =====
-- What a diff of two maps has at a key, told by the values there alone.
use kasas.Prelude.{
  Option, [], if◌then◌else◌, none, refl, some, ◌∷◌, ◌≡◌, Bool-cases, ap, false, if_elim, inl, inr,
  sym, ◌∙◌, ◌⊎◌, Option-cases,
}
use kasas.Events.Diff.{Changes, diff_maps, diff_new, diff_removed, compare_entry}
use kasas.Prelude.Text.{Text, text_eq, text_eq_iff}
use kasas.Prelude.Dict.{Dict, KeysDistinct, get, get-put, get-has, has, has-get}

module _ {A : Type 0} (text : A → Text) where
  abbrev pub added_at : Option A → Option A → Option Text
  added_at none (some v) = some (text v)
  added_at _ _ = none

  abbrev pub removed_at : Option A → Option A → Option Text
  removed_at (some v) none = some (text v)
  removed_at _ _ = none

  abbrev pub changed_at : Option A → Option A → Option (Text × Text)
  changed_at (some old) (some v) =
      if text_eq (text old) (text v) then none else some (text old, text v)
  changed_at _ _ = none

  -- The values that a diff has at a key.
  pub record TellsAt (k : Text) (prev next : Option A) (d : Changes) : Type 0 where
    pub added : get k d.added ≡ added_at prev next
    pub removed : get k d.removed ≡ removed_at prev next
    pub changed : get k d.changed ≡ changed_at prev next

  added_at-some : (old : A) (o : Option A) → added_at (some old) o ≡ none
  added_at-some old none = refl
  added_at-some old (some v) = refl

  added_at-none : (o : Option A) → added_at o none ≡ none
  added_at-none none = refl
  added_at-none (some v) = refl

  changed_at-none : (o : Option A) → changed_at none o ≡ none
  changed_at-none none = refl
  changed_at-none (some v) = refl

  no_change_at : (o : Option A) → changed_at o none ≡ none
  no_change_at none = refl
  no_change_at (some v) = refl

  removed_at-some : (v : A) (o : Option A) → removed_at o (some v) ≡ none
  removed_at-some v none = refl
  removed_at-some v (some old) = refl

  -- The value at a key of a list whose first entry is given.
  get_cons :
      {V : Type 0} (k j : Text) (v : V) (rest : Dict V)
      → ((j ≡ k) × (get k ((j, v) ∷ rest) ≡ some v))
        ⊎ ((text_eq j k ≡ false) × (get k ((j, v) ∷ rest) ≡ get k rest))
  unfolding get
  get_cons k j v rest = elim (Bool-cases (text_eq j k)) [
    | inl e ↦ inl ((text_eq_iff j k).0 e, rw e refl)
    | inr e ↦ inr (e, rw e refl)
  ]

  compare_entry-added :
      (k j : Text) (v : A) (prev : Dict A) (d : Changes) (rest next : Option A)
      → ((j ≡ k) × (next ≡ some v)) ⊎ ((text_eq j k ≡ false) × (next ≡ rest))
      → get k d.added ≡ added_at (get k prev) rest
      → (o : Option A) → get j prev ≡ o
      → get k (compare_entry text j v o d).added ≡ added_at (get k prev) next
  compare_entry-added k j v prev d rest next (inl (same, here)) h none o =
      let now : get k prev ≡ none = ap (λ x. get x prev) (sym same) ∙ o in
      rw (now, here)
        (get-put j k (text v) d.added
          ∙ ap (λ b. if b then some (text v) else get k d.added) ((text_eq_iff j k).1 same))
  compare_entry-added k j v prev d rest next (inl (same, here)) h (some old) o =
      let now : get k prev ≡ some old = ap (λ x. get x prev) (sym same) ∙ o in
      let kept = h ∙ rw now (added_at-some old rest ∙ sym (added_at-some old next)) in
      if_elim (λ (d' : Changes). get k d'.added ≡ added_at (get k prev) next)
        (text_eq (text old) (text v)) kept kept
  compare_entry-added k j v prev d rest next (inr (other, there)) h none o = rw there (
      get-put j k (text v) d.added ∙ ap (λ b. if b then some (text v) else get k d.added) other ∙ h)
  compare_entry-added k j v prev d rest next (inr (other, there)) h (some old) o = rw there (
      if_elim (λ (d' : Changes). get k d'.added ≡ added_at (get k prev) rest)
        (text_eq (text old) (text v)) h h)

  diff_new-added :
      (k : Text) (prev next : Dict A)
      → get k (diff_new text prev next).added ≡ added_at (get k prev) (get k next)
  unfolding diff_new
  diff_new-added k prev [] = unfold get in sym (added_at-none (get k prev))
  diff_new-added k prev ((j, v) ∷ rest) =
      compare_entry-added k j v prev (diff_new text prev rest) (get k rest) (get k ((j, v) ∷ rest))
        (get_cons k j v rest) (diff_new-added k prev rest) (get j prev) refl

  compare_entry-changed :
      (k j : Text) (v : A) (prev : Dict A) (d : Changes) (rest next : Option A)
      → ((j ≡ k) × (next ≡ some v)) ⊎ ((text_eq j k ≡ false) × (next ≡ rest))
      → (j ≡ k → rest ≡ none)
      → get k d.changed ≡ changed_at (get k prev) rest
      → (o : Option A) → get j prev ≡ o
      → get k (compare_entry text j v o d).changed ≡ changed_at (get k prev) next
  compare_entry-changed k j v prev d rest next (inl (same, here)) once h none o =
      let now : get k prev ≡ none = ap (λ x. get x prev) (sym same) ∙ o in
      h ∙ rw now (changed_at-none rest ∙ sym (changed_at-none next))
  compare_entry-changed k j v prev d rest next (inl (same, here)) once h (some old) o =
      let now : get k prev ≡ some old = ap (λ x. get x prev) (sym same) ∙ o in
      let empty : get k d.changed ≡ none =
        h ∙ ap (changed_at (get k prev)) (once same) ∙ no_change_at (get k prev) in
      rw (now, here)
        (elim (Bool-cases (text_eq (text old) (text v))) [
          | inl e ↦ rw e empty
          | inr e ↦ rw e (
              get-put j k (text old, text v) d.changed
              ∙ ap (λ b. if b then some (text old, text v) else get k d.changed)
                  ((text_eq_iff j k).1 same))
        ])
  compare_entry-changed k j v prev d rest next (inr (other, there)) once h none o = rw there h
  compare_entry-changed k j v prev d rest next (inr (other, there)) once h (some old) o = rw there (
      if_elim (λ (d' : Changes). get k d'.changed ≡ changed_at (get k prev) rest)
        (text_eq (text old) (text v)) h
        (get-put j k (text old, text v) d.changed
          ∙ ap (λ b. if b then some (text old, text v) else get k d.changed) other
          ∙ h))

  diff_new-changed :
      (k : Text) (prev next : Dict A)
      → KeysDistinct next
      → get k (diff_new text prev next).changed ≡ changed_at (get k prev) (get k next)
  unfolding diff_new
  diff_new-changed k prev [] h = unfold get in sym (no_change_at (get k prev))
  diff_new-changed k prev ((j, v) ∷ rest) (new, h) =
      compare_entry-changed k j v prev (diff_new text prev rest) (get k rest)
        (get k ((j, v) ∷ rest)) (get_cons k j v rest)
        (λ same. ap (λ x. get x rest) (sym same) ∙ has-get j rest new)
        (diff_new-changed k prev rest h) (get j prev) refl

  diff_removed-get :
      (k : Text) (prev next : Dict A)
      → get k (diff_removed text prev next) ≡ removed_at (get k prev) (get k next)
  unfolding diff_removed
  diff_removed-get k [] next = unfold get in refl
  diff_removed-get k ((j, v) ∷ rest) next =
      let others = diff_removed text rest next in
      let after = diff_removed-get k rest next in
      elim (get_cons k j v rest) [
        | inr (other, there) ↦ rw there (
            if_elim (λ m. get k m ≡ removed_at (get k rest) (get k next)) (has j next) after
              (get-put j k (text v) others
                ∙ ap (λ b. if b then some (text v) else get k others) other
                ∙ after))
        | inl (same, here) ↦ elim (Option-cases (get k next)) [
          | inl gone ↦
              let not_there : has j next ≡ false =
                ap (λ x. has x next) same ∙ get-has k next gone in
              rw (here, gone, not_there)
                (get-put j k (text v) others
                  ∙ ap (λ b. if b then some (text v) else get k others) ((text_eq_iff j k).1 same))
          | inr (w, found) ↦ elim (Bool-cases (has j next)) [
            | inl e ↦ rw (here, e) (after ∙ rw found (removed_at-some w (get k rest)))
            | inr e ↦ absurd (cc (sym found ∙ ap (λ x. get x next) (sym same) ∙ has-get j next e))
          ]
        ]
      ]

  -- `DiffSnapshots` on two maps: at each key it has an addition exactly if only the new map has the
  -- key, a removal exactly if only the old one has it, a change exactly if both have it with values
  -- that read differently, and then these values.
  pub diff_maps-TellsAt :
      (k : Text) (prev next : Dict A)
      → KeysDistinct next
      → TellsAt k (get k prev) (get k next) (diff_maps text prev next)
  unfolding diff_maps
  diff_maps-TellsAt k prev next h = record {
    added = diff_new-added k prev next;
    removed = diff_removed-get k prev next;
    changed = diff_new-changed k prev next h;
  }
