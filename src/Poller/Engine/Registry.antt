-- ===== src/Poller/Engine/Registry.antt =====
-- The registry of pollers is sound after any sequence of its operations.
use kasas.Prelude.{
  All, List, [], arith, false, if_elim, if◌then◌else◌, refl, true, ◌++◌, ◌∙◌, ◌∷◌, ◌≡◌, Bool-cases,
  Option, ap, inl, inr, none, some, subst, sym, All-map_impl,
}
use kasas.Prelude.Dict.{Dict, has, keys, mem, remove, All-put, get, has-put, put}
use kasas.Poller.Engine.{
  Engine, add_poller, drop_first, or_kept, remove_poller, Call, adds, call, new_engine,
  register_all, removes, run_calls, without, register_new,
}
use kasas.Prelude.Text.{Text, text_eq, text_eq_iff}

mem-append :
    (j k : Text) (xs : List Text)
    → mem j (xs ++ (k ∷ [])) ≡ (if text_eq k j then true else mem j xs)
unfolding mem
mem-append j k [] = refl
mem-append j k (x ∷ xs) = ground (arith, mem-append j k xs)

-- No text stands twice.
abbrev pub NoRepeat : List Text → Type 0
NoRepeat [] = Unit
NoRepeat (t ∷ ts) = (mem t ts ≡ false) × NoRepeat ts

NoRepeat-append :
    (k : Text) (xs : List Text) → mem k xs ≡ false → NoRepeat xs → NoRepeat (xs ++ (k ∷ []))
unfolding mem
NoRepeat-append k [] h d = (refl, tt)
NoRepeat-append k (x ∷ xs) h (new, d) =
    let apart : text_eq k x ≡ false = ground (arith, text_eq_iff k x, text_eq_iff x k) in
    let rest : mem k xs ≡ false = ground arith in
    (mem-append x k xs ∙ rw apart new, NoRepeat-append k xs rest d)

module _ {P : Type 0} (type_of : P → Text) where
  -- The order has each registered type once, and each poller is registered under its own type.
  pub record IsRegistry (e : Engine type_of) : Type 0 where
    pub distinct : NoRepeat e.order
    pub registered : (t : Text) → mem t e.order ≡ has t e.pollers
    pub own_type : All (λ x. type_of x.1 ≡ x.0) e.pollers

  has-remove :
      (k j : Text) (m : Dict P) → has j (remove k m) ≡ (if text_eq k j then false else has j m)
  unfolding has keys mem remove
  has-remove k j [] = ground arith
  has-remove k j ((i, w) ∷ m) =
      ground (arith, text_eq_iff k j, text_eq_iff i k, text_eq_iff i j, has-remove k j m)

  All-remove : (Q : Text × P → Type 0) (k : Text) (m : Dict P) → All Q m → All Q (remove k m)
  unfolding remove
  All-remove Q k [] h = tt
  All-remove Q k ((i, w) ∷ m) (q, h) =
      if_elim (All Q) (text_eq i k) (All-remove Q k m h) (q, All-remove Q k m h)

  mem-drop_first :
      (k j : Text) (xs : List Text)
      → NoRepeat xs
      → mem j (drop_first type_of k xs) ≡ (if text_eq k j then false else mem j xs)
  unfolding mem
  mem-drop_first k j [] h = ground arith
  mem-drop_first k j (x ∷ xs) (new, d) = elim (Bool-cases (text_eq x k)) [
    | inl e ↦ elim (Bool-cases (text_eq k j)) [
      | inl f ↦
          let same : x ≡ j = (text_eq_iff x k).0 e ∙ (text_eq_iff k j).0 f in
          rw (e, f) (subst (λ y. mem y xs ≡ false) same new)
      | inr f ↦
          let apart : text_eq x j ≡ false =
            ground (arith, text_eq_iff x k, text_eq_iff k j, text_eq_iff x j) in
          rw (e, f, apart) refl
    ]
    | inr e ↦
        ground (arith, text_eq_iff k j, text_eq_iff x k, text_eq_iff x j, mem-drop_first k j xs d)
  ]

  drop_first-NoRepeat :
      (k : Text) (xs : List Text) → NoRepeat xs → NoRepeat (drop_first type_of k xs)
  drop_first-NoRepeat k [] h = tt
  drop_first-NoRepeat k (x ∷ xs) (new, d) = elim (Bool-cases (text_eq x k)) [
    | inl e ↦ rw e d
    | inr e ↦
        let apart : text_eq k x ≡ false = ground (arith, text_eq_iff k x, text_eq_iff x k) in
        rw e (mem-drop_first k x xs d ∙ rw apart new, drop_first-NoRepeat k xs d)
  ]

  fresh-IsRegistry :
      (p : P) (e : Engine type_of)
      → IsRegistry e
      → has (type_of p) e.pollers ≡ false
      → IsRegistry
          (record { pollers = put (type_of p) p e.pollers; order = e.order ++ (type_of p ∷ []) })
  fresh-IsRegistry p e h fresh = record {
    distinct = NoRepeat-append (type_of p) e.order (h.registered (type_of p) ∙ fresh) h.distinct;
    registered = λ t.
        mem-append t (type_of p) e.order
        ∙ ap (λ b. if text_eq (type_of p) t then true else b) (h.registered t)
        ∙ sym (has-put (type_of p) t p e.pollers);
    own_type = All-put (λ k v. type_of v ≡ k) (type_of p) p e.pollers refl h.own_type;
  }

  add_poller-IsRegistry :
      (p : P) (e : Engine type_of) → IsRegistry e → IsRegistry (add_poller type_of p e).1
  unfolding add_poller
  add_poller-IsRegistry p e h = elim (Bool-cases (has (type_of p) e.pollers)) [
    | inl there ↦ rw there (record {
      distinct = h.distinct;
      registered = λ t. h.registered t ∙ elim (Bool-cases (text_eq (type_of p) t)) [
        | inl same ↦
            let here : has t e.pollers ≡ true =
              ap (λ x. has x e.pollers) (sym ((text_eq_iff (type_of p) t).0 same)) ∙ there in
            here ∙ sym (has-put (type_of p) t p e.pollers ∙ rw same refl)
        | inr other ↦ sym (has-put (type_of p) t p e.pollers ∙ rw other refl)
      ];
      own_type = All-put (λ k v. type_of v ≡ k) (type_of p) p e.pollers refl h.own_type;
    })
    | inr fresh ↦ rw fresh (fresh-IsRegistry p e h fresh)
  ]

  without-IsRegistry :
      (t : Text) (e : Engine type_of)
      → IsRegistry e
      → (found : Option P) → IsRegistry (or_kept type_of e (without type_of t e found))
  without-IsRegistry t e h none = h
  without-IsRegistry t e h (some p) = record {
    distinct = drop_first-NoRepeat t e.order h.distinct;
    registered = λ u.
        mem-drop_first t u e.order h.distinct
        ∙ ap (λ b. if text_eq t u then false else b) (h.registered u)
        ∙ sym (has-remove t u e.pollers);
    own_type = All-remove (λ x. type_of x.1 ≡ x.0) t e.pollers h.own_type;
  }

  remove_poller-IsRegistry :
      (t : Text) (e : Engine type_of)
      → IsRegistry e
      → IsRegistry (or_kept type_of e (remove_poller type_of t e))
  unfolding remove_poller
  remove_poller-IsRegistry t e h = without-IsRegistry t e h (get t e.pollers)

  call-IsRegistry :
      (e : Engine type_of) (c : Call type_of) → IsRegistry e → IsRegistry (call type_of e c)
  call-IsRegistry e (adds p) h = add_poller-IsRegistry p e h
  call-IsRegistry e (removes t) h = remove_poller-IsRegistry t e h

  calls-IsRegistry :
      (e : Engine type_of) (calls : List (Call type_of))
      → IsRegistry e
      → IsRegistry (run_calls type_of e calls)
  unfolding run_calls
  calls-IsRegistry e [] h = h
  calls-IsRegistry e (c ∷ rest) h = calls-IsRegistry (call type_of e c) rest (call-IsRegistry e c h)

  register_all-IsRegistry :
      (e : Engine type_of) (ps : List P) → IsRegistry e → IsRegistry (register_all type_of e ps)
  register_all-IsRegistry e [] h = h
  register_all-IsRegistry e (p ∷ rest) h =
      register_all-IsRegistry (register_new type_of e p) rest
        (elim (Bool-cases (has (type_of p) e.pollers)) [
          | inl there ↦ rw there h
          | inr fresh ↦ rw fresh (fresh-IsRegistry p e h fresh)
        ])

  -- A member of a list, as the list tells it.
  pub All-mem : (xs : List Text) → All (λ t. mem t xs ≡ true) xs
  unfolding mem
  All-mem [] = tt
  All-mem (x ∷ xs) = (
    rw ((text_eq_iff x x).1 refl) refl,
    All-map_impl (λ t h. if_elim (λ b. b ≡ true) (text_eq x t) refl h) xs (All-mem xs),
  )

  -- After any calls of `AddPoller` and `RemovePoller` on a new engine, the registry is sound.
  pub run_calls-IsRegistry :
      (ps : List P) (calls : List (Call type_of))
      → IsRegistry (run_calls type_of (new_engine type_of ps) calls)
  unfolding new_engine
  run_calls-IsRegistry ps calls =
      calls-IsRegistry (register_all type_of (record { pollers = []; order = [] }) ps) calls (
        register_all-IsRegistry (record { pollers = []; order = [] }) ps
          (record { distinct = tt; registered = λ t. unfold mem has keys in refl; own_type = tt }))
