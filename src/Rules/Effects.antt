-- ===== src/Rules/Effects.antt =====
-- What applying and undoing rules does to each key.
use kasas.Prelude.{
  Bool, Bool-cases, List, [], any, arith, false, if◌then◌else◌, inl, inr, none, refl, some, subst,
  true, ◌&&◌, ◌++◌, ◌∙◌, ◌∷◌, ◌≡◌, Option, ap, if_elim,
}
use kasas.Prelude.Dict.{Dict, KeysDistinct, get, get-put, has, keys, mem, put, get-remove, remove}
use kasas.Rules.{Compiled, merge, reduce, remove_pairs, set_pairs}
use kasas.Search.Std.{SearchRecord, Std}
use kasas.Prelude.Text.{Text, text_eq, text_eq_iff}
use kasas.Search.Query.{matches}
use kasas.Labels.{value_of}

-- The value of a key depends on what the dictionary gives for it alone.
value_of-get : (m n : Dict Text) (k : Text) → get k m ≡ get k n → value_of m k ≡ value_of n k
unfolding value_of
value_of-get m n k e = ap (λ (o : Option Text). elim o [ none ↦ [] | some v ↦ v ]) e

-- One step that clears a key on the test `t`, and then the rest, which clears it on the test `rest`.
cleared-after :
    (m n : Dict Text) (k : Text) (t : Bool) (rest : Text → Bool) (x : Option Text)
    → get k n ≡ (if t then none else get k m)
    → x ≡ (if rest (value_of n k) then none else get k n)
    → x ≡ (if (if t then true else rest (value_of m k)) then none else get k m)
cleared-after m n k true rest x e h = h ∙ if_elim (λ o. o ≡ none) (rest (value_of n k)) refl e
cleared-after m n k false rest x e h = rw (← value_of-get n m k e, ← e) h

module _ (s : Std) (pairs : Compiled s → Dict Text) (r : SearchRecord s) where
  -- A matching rule has a pair for the key.
  abbrev pub sets_key : Text → Compiled s → Bool
  sets_key k c = matches s c.query r && has k (pairs c)

  -- The pairs hold the key with this value.
  abbrev pub declares : Text → Text → Dict Text → Bool
  declares k w ps = any (λ p. text_eq p.0 k && text_eq w p.1) ps

  abbrev pub sets_pair : Text → Text → Compiled s → Bool
  sets_pair k w c = matches s c.query r && declares k w (pairs c)

  set_pairs-other :
      (k : Text) (ps m : Dict Text) → has k ps ≡ false → get k (set_pairs s ps m) ≡ get k m
  unfolding set_pairs has keys mem
  set_pairs-other k [] m h = refl
  set_pairs-other k ((j, v) ∷ ps) m h = elim (Bool-cases (text_eq j k)) [
    | inl e ↦ absurd (ground arith)
    | inr e ↦ set_pairs-other k ps (put j v m) (ground arith) ∙ (get-put j k v m ∙ (rw e refl))
  ]

  set_pairs-own :
      (k v : Text) (ps m : Dict Text)
      → KeysDistinct ps
      → get k ps ≡ some v
      → get k (set_pairs s ps m) ≡ some v
  unfolding set_pairs get
  set_pairs-own k v [] m d h = cc
  set_pairs-own k v ((j, w) ∷ ps) m (n, d) h = elim (Bool-cases (text_eq j k)) [
    | inl e ↦
        let free : has k ps ≡ false = subst (λ x. has x ps ≡ false) ((text_eq_iff j k).0 e) n in
        set_pairs-other k ps (put j w m) free ∙ (get-put j k w m ∙ (rw e (rw e at h)))
    | inr e ↦ set_pairs-own k v ps (put j w m) d (rw e at h)
  ]

  pub merge-silent :
      (k : Text) (cs : List (Compiled s)) (m : Dict Text)
      → any (sets_key k) cs ≡ false
      → get k (merge s pairs cs r m) ≡ get k m
  unfolding merge
  merge-silent k [] m h = refl
  merge-silent k (c ∷ cs) m h = elim (Bool-cases (matches s c.query r)) [
    | inl e ↦ rw e (
        merge-silent k cs (set_pairs s (pairs c) m) (ground arith)
        ∙ set_pairs-other k (pairs c) m (ground arith))
    | inr e ↦ rw e (merge-silent k cs m (ground arith))
  ]

  -- Merging the rules gives a key the value that the last matching rule with the key has, and leaves
  -- a key that no matching rule has.
  pub merge-last :
      (k v : Text) (before : List (Compiled s)) (c : Compiled s) (after : List (Compiled s))
      (m : Dict Text)
      → any (sets_key k) after ≡ false
      → matches s c.query r ≡ true
      → KeysDistinct (pairs c)
      → get k (pairs c) ≡ some v
      → (get k (merge s pairs (before ++ (c ∷ after)) r m) ≡ some v)
        × (get k (merge s pairs after r m) ≡ get k m)
  unfolding merge
  merge-last k v [] c after m silent hit d g = (
    rw (merge, hit)
        (merge-silent k after (set_pairs s (pairs c) m) silent ∙ set_pairs-own k v (pairs c) m d g),
    merge-silent k after m silent,
  )
  merge-last k v (b ∷ before) c after m silent hit d g =
      ((merge-last k v before c after _ silent hit d g).0, merge-silent k after m silent)

  remove_one-get :
      (k j v : Text) (m : Dict Text)
      → get k (if text_eq (value_of m j) v then remove j m else m)
        ≡ (if text_eq j k && text_eq (value_of m k) v then none else get k m)
  remove_one-get k j v m = elim (Bool-cases (text_eq j k)) [
    | inl e ↦
        let same : j ≡ k = (text_eq_iff j k).0 e in
        let here : value_of m j ≡ value_of m k = ap (value_of m) same in
        elim (Bool-cases (text_eq (value_of m k) v)) [
          | inl q ↦ rw (here, e, q) (get-remove j k m ∙ rw e refl)
          | inr q ↦ rw (here, e, q) refl
        ]
    | inr e ↦ rw e (
        if_elim (λ n. get k n ≡ get k m) (text_eq (value_of m j) v) (get-remove j k m ∙ rw e refl)
          refl)
  ]

  remove_pairs-get :
      (k : Text) (ps m : Dict Text)
      → get k (remove_pairs s ps m) ≡ (if declares k (value_of m k) ps then none else get k m)
  unfolding remove_pairs
  remove_pairs-get k [] m = refl
  remove_pairs-get k ((j, v) ∷ ps) m =
      let next = if text_eq (value_of m j) v then remove j m else m in
      cleared-after m next k (text_eq j k && text_eq (value_of m k) v) (λ w. declares k w ps) _
        (remove_one-get k j v m) (remove_pairs-get k ps next)

  -- Reducing by the rules removes a key if a matching rule has it with the very value that it has.
  pub reduce-get :
      (k : Text) (cs : List (Compiled s)) (m : Dict Text)
      → get k (reduce s pairs cs r m)
        ≡ (if any (sets_pair k (value_of m k)) cs then none else get k m)
  unfolding reduce
  reduce-get k [] m = refl
  reduce-get k (c ∷ cs) m =
      let next = if matches s c.query r then remove_pairs s (pairs c) m else m in
      cleared-after m next k (sets_pair k (value_of m k) c) (λ w. any (sets_pair k w) cs) _
        (rule_step c) (reduce-get k cs next)
    where
      rule_step :
          (c : Compiled s)
          → get k (if matches s c.query r then remove_pairs s (pairs c) m else m)
            ≡ (if sets_pair k (value_of m k) c then none else get k m)
      rule_step c = elim (Bool-cases (matches s c.query r)) [
        | inl e ↦ rw e (remove_pairs-get k (pairs c) m)
        | inr e ↦ rw e refl
      ]
