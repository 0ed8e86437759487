-- ===== src/Rules/Pairs.antt =====
-- Two dictionaries of the same length, one of which has each pair of the other, are the same.
use kasas.Prelude.Dict.{
  Dict, KeysDistinct, get, get-has, get-remove, has, has-get, keys, mem, remove, SameDict,
}
use kasas.Rules.{is_value, same_pairs}
use kasas.Search.Std.{Std}
use kasas.Prelude.Text.{Text, text_eq, text_eq_iff}
use kasas.Prelude.{
  All, Bool-cases, Option, [], any, ap, arith, false, if_elim, inl, inr, length, none, not, refl,
  some, subst, suc, sym, true, ◌∙◌, ◌∷◌, ◌≡◌, ◌≤◌,
}

remove-free : (k j : Text) (m : Dict Text) → has j m ≡ false → has j (remove k m) ≡ false
remove-free k j m h =
    get-has j (remove k m)
      (get-remove k j m ∙ if_elim (λ o. o ≡ none) (text_eq k j) refl (has-get j m h))

pub remove-KeysDistinct : (k : Text) (m : Dict Text) → KeysDistinct m → KeysDistinct (remove k m)
unfolding remove
remove-KeysDistinct k [] d = tt
remove-KeysDistinct k ((j, w) ∷ m) (n, d) =
    let rest = remove-KeysDistinct k m d in
    if_elim KeysDistinct (text_eq j k) rest (remove-free k j m n, rest)

pub length-remove_le : (k : Text) (m : Dict Text) → length (remove k m) ≤ length m
unfolding remove
length-remove_le k [] = omega arith
length-remove_le k ((j, w) ∷ m) = ground (arith, length-remove_le k m)

length-remove_absent : (k : Text) (m : Dict Text) → has k m ≡ false → length (remove k m) ≡ length m
unfolding remove has keys mem
length-remove_absent k [] h = refl
length-remove_absent k ((j, w) ∷ m) h = ground (arith, length-remove_absent k m)

length-remove :
    (k : Text) (m : Dict Text)
    → KeysDistinct m
    → has k m ≡ true
    → suc (length (remove k m)) ≡ length m
unfolding remove has keys mem
length-remove k [] d h = cc
length-remove k ((j, w) ∷ m) (n, d) h = elim (Bool-cases (text_eq j k)) [
  | inl e ↦
      let free : has k m ≡ false = subst (λ x. has x m ≡ false) ((text_eq_iff j k).0 e) n in
      rw e (ap suc (length-remove_absent k m free))
  | inr e ↦ rw e (ap suc (length-remove k m d (rw e at h)))
]

-- Each pair of the one is a pair of the other.
abbrev IsWithin : Dict Text → Dict Text → Type 0
IsWithin a b = All (λ p. get p.0 b ≡ some p.1) a

remove-IsWithin :
    (k : Text) (a b : Dict Text) → has k a ≡ false → IsWithin a b → IsWithin a (remove k b)
unfolding has keys mem
remove-IsWithin k [] b n h = tt
remove-IsWithin k ((j, w) ∷ a) b n (p, h) =
    let apart : text_eq k j ≡ false = ground (arith, text_eq_iff k j, text_eq_iff j k) in
    let free : has k a ≡ false = ground arith in
    (get-remove k j b ∙ rw apart p, remove-IsWithin k a b free h)

IsWithin-SameDict :
    (a b : Dict Text)
    → KeysDistinct a
    → KeysDistinct b
    → length a ≡ length b
    → IsWithin a b
    → SameDict a b
unfolding get
IsWithin-SameDict [] [] d f l h j = refl
IsWithin-SameDict [] (q ∷ b) d f l h j = absurd (omega arith)
IsWithin-SameDict ((k, v) ∷ a) b (n, d) f l (p, h) j =
    let there : has k b ≡ true = elim (Bool-cases (has k b)) [
      | inl e ↦ e
      | inr e ↦ absurd (cc (sym p ∙ has-get k b e))
    ] in
    let shorter : length a ≡ length (remove k b) = omega (arith, length-remove k b f there, l) in
    let rest =
      IsWithin-SameDict a (remove k b) d (remove-KeysDistinct k b f) shorter
        (remove-IsWithin k a b n h) j in
    elim (Bool-cases (text_eq k j)) [
      | inl e ↦ rw e (sym (subst (λ x. get x b ≡ some v) ((text_eq_iff k j).0 e) p))
      | inr e ↦ rw e (rest ∙ (get-remove k j b ∙ rw e refl))
    ]

module _ (s : Std) where
  is_value-get : (v : Text) (found : Option Text) → is_value s v found ≡ true → found ≡ some v
  is_value-get v none h = cc
  is_value-get v (some w) h = sym (ap some ((text_eq_iff v w).0 h))

  same_pairs-IsWithin :
      (a b : Dict Text) → any (λ p. not (is_value s p.1 (get p.0 b))) a ≡ false → IsWithin a b
  same_pairs-IsWithin [] b h = tt
  same_pairs-IsWithin ((k, v) ∷ a) b h =
      (is_value-get v (get k b) (ground arith), same_pairs-IsWithin a b (ground arith))

  -- What the code takes for the same set is the same, as the keys of both are distinct.
  pub same_pairs-SameDict :
      (a b : Dict Text) → KeysDistinct a → KeysDistinct b → same_pairs s a b ≡ true → SameDict a b
  unfolding same_pairs
  same_pairs-SameDict a b d f h =
      IsWithin-SameDict a b d f (ground arith) (same_pairs-IsWithin a b (ground arith))
