-- ===== src/Prelude/Sort.antt =====
-- Go's sort package on distinct or interchangeable elements, as an insertion sort by a test "less".
use Prim.Native.Nat.{suc}
use mathlib.Core.Path.{◌≡◌, refl}
use mathlib.Core.Logic.{inl, inr}
use mathlib.Core.Bool.{Bool, true, false}
use mathlib.Core.List.{List, [], ◌∷◌}
use native.Mathlib.Omega.{arith}
use kasas.Prelude.Tests.{if◌then◌else◌, if_elim, Bool-cases}
use kasas.Prelude.Lists.{length, All, All-map_impl, any}
use kasas.Prelude.Text.{Text, text_eq}
use kasas.Prelude.Dict.{mem}

module _ {ℓ} {A : Type ℓ} (less : A → A → Bool) where
  unfoldable pub insert_sorted : A → List A → List A
  insert_sorted a [] = a ∷ []
  insert_sorted a (x ∷ xs) = if less x a then x ∷ insert_sorted a xs else a ∷ x ∷ xs

  -- sort.Strings, sort.Slice
  unfoldable pub sort : List A → List A
  unfolding insert_sorted
  sort [] = []
  sort (x ∷ xs) = insert_sorted x (sort xs)

  pub length-insert_sorted : (a : A) (xs : List A) → length (insert_sorted a xs) ≡ suc (length xs)
  unfolding insert_sorted
  length-insert_sorted a [] = refl
  length-insert_sorted a (x ∷ xs) = ground (arith, length-insert_sorted a xs)

  pub length-sort : (xs : List A) → length (sort xs) ≡ length xs
  unfolding sort
  length-sort [] = refl
  length-sort (x ∷ xs) = omega (arith, length-sort xs, length-insert_sorted x (sort xs))

  All-insert_sorted {κ} :
      (P : A → Type κ) (a : A) (xs : List A) → P a → All P xs → All P (insert_sorted a xs)
  unfolding insert_sorted
  All-insert_sorted P a [] p h = (p, tt)
  All-insert_sorted P a (x ∷ xs) p (q, h) =
      if_elim (All P) (less x a) (q, All-insert_sorted P a xs p h) (p, (q, h))

  pub All-sort {κ} : (P : A → Type κ) (xs : List A) → All P xs → All P (sort xs)
  unfolding sort
  All-sort P [] h = tt
  All-sort P (x ∷ xs) (p, h) = All-insert_sorted P x (sort xs) p (All-sort P xs h)

  any-insert_sorted :
      (p : A → Bool) (a : A) (xs : List A)
      → any p (insert_sorted a xs) ≡ (if p a then true else any p xs)
  unfolding insert_sorted
  any-insert_sorted p a [] = refl
  any-insert_sorted p a (x ∷ xs) = ground (arith, any-insert_sorted p a xs)

  pub any-sort : (p : A → Bool) (xs : List A) → any p (sort xs) ≡ any p xs
  unfolding sort
  any-sort p [] = refl
  any-sort p (x ∷ xs) = ground (arith, any-insert_sorted p x (sort xs), any-sort p xs)

  -- No element stands before a smaller one.
  abbrev pub IsSorted : List A → Type ℓ
  IsSorted [] = Unit
  IsSorted (x ∷ xs) = All (λ y. less y x ≡ false) xs × IsSorted xs

  module _ (asymmetric : (a b : A) → less a b ≡ true → less b a ≡ false)
      (negatively : (a b c : A) → less b a ≡ false → less c b ≡ false → less c a ≡ false) where
    insert_sorted-IsSorted : (a : A) (xs : List A) → IsSorted xs → IsSorted (insert_sorted a xs)
    unfolding insert_sorted
    insert_sorted-IsSorted a [] s = (tt, tt)
    insert_sorted-IsSorted a (x ∷ xs) (h, s) = elim (Bool-cases (less x a)) [
      | inl e ↦ rw e (
        All-insert_sorted (λ y. less y x ≡ false) a xs (asymmetric x a e) h,
        insert_sorted-IsSorted a xs s,
      )
      | inr e ↦ rw e ((e, All-map_impl (λ y k. negatively a x y e k) xs h), (h, s))
    ]

    pub sort-IsSorted : (xs : List A) → IsSorted (sort xs)
    unfolding sort
    sort-IsSorted [] = tt
    sort-IsSorted (x ∷ xs) = insert_sorted-IsSorted x (sort xs) (sort-IsSorted xs)

  -- A sorted list is left as it is.
  insert_sorted_front :
      (a : A) (xs : List A) → All (λ y. less y a ≡ false) xs → insert_sorted a xs ≡ a ∷ xs
  unfolding insert_sorted
  insert_sorted_front a [] h = refl
  insert_sorted_front a (x ∷ xs) (e, h) = rw e

  pub sort_of_IsSorted : (xs : List A) → IsSorted xs → sort xs ≡ xs
  unfolding sort
  sort_of_IsSorted [] s = refl
  sort_of_IsSorted (x ∷ xs) (h, s) = rw (sort_of_IsSorted xs s) (insert_sorted_front x xs h)

module _ (less : Text → Text → Bool) where
  mem-insert_sorted :
      (k a : Text) (xs : List Text)
      → mem k (insert_sorted less a xs) ≡ (if text_eq a k then true else mem k xs)
  unfolding insert_sorted mem
  mem-insert_sorted k a [] = refl
  mem-insert_sorted k a (x ∷ xs) = ground (arith, mem-insert_sorted k a xs)

  pub mem-sort : (k : Text) (xs : List Text) → mem k (sort less xs) ≡ mem k xs
  unfolding sort mem
  mem-sort k [] = refl
  mem-sort k (x ∷ xs) = ground (arith, mem-insert_sorted k x (sort less xs), mem-sort k xs)
