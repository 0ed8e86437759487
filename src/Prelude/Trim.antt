-- ===== src/Prelude/Trim.antt =====
-- strings.TrimSpace, and trimming by any test.
use kasas.Prelude.Tests.{leb, ◌==◌, if◌then◌else◌, if_elim, Bool-cases}
use kasas.Prelude.Lists.{All, length}
use Prim.Native.Nat.{ℕ, suc, ◌≤◌}
use mathlib.Core.Path.{◌≡◌, refl}
use mathlib.Core.Logic.{inl, inr}
use mathlib.Core.Bool.{Bool, false, ◌&&◌, ◌||◌}
use mathlib.Core.List.{List, [], ◌∷◌}
use native.Mathlib.Omega.{arith}

-- unicode.IsSpace: the six ASCII spaces, U+0085, U+00A0 and the property White_Space above them
unfoldable pub is_space : ℕ → Bool
is_space c =
    (leb 9 c && leb c 13)
    || c == 32
    || c == 0x85
    || c == 0xa0
    || c == 0x1680
    || (leb 0x2000 c && leb c 0x200a)
    || c == 0x2028
    || c == 0x2029
    || c == 0x202f
    || c == 0x205f
    || c == 0x3000

module _ (p : ℕ → Bool) where
  -- strings.TrimLeftFunc
  unfoldable pub trim_left : List ℕ → List ℕ
  trim_left [] = []
  trim_left (x ∷ xs) = let rest = trim_left xs in if p x then rest else x ∷ xs

  -- An element in front of a trimmed tail: it goes too if nothing is left behind it.
  abbrev pub front : ℕ → List ℕ → List ℕ
  front x [] = if p x then [] else x ∷ []
  front x (y ∷ ys) = x ∷ y ∷ ys

  -- strings.TrimRightFunc
  unfoldable pub trim_right : List ℕ → List ℕ
  trim_right [] = []
  trim_right (x ∷ xs) = front x (trim_right xs)

  unfoldable pub trim : List ℕ → List ℕ
  trim xs = trim_right (trim_left xs)

  -- The first element, if there is one, fails the test.
  abbrev pub StartsClean : List ℕ → Type 0
  StartsClean [] = Unit
  StartsClean (x ∷ _) = p x ≡ false

  trim_left-StartsClean : (xs : List ℕ) → StartsClean (trim_left xs)
  unfolding trim_left
  trim_left-StartsClean [] = tt
  trim_left-StartsClean (x ∷ xs) = elim (Bool-cases (p x)) [
    | inl e ↦ rw e (trim_left-StartsClean xs)
    | inr e ↦ rw e e
  ]

  trim_left_of_StartsClean : (xs : List ℕ) → StartsClean xs → trim_left xs ≡ xs
  unfolding trim_left
  trim_left_of_StartsClean [] h = refl
  trim_left_of_StartsClean (x ∷ xs) h = rw h

  front-StartsClean : (x : ℕ) (ys : List ℕ) → p x ≡ false → StartsClean (front x ys)
  front-StartsClean x [] h = rw h h
  front-StartsClean x (y ∷ ys) h = h

  trim_right-StartsClean : (xs : List ℕ) → StartsClean xs → StartsClean (trim_right xs)
  unfolding trim_right
  trim_right-StartsClean [] h = tt
  trim_right-StartsClean (x ∷ xs) h = front-StartsClean x (trim_right xs) h

  trim_right-front :
      (x : ℕ) (ys : List ℕ) → trim_right ys ≡ ys → trim_right (front x ys) ≡ front x ys
  unfolding trim_right
  trim_right-front x [] h = elim (Bool-cases (p x)) [ inl e ↦ rw e | inr e ↦ rw e (rw e) ]
  trim_right-front x (y ∷ ys) h = rw h

  trim_right_idem : (xs : List ℕ) → trim_right (trim_right xs) ≡ trim_right xs
  unfolding trim_right
  trim_right_idem [] = refl
  trim_right_idem (x ∷ xs) = trim_right-front x (trim_right xs) (trim_right_idem xs)

  -- Trimming twice is trimming once.
  pub trim_idem : (xs : List ℕ) → trim (trim xs) ≡ trim xs
  unfolding trim
  trim_idem xs =
      rw
        (trim_left_of_StartsClean (trim_right (trim_left xs))
          (trim_right-StartsClean (trim_left xs) (trim_left-StartsClean xs)))
        (trim_right_idem (trim_left xs))

  front-All {κ} : (P : ℕ → Type κ) (x : ℕ) (ys : List ℕ) → P x → All P ys → All P (front x ys)
  front-All P x [] h k = if_elim (All P) (p x) tt (h, tt)
  front-All P x (y ∷ ys) h k = (h, k)

  trim_right-All {κ} : (P : ℕ → Type κ) (xs : List ℕ) → All P xs → All P (trim_right xs)
  unfolding trim_right
  trim_right-All P [] h = tt
  trim_right-All P (x ∷ xs) (q, h) = front-All P x (trim_right xs) q (trim_right-All P xs h)

  trim_left-All {κ} : (P : ℕ → Type κ) (xs : List ℕ) → All P xs → All P (trim_left xs)
  unfolding trim_left
  trim_left-All P [] h = tt
  trim_left-All P (x ∷ xs) (q, h) = if_elim (All P) (p x) (trim_left-All P xs h) (q, h)

  pub trim-All {κ} : (P : ℕ → Type κ) (xs : List ℕ) → All P xs → All P (trim xs)
  unfolding trim
  trim-All P xs h = trim_right-All P (trim_left xs) (trim_left-All P xs h)

  front-length : (x : ℕ) (ys : List ℕ) → length (front x ys) ≤ suc (length ys)
  front-length x [] = ground arith
  front-length x (y ∷ ys) = omega arith

  pub trim_right-length : (xs : List ℕ) → length (trim_right xs) ≤ length xs
  unfolding trim_right
  trim_right-length [] = omega arith
  trim_right-length (x ∷ xs) = omega (arith, trim_right-length xs, front-length x (trim_right xs))

  trim_left-length : (xs : List ℕ) → length (trim_left xs) ≤ length xs
  unfolding trim_left
  trim_left-length [] = omega arith
  trim_left-length (x ∷ xs) = ground (arith, trim_left-length xs)

  pub trim-length : (xs : List ℕ) → length (trim xs) ≤ length xs
  unfolding trim
  trim-length xs = omega (arith, trim_right-length (trim_left xs), trim_left-length xs)

  trim_right_self : (xs : List ℕ) → All (λ x. p x ≡ false) xs → trim_right xs ≡ xs
  unfolding trim_right
  trim_right_self [] h = refl
  trim_right_self (x ∷ xs) (e, h) = rw (trim_right_self xs h) (front_self xs)
    where
      front_self : (ys : List ℕ) → front x ys ≡ x ∷ ys
      front_self [] = rw e
      front_self (y ∷ ys) = refl

  -- A list with nothing to trim is left as it is.
  pub trim_self : (xs : List ℕ) → All (λ x. p x ≡ false) xs → trim xs ≡ xs
  unfolding trim
  trim_self [] h = unfold trim_left trim_right in refl
  trim_self (x ∷ xs) (e, h) =
      rw (trim_left_of_StartsClean (x ∷ xs) e) (trim_right_self (x ∷ xs) (e, h))

-- strings.TrimSpace
abbrev pub trim_space : List ℕ → List ℕ
trim_space = trim is_space
