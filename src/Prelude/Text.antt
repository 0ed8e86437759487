-- ===== src/Prelude/Text.antt =====
-- Texts: Go strings as the lists of their code points. Go orders and compares strings by their
-- UTF-8 bytes, which is the order and the equality of the code points.
use Prim.Native.Char.{code}
use Prim.Native.String.{String}
use Prim.Native.Nat.{ℕ, ◌+◌, ◌-◌}
use mathlib.Core.Path.{◌≡◌, refl}
use mathlib.Core.Logic.{◌≢◌, ◌↔◌}
use mathlib.Core.Bool.{Bool, true, false, ◌&&◌}
use mathlib.Core.Option.{Option, none, some}
use mathlib.Core.List.{List, [], ◌∷◌}
use native.Mathlib.Omega.{arith}
use kasas.Prelude.Lists.{drop, length}
use mathlib.Core.List.{map}
use kasas.Prelude.Tests.{leb, ltb, ◌==◌, if◌then◌else◌}

abbrev pub Text : Type 0
Text = List ℕ

-- The code points of a literal.
abbrev pub codes : String → Text
codes String.[] = []
codes (String.◌∷◌ c s) = code c ∷ codes s

-- a == b
unfoldable pub text_eq : Text → Text → Bool
text_eq [] [] = true
text_eq (x ∷ xs) (y ∷ ys) = if x == y then text_eq xs ys else false
text_eq _ _ = false

pub text_eq_iff : (a b : Text) → (text_eq a b ≡ true) ↔ (a ≡ b)
unfolding text_eq
text_eq_iff [] [] = (λ _. refl, λ _. refl)
text_eq_iff [] (y ∷ ys) = (λ h. cc, λ h. cc)
text_eq_iff (x ∷ xs) [] = (λ h. cc, λ h. cc)
text_eq_iff (x ∷ xs) (y ∷ ys) = ground (arith, text_eq_iff xs ys)

-- a < b, which is how `sort.Strings` and `<` order texts
unfoldable pub text_lt : Text → Text → Bool
text_lt [] [] = false
text_lt [] (y ∷ ys) = true
text_lt (x ∷ xs) [] = false
text_lt (x ∷ xs) (y ∷ ys) = if ltb x y then true else if x == y then text_lt xs ys else false

pub text_lt_irrefl : (a : Text) → text_lt a a ≡ false
unfolding text_lt
text_lt_irrefl [] = refl
text_lt_irrefl (x ∷ xs) = ground (arith, text_lt_irrefl xs)

pub text_lt_trans : (a b c : Text) → text_lt a b ≡ true → text_lt b c ≡ true → text_lt a c ≡ true
unfolding text_lt
text_lt_trans [] [] c h k = cc
text_lt_trans [] (y ∷ ys) [] h k = cc
text_lt_trans [] (y ∷ ys) (z ∷ zs) h k = refl
text_lt_trans (x ∷ xs) [] c h k = cc
text_lt_trans (x ∷ xs) (y ∷ ys) [] h k = cc
text_lt_trans (x ∷ xs) (y ∷ ys) (z ∷ zs) h k = ground (arith, text_lt_trans xs ys zs)

-- Texts that are ordered neither way are equal.
pub text_lt_total : (a b : Text) → text_lt a b ≡ false → text_lt b a ≡ false → a ≡ b
unfolding text_lt
text_lt_total [] [] h k = refl
text_lt_total [] (y ∷ ys) h k = cc
text_lt_total (x ∷ xs) [] h k = cc
text_lt_total (x ∷ xs) (y ∷ ys) h k = ground (arith, text_lt_total xs ys)

pub text_lt_asym : (a b : Text) → text_lt a b ≡ true → text_lt b a ≡ false
unfolding text_lt
text_lt_asym [] [] h = cc
text_lt_asym [] (y ∷ ys) h = refl
text_lt_asym (x ∷ xs) [] h = cc
text_lt_asym (x ∷ xs) (y ∷ ys) h = ground (arith, text_lt_asym xs ys)

-- What is not before `b`, which is not before `a`, is not before `a`.
pub text_lt_negatively :
    (a b c : Text) → text_lt b a ≡ false → text_lt c b ≡ false → text_lt c a ≡ false
unfolding text_lt
text_lt_negatively [] b [] h k = refl
text_lt_negatively [] b (z ∷ zs) h k = refl
text_lt_negatively (x ∷ xs) [] c h k = cc
text_lt_negatively (x ∷ xs) (y ∷ ys) [] h k = cc
text_lt_negatively (x ∷ xs) (y ∷ ys) (z ∷ zs) h k = ground (arith, text_lt_negatively xs ys zs)

pub ne_of_text_eq : (a b : Text) → text_eq a b ≡ false → a ≢ b
ne_of_text_eq a b h e = cc ((text_eq_iff a b).1 e)

pub text_ne_sym : (a b : Text) → text_eq a b ≡ false → text_eq b a ≡ false
text_ne_sym a b h = ground (arith, text_eq_iff a b, text_eq_iff b a)

-- strings.HasPrefix(s, p)
unfoldable pub has_prefix : Text → Text → Bool
has_prefix s [] = true
has_prefix [] (p ∷ ps) = false
has_prefix (x ∷ xs) (p ∷ ps) = if x == p then has_prefix xs ps else false

-- strings.Contains(s, sub)
unfoldable pub contains : Text → Text → Bool
unfolding has_prefix
contains [] sub = has_prefix [] sub
contains (x ∷ xs) sub = if has_prefix (x ∷ xs) sub then true else contains xs sub

-- A code point in front of the first part of a cut.
abbrev pub cons_front : ℕ → Option (Text × Text) → Option (Text × Text)
cons_front c none = none
cons_front c (some (a, b)) = some (c ∷ a, b)

-- What stands before the first place where `sep` starts, and what stands after it:
-- `s[:i]` and `s[i+len(sep):]` at `i = strings.Index(s, sep)`; `none` where that is -1.
unfoldable pub cut : Text → Text → Option (Text × Text)
unfolding has_prefix
cut sep [] = if has_prefix [] sep then some ([], []) else none
cut sep (x ∷ xs) =
    if has_prefix (x ∷ xs) sep
    then some ([], drop (length sep) (x ∷ xs))
    else cons_front x (cut sep xs)

-- unicode.ToLower and unicode.ToUpper above ASCII: tables of the Go library.
pub record CaseTable : Type 0 where
  pub lower_above : ℕ → ℕ
  pub upper_above : ℕ → ℕ

module _ (u : CaseTable) where
  unfoldable pub lower_rune : ℕ → ℕ
  lower_rune c =
      if ltb c 128 then (if leb b'A' c && leb c b'Z' then c + 32 else c) else u.lower_above c

  unfoldable pub upper_rune : ℕ → ℕ
  upper_rune c =
      if ltb c 128 then (if leb b'a' c && leb c b'z' then c - 32 else c) else u.upper_above c

  -- strings.ToLower, strings.ToUpper
  unfoldable pub to_lower : Text → Text
  to_lower = map lower_rune

  unfoldable pub to_upper : Text → Text
  to_upper = map upper_rune

-- What the program relies on in the table: a lower-case letter is its own lower case.
pub record LowersOnce (u : CaseTable) : Type 0 where
  pub lower_idem : (c : ℕ) → lower_rune u (lower_rune u c) ≡ lower_rune u c

-- The table of a program that meets only letters of ASCII above which nothing changes.
abbrev pub ascii_case : CaseTable
ascii_case = record { lower_above = λ c. c; upper_above = λ c. c }

pub ascii_case-LowersOnce : LowersOnce ascii_case
unfolding lower_rune
ascii_case-LowersOnce = record { lower_idem = λ c. ground arith }

-- The bytes of a text in UTF-8, which `len` counts.
unfoldable pub byte_length : Text → ℕ
byte_length [] = 0
byte_length (c ∷ cs) =
    (if ltb c 0x80 then 1 else if ltb c 0x800 then 2 else if ltb c 0x10000 then 3 else 4)
    + byte_length cs
