-- ===== src/Search/Outcome.antt =====
-- What the stages of `search.Parse` return, and postconditions on it.
use kasas.Prelude.{◌≡◌, ◌≢◌, refl, Bool, true, false, if◌then◌else◌}

-- The messages of the errors, without the texts that they quote.
pub data Problem : Type 0 where
  unterminated_quote unexpected_rparen unexpected_input missing_rparen unexpected_operator : Problem
  unexpected_end : Problem
  empty_value empty_key invalid_pending invalid_amount empty_range invalid_date : Problem

-- `failed` is a Go error, or a `parseErr` that `Parse` recovers. `out_of_fuel` has no counterpart
-- in the program.
pub data Outcome {ℓ} (A : Type ℓ) : Type ℓ where
  ok : A → Outcome A
  failed : Problem → Outcome A
  out_of_fuel : Outcome A

infixl 5 ◌>>=◌
abbrev pub ◌>>=◌ {ℓ κ} : {A : Type ℓ} {B : Type κ} → Outcome A → (A → Outcome B) → Outcome B
ok a >>= f = f a
failed p >>= f = failed p
out_of_fuel >>= f = out_of_fuel

-- The run kept within its fuel, and `P` holds of its value if it has one.
pub data Ensures {ℓ κ} {A : Type ℓ} (P : A → Type κ) : Outcome A → Type (ℓ ⊔ κ) where
  holds : {a : A} → P a → Ensures P (ok a)
  rejected : {p : Problem} → Ensures P (failed p)

module _ {ℓ κ} {A : Type ℓ} {P : A → Type κ} where
  pub Ensures-ne_out_of_fuel : {r : Outcome A} → Ensures P r → r ≢ out_of_fuel
  Ensures-ne_out_of_fuel (holds h) = cc
  Ensures-ne_out_of_fuel rejected = cc

  -- What the second step ensures where the first one's result is as `P` says.
  pub Ensures-bind {μ ν} :
      {C : Type μ} {Q : C → Type ν} {first : Outcome A} {next : A → Outcome C}
      → Ensures P first
      → ((x : A) → P x → Ensures Q (next x))
      → Ensures Q (first >>= next)
  Ensures-bind (holds {a = x} p) k = k x p
  Ensures-bind rejected k = rejected

  pub Ensures-map {κ'} :
      {Q : A → Type κ'} {r : Outcome A} → Ensures P r → ((a : A) → P a → Q a) → Ensures Q r
  Ensures-map (holds {a} h) k = holds (k a h)
  Ensures-map rejected k = rejected

pub Ensures-if {ℓ κ} :
    {A : Type ℓ} {P : A → Type κ} (b : Bool) {x y : Outcome A}
    → Ensures P x
    → Ensures P y
    → Ensures P (if b then x else y)
Ensures-if true h k = h
Ensures-if false h k = k

-- A chain that succeeds has a first step that does.
pub >>=-eq-ok {ℓ κ} :
    {A : Type ℓ} {C : Type κ} (first : Outcome A) (next : A → Outcome C) {z : C}
    → (first >>= next) ≡ ok z
    → (x : A) × (first ≡ ok x) × (next x ≡ ok z)
>>=-eq-ok out_of_fuel next e = cc
>>=-eq-ok (failed problem) next e = cc
>>=-eq-ok (ok x) next e = (x, refl, e)
