-- ===== src/Csv/Amounts.antt =====
-- The texts that `cleanAmount` gives.
-- A sign or none, and then digits and points, of which one at least is a digit.
use kasas.Prelude.{
  All, Bool, Bool-cases, [], any, false, if◌then◌else◌, inl, inr, keep, keep-All, not, refl, some,
  subst, sym, true, ℕ, ◌==◌, ◌||◌, ◌∷◌, ◌≡◌, All-map_impl, arith, keep_self, ◌&&◌, ◌∙◌,
}
use kasas.Prelude.Text.{Text, text_eq}
use kasas.Prelude.Trim.{is_space, trim_self, trim_space}
use kasas.Csv.Clean.{
  clean_amount, clean_digits, ends_with, is_amount_rune, minus, starts_with, strip_ends, with_sign,
}

pub record IsAmountText (r : Text) : Type 0 where
  pub negative : Bool
  pub digits : Text
  pub signed : r ≡ (if negative then minus ∷ digits else digits)
  pub runes : All (λ c. is_amount_rune c ≡ true) digits
  pub some_digit : any (λ c. not (c == b'.')) digits ≡ true

with_sign-IsAmountText :
    (neg : Bool) (s r : Text)
    → All (λ c. is_amount_rune c ≡ true) s
    → with_sign neg s ≡ some r
    → IsAmountText r
with_sign-IsAmountText neg s r runes h = elim (Bool-cases (any (λ c. not (c == b'.')) s)) [
  | inl e ↦
      let given : (if neg then minus ∷ s else s) ≡ r = cc (rw e at h) in
      record { negative = neg; digits = s; signed = sym given; runes = runes; some_digit = e }
  | inr e ↦ absurd (cc (rw e at h))
]

clean_digits-IsAmountText : (neg : Bool) (s r : Text) → clean_digits neg s ≡ some r → IsAmountText r
unfolding clean_digits
clean_digits-IsAmountText neg s r h =
    with_sign-IsAmountText (neg || any (λ c. c == minus) s) (keep is_amount_rune s) r
      (keep-All is_amount_rune s) h

-- What `cleanAmount` accepts it turns into a sign or none, followed by digits and points, of which one
-- at least is a digit.
pub clean_amount-IsAmountText : (s r : Text) → clean_amount s ≡ some r → IsAmountText r
unfolding clean_amount
clean_amount-IsAmountText s r h =
    let t = trim_space s in
    elim (Bool-cases (text_eq t [])) [
      | inl e ↦ absurd (cc (rw e at h))
      | inr e ↦ elim (Bool-cases (starts_with b'(' t && ends_with b')' t)) [
        | inl f ↦ clean_digits-IsAmountText true (strip_ends t) r (rw (e, f) at h)
        | inr f ↦ clean_digits-IsAmountText false t r (rw (e, f) at h)
      ]
    ]

plain_rune :
    (c : ℕ)
    → is_amount_rune c ≡ true
    → (is_space c ≡ false) × (c == minus ≡ false) × (c == b'(' ≡ false)
unfolding is_space
plain_rune c h = (ground arith, ground arith, ground arith)

no_minus : (s : Text) → All (λ c. is_amount_rune c ≡ true) s → any (λ c. c == minus) s ≡ false
no_minus [] h = refl
no_minus (c ∷ s) (p, h) = rw ((plain_rune c p).1) (no_minus s h)

no_space : (s : Text) → All (λ c. is_amount_rune c ≡ true) s → All (λ c. is_space c ≡ false) s
no_space s h = All-map_impl (λ c p. (plain_rune c p).0) s h

-- A text that is not trimmed and does not start with a parenthesis.
clean_amount-clean_digits :
    (c : ℕ) (s : Text)
    → All (λ x. is_space x ≡ false) (c ∷ s)
    → (c == b'(') ≡ false
    → clean_amount (c ∷ s) ≡ clean_digits false (c ∷ s)
unfolding clean_amount text_eq
clean_amount-clean_digits c s clean bare = rw (trim_self is_space (c ∷ s) clean) (rw bare refl)

keep_amount_runes : (s : Text) → All (λ c. is_amount_rune c ≡ true) s → keep is_amount_rune s ≡ s
keep_amount_runes s h = keep_self is_amount_rune s h

clean_amount-digits :
    (neg : Bool) (s : Text)
    → All (λ c. is_amount_rune c ≡ true) s
    → any (λ c. not (c == b'.')) s ≡ true
    → clean_amount (if neg then minus ∷ s else s) ≡ some (if neg then minus ∷ s else s)
clean_amount-digits true s h k =
    clean_amount-clean_digits minus s (unfold is_space in refl, no_space s h) refl
    ∙ unfold clean_digits in rw (keep_amount_runes s h, k) refl
clean_amount-digits false [] h k = cc
clean_amount-digits false (c ∷ s) (p, h) k =
    clean_amount-clean_digits c s (no_space (c ∷ s) (p, h)) ((plain_rune c p).2)
    ∙ unfold clean_digits in rw (keep_amount_runes (c ∷ s) (p, h), no_minus (c ∷ s) (p, h), k) refl

-- Cleaning an amount again changes nothing.
pub clean_amount_idem : (s r : Text) → clean_amount s ≡ some r → clean_amount r ≡ some r
clean_amount_idem s r h =
    let t = clean_amount-IsAmountText s r h in
    subst (λ x. clean_amount x ≡ some x) (sym t.signed)
      (clean_amount-digits t.negative t.digits t.runes t.some_digit)
