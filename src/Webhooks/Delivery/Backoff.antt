-- ===== src/Webhooks/Delivery/Backoff.antt =====
-- The delay between two attempts, in 64-bit arithmetic.
use native.Mathlib.Nat.{mul-le-mul, pow-le-pow_right, pow-suc, one-le-pow, mul_assoc}
use Prim.Native.Nat.{min, ◌%◌, ◌^◌}
use kasas.Prelude.{
  arith, suc, ℕ, ◌*◌, ◌-◌, ◌<◌, ◌≡◌, ◌≤◌, if◌then◌else◌, leb, ltb, not, refl, zero, ◌&&◌, ◌+◌, ◌||◌,
  Bool-cases, ap, inl, inr, ◌∙◌, leb→lt, subst, sym,
}
use kasas.Prelude.Int.{pos, int_lt}
use kasas.Webhooks.Delivery.{backoff, max_delay, signed64}

pow_split : (m : ℕ) → 2 ^ (m + 35) ≡ 2 ^ m * 34359738368
pow_split zero = refl
pow_split (suc m) =
    let shifted : suc m + 35 ≡ suc (m + 35) = omega arith in
    ap (λ i. 2 ^ i) shifted ∙ omega (arith, pow_split m, pow-suc 2 (m + 35), pow-suc 2 m)

-- A pattern whose low bits are all 0 stands for no small positive number.
low_zeros :
    (x : ℕ)
    → (0 < (x * 34359738368) % 18446744073709551616)
    → 34359738368 ≤ (x * 34359738368) % 18446744073709551616
low_zeros x h = omega arith

pow_small : (k : ℕ) → k ≤ 34 → 2 ^ k ≤ 17179869184
pow_small k h = pow-le-pow_right (omega arith) h

product_le : (a b c d : ℕ) → a ≤ c → b ≤ d → a * b ≤ c * d
product_le a b c d h k = mul-le-mul h k

-- What the two bounds make of a pattern: itself, or 30 seconds.
abbrev within : ℕ → ℕ
within w = if ltb 0 w && leb w max_delay then w else max_delay

capped :
    (w : ℕ)
    → (if int_lt (pos max_delay) (signed64 w) || not (int_lt (pos 0) (signed64 w))
        then pos max_delay
        else signed64 w)
      ≡ pos (within w)
capped w = ground arith

within_small : (x : ℕ) → 0 < x → x < 2 ^ 64 → within (x % 2 ^ 64) ≡ min x max_delay
within_small x h lt = ground arith

within_zeros :
    (y : ℕ)
    → 0 < y * 34359738368
    → within ((y * 34359738368) % 2 ^ 64) ≡ min (y * 34359738368) max_delay
within_zeros y h = ground (arith, low_zeros y)

-- Whatever the base delay and the attempt, also where the shift overflows: the delay is positive, and
-- at most 30 seconds.
pub backoff-bounds :
    (base attempt : ℕ) → (n : ℕ) × (backoff base attempt ≡ pos n) × (0 < n) × (n ≤ max_delay)
unfolding backoff
backoff-bounds base attempt = (
  within ((base * 2 ^ (attempt - 1)) % 2 ^ 64),
  capped ((base * 2 ^ (attempt - 1)) % 2 ^ 64),
  ground arith,
  ground arith,
)

-- With a base delay below 2^30 nanoseconds, a little more than a second, the overflow is never seen:
-- the delay doubles from one attempt to the next until it has reached 30 seconds.
pub backoff-doubles :
    (base k : ℕ)
    → 0 < base
    → base < 2 ^ 30
    → backoff base (suc k) ≡ pos (min (base * 2 ^ k) max_delay)
unfolding backoff
backoff-doubles base k h lt =
    let same : suc k - 1 ≡ k = omega arith in
    let grown : 0 < base * 2 ^ k = mul-le-mul h (one-le-pow k 2 (omega arith)) in
    capped ((base * 2 ^ (suc k - 1)) % 2 ^ 64)
    ∙ ap (λ i. pos (within ((base * 2 ^ i) % 2 ^ 64))) same
    ∙ ap pos (elim (Bool-cases (leb k 34)) [
      | inl e ↦
          let bound : base ≤ 1073741823 = omega arith in
          within_small (base * 2 ^ k) grown
            (omega (arith, mul-le-mul bound (pow_small k (ground arith))))
      | inr e ↦
          let back : k ≡ (k - 35) + 35 = omega (arith, leb→lt k 34 e) in
          let zeros : base * 2 ^ k ≡ base * 2 ^ (k - 35) * 34359738368 =
            ap (λ i. base * 2 ^ i) back
            ∙ ap (λ p. base * p) (pow_split (k - 35))
            ∙ sym (mul_assoc base (2 ^ (k - 35)) 34359738368) in
          subst (λ x. within (x % 2 ^ 64) ≡ min x max_delay) (sym zeros)
            (within_zeros (base * 2 ^ (k - 35)) (subst (λ x. 0 < x) zeros grown))
    ])
