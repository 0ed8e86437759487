-- ===== src/Search/Parser/Total.antt =====
-- The fuel of `parse_tokens` always suffices, and every call takes at least a token.
use kasas.Prelude.{
  Bool, List, [], arith, false, length, not, refl, suc, zero, ℕ, ◌*◌, ◌+◌, ◌<◌, ◌∷◌, ◌≢◌, ◌≤◌,
}
use kasas.Search.Parser.{
  Node, Parsed, and_node, close, finish, or_node, parse_and, parse_and_loop, parse_not, parse_or,
  parse_or_loop, parse_primary, parse_tokens, pred, skip_nots,
}
use kasas.Search.Outcome.{
  Ensures, Ensures-bind, Ensures-map, Ensures-ne_out_of_fuel, Outcome, failed, holds, ok,
  out_of_fuel, rejected, ◌>>=◌,
}
use kasas.Search.Lexer.{Term, Token, and_op, lparen, not_op, or_op, rparen, term}

skip_nots-length : (neg : Bool) (ts : List Token) → length (skip_nots neg ts).1 ≤ length ts
unfolding skip_nots
skip_nots-length neg (not_op ∷ ts) = omega (arith, skip_nots-length (not neg) ts)
skip_nots-length neg _ = omega arith

module _ {L : Type 0} (leaf : Term → Outcome L) (fits : (t : Term) → leaf t ≢ out_of_fuel) where
  -- The call returned with fewer than `n` tokens left, or with an error.
  abbrev Leaves : ℕ → Parsed L → Type 0
  Leaves n r = Ensures (λ (a : Node L × List Token). length a.1 < n) r

  close-Leaves : (n : ℕ) (r : Node L × List Token) → length r.1 < n → Leaves n (close r)
  unfolding close
  close-Leaves n (m, rparen ∷ us) h = holds (omega arith)
  close-Leaves n (m, _) h = rejected

  leaf-Leaves :
      (n : ℕ) (ts : List Token) (r : Outcome L)
      → length ts < n
      → r ≢ out_of_fuel
      → Leaves n (r >>= λ a. ok (pred a, ts))
  leaf-Leaves n ts (ok a) h k = holds h
  leaf-Leaves n ts (failed p) h k = rejected
  leaf-Leaves n ts out_of_fuel h k = absurd (k refl)

  Leaves-weaken : {m n : ℕ} {r : Parsed L} → m ≤ n → Leaves m r → Leaves n r
  Leaves-weaken h e = Ensures-map e (λ a q. omega arith)

  mutual
    unfolding parse_or

    or-Leaves :
        (f : ℕ) (ts : List Token) → 4 * length ts + 4 ≤ f → Leaves (length ts) (parse_or leaf f ts)
    or-Leaves zero ts k = absurd (omega arith)
    or-Leaves (suc f) ts k =
        Ensures-bind (and-Leaves f ts (omega arith))
          (λ r q. Leaves-weaken q (or_loop-Leaves f r.0 r.1 (omega arith)))

    or_loop-Leaves :
        (f : ℕ) (left : Node L) (ts : List Token)
        → 4 * length ts + 4 ≤ f
        → Leaves (suc (length ts)) (parse_or_loop leaf f left ts)
    or_loop-Leaves zero left ts k = absurd (omega arith)
    or_loop-Leaves (suc f) left (or_op ∷ ts) k =
        Ensures-bind (and-Leaves f ts (omega arith)) (λ r q.
          Leaves-weaken (omega arith) (or_loop-Leaves f (or_node left r.0) r.1 (omega arith)))
    or_loop-Leaves (suc f) left _ k = holds (omega arith)

    and-Leaves :
        (f : ℕ) (ts : List Token) → 4 * length ts + 3 ≤ f → Leaves (length ts) (parse_and leaf f ts)
    and-Leaves zero ts k = absurd (omega arith)
    and-Leaves (suc f) ts k =
        Ensures-bind (not-Leaves f ts (omega arith))
          (λ r q. Leaves-weaken q (and_loop-Leaves f r.0 r.1 (omega arith)))

    and_loop-Leaves :
        (f : ℕ) (left : Node L) (ts : List Token)
        → 4 * length ts + 3 ≤ f
        → Leaves (suc (length ts)) (parse_and_loop leaf f left ts)
    and_loop-Leaves zero left ts k = absurd (omega arith)
    and_loop-Leaves (suc f) left (and_op ∷ ts) k =
        Ensures-bind (not-Leaves f ts (omega arith)) (λ r q.
          Leaves-weaken (omega arith) (and_loop-Leaves f (and_node left r.0) r.1 (omega arith)))
    and_loop-Leaves (suc f) left (term t ∷ ts) k =
        Ensures-bind (not-Leaves f (term t ∷ ts) (omega arith)) (λ r q.
          Leaves-weaken (omega arith) (and_loop-Leaves f (and_node left r.0) r.1 (omega arith)))
    and_loop-Leaves (suc f) left (not_op ∷ ts) k =
        Ensures-bind (not-Leaves f (not_op ∷ ts) (omega arith)) (λ r q.
          Leaves-weaken (omega arith) (and_loop-Leaves f (and_node left r.0) r.1 (omega arith)))
    and_loop-Leaves (suc f) left (lparen ∷ ts) k =
        Ensures-bind (not-Leaves f (lparen ∷ ts) (omega arith)) (λ r q.
          Leaves-weaken (omega arith) (and_loop-Leaves f (and_node left r.0) r.1 (omega arith)))
    and_loop-Leaves (suc f) left _ k = holds (omega arith)

    not-Leaves :
        (f : ℕ) (ts : List Token) → 4 * length ts + 2 ≤ f → Leaves (length ts) (parse_not leaf f ts)
    not-Leaves zero ts k = absurd (omega arith)
    not-Leaves (suc f) ts k =
        Ensures-bind
          (primary-Leaves f (skip_nots false ts).1 (omega (arith, skip_nots-length false ts)))
          (λ r q. holds (omega (arith, skip_nots-length false ts)))

    primary-Leaves :
        (f : ℕ) (ts : List Token)
        → 4 * length ts + 1 ≤ f
        → Leaves (length ts) (parse_primary leaf f ts)
    primary-Leaves zero ts k = absurd (omega arith)
    primary-Leaves (suc f) (lparen ∷ ts) k =
        Ensures-bind (or-Leaves f ts (omega arith))
          (λ r q. close-Leaves (suc (length ts)) r (omega arith))
    primary-Leaves (suc f) (term t ∷ ts) k =
        leaf-Leaves (suc (length ts)) ts (leaf t) (omega arith) (fits t)
    primary-Leaves (suc f) _ k = rejected

  finish-Ensures : (r : Node L × List Token) → Ensures (λ (n : Node L). Unit {0}) (finish leaf r)
  unfolding finish
  finish-Ensures (n, []) = holds tt
  finish-Ensures (n, rparen ∷ ts) = rejected
  finish-Ensures (n, _) = rejected

  -- The parser ends on every list of tokens, with a tree or with an error, within the fuel that
  -- `Parse` gives it, when building a leaf does.
  pub parse_tokens-ne_out_of_fuel : (ts : List Token) → parse_tokens leaf ts ≢ out_of_fuel
  unfolding parse_tokens
  parse_tokens-ne_out_of_fuel ts =
      Ensures-ne_out_of_fuel
        (Ensures-bind (or-Leaves (4 * length ts + 4) ts (omega arith)) (λ r q. finish-Ensures r))
