-- ===== src/Search/Parser/Sound.antt =====
-- What the parser returns was read by the grammar.
use kasas.Search.Lexer.{Term, Token, and_op, lparen, not_op, or_op, rparen, term}
use kasas.Prelude.{
  Bool, List, [], ap, arith, false, if◌then◌else◌, length, not, refl, subst, suc, true, zero, ℕ,
  ◌*◌, ◌+◌, ◌∙◌, ◌∷◌, ◌≡◌,
}
use kasas.Search.Parser.{
  Node, Parsed, and_node, close, finish, negate_if, or_node, parse_and, parse_and_loop, parse_not,
  parse_or, parse_or_loop, parse_primary, parse_tokens, pred, skip_nots,
}
use kasas.Search.Parser.Grammar.{
  IsAnd, IsNot, IsOr, IsPrimary, Nots, adjacent, and_more, even, group, leaf_of, negated, odd,
  one_and, one_not, or_more, plain, stop,
}
use kasas.Search.Outcome.{>>=-eq-ok, Outcome, Problem, failed, ok, out_of_fuel, ◌>>=◌}

skip_nots-Nots :
    (neg : Bool) (ts : List Token)
    → (b : Bool) × (Nots b ts (skip_nots neg ts).1)
      × ((skip_nots neg ts).0 ≡ (if b then not neg else neg))
unfolding skip_nots
skip_nots-Nots neg (not_op ∷ ts) = go (skip_nots-Nots (not neg) ts)
  where
    go :
        (b : Bool) × (Nots b ts (skip_nots (not neg) ts).1)
          × ((skip_nots (not neg) ts).0 ≡ (if b then not (not neg) else not neg))
        → (b : Bool) × (Nots b (not_op ∷ ts) (skip_nots (not neg) ts).1)
          × ((skip_nots (not neg) ts).0 ≡ (if b then not neg else neg))
    go (true, h, e) = (false, even h, ground arith)
    go (false, h, e) = (true, odd h, e)
skip_nots-Nots neg _ = (false, stop, refl)

module _ {L : Type 0} (leaf : Term → Outcome L) where
  -- If the call returned a tree, `R` reads that tree off `ts`.
  record Reads (R : List Token → Node L → List Token → Type 0) (ts : List Token) (r : Parsed L)
      : Type 0 where
    at : (n : Node L) (us : List Token) → r ≡ ok (n, us) → R ts n us

  bind-Reads :
      {R : List Token → Node L → List Token → Type 0} {A : Type 0} (ts : List Token) (m : Outcome A)
      (f : A → Parsed L)
      → ((a : A) → m ≡ ok a → Reads R ts (f a))
      → Reads R ts (m >>= f)
  bind-Reads ts (ok a) f h = h a refl
  bind-Reads ts (failed p) f h = record { at = λ n us e. cc }
  bind-Reads ts out_of_fuel f h = record { at = λ n us e. cc }

  done-Reads :
      {R : List Token → Node L → List Token → Type 0} (ts us : List Token) (n : Node L)
      → R ts n us
      → Reads R ts (ok (n, us))
  done-Reads {R} ts us n h = record {
    at = λ m vs e.
        let en : n ≡ m = cc in
        let eu : us ≡ vs = cc in subst (λ x. R ts x vs) en (subst (λ x. R ts n x) eu h);
  }

  Reads-failed :
      {R : List Token → Node L → List Token → Type 0} (ts : List Token) (p : Problem)
      → Reads R ts (failed p)
  Reads-failed ts p = record { at = λ n us e. cc }

  Reads-out_of_fuel :
      {R : List Token → Node L → List Token → Type 0} (ts : List Token) → Reads R ts out_of_fuel
  Reads-out_of_fuel ts = record { at = λ n us e. cc }

  close-Reads :
      (ts : List Token) (r : Node L × List Token)
      → IsOr leaf ts r.0 r.1
      → Reads (IsPrimary leaf) (lparen ∷ ts) (close r)
  unfolding close
  close-Reads ts (n, rparen ∷ us) h = done-Reads (lparen ∷ ts) us n (group h)
  close-Reads ts (n, _) h = Reads-failed _ _

  negate-IsNot :
      (ts us vs : List Token) (n : Node L) (b neg : Bool)
      → Nots b ts us
      → neg ≡ (if b then true else false)
      → IsPrimary leaf us n vs
      → IsNot leaf ts (negate_if neg n) vs
  negate-IsNot ts us vs n true true h e p = negated h p
  negate-IsNot ts us vs n true false h e p = cc
  negate-IsNot ts us vs n false true h e p = cc
  negate-IsNot ts us vs n false false h e p = plain h p

  mutual
    unfolding parse_or

    parse_or-Reads : (f : ℕ) (ts : List Token) → Reads (IsOr leaf) ts (parse_or leaf f ts)
    parse_or-Reads zero ts = Reads-out_of_fuel ts
    parse_or-Reads (suc f) ts =
        bind-Reads ts (parse_and leaf f ts) _
          (λ r e. parse_or_loop-Reads f ts r.0 r.1 (one_and ((parse_and-Reads f ts).at r.0 r.1 e)))

    parse_or_loop-Reads :
        (f : ℕ) (start : List Token) (left : Node L) (ts : List Token)
        → IsOr leaf start left ts
        → Reads (IsOr leaf) start (parse_or_loop leaf f left ts)
    parse_or_loop-Reads zero start left ts h = Reads-out_of_fuel start
    parse_or_loop-Reads (suc f) start left (or_op ∷ ts) h =
        bind-Reads start (parse_and leaf f ts) _ (λ r e.
          parse_or_loop-Reads f start (or_node left r.0) r.1
            (or_more h ((parse_and-Reads f ts).at r.0 r.1 e)))
    parse_or_loop-Reads (suc f) start left _ h = done-Reads start _ left h

    parse_and-Reads : (f : ℕ) (ts : List Token) → Reads (IsAnd leaf) ts (parse_and leaf f ts)
    parse_and-Reads zero ts = Reads-out_of_fuel ts
    parse_and-Reads (suc f) ts =
        bind-Reads ts (parse_not leaf f ts) _
          (λ r e. parse_and_loop-Reads f ts r.0 r.1 (one_not ((parse_not-Reads f ts).at r.0 r.1 e)))

    parse_and_loop-Reads :
        (f : ℕ) (start : List Token) (left : Node L) (ts : List Token)
        → IsAnd leaf start left ts
        → Reads (IsAnd leaf) start (parse_and_loop leaf f left ts)
    parse_and_loop-Reads zero start left ts h = Reads-out_of_fuel start
    parse_and_loop-Reads (suc f) start left (and_op ∷ ts) h =
        bind-Reads start (parse_not leaf f ts) _ (λ r e.
          parse_and_loop-Reads f start (and_node left r.0) r.1
            (and_more h ((parse_not-Reads f ts).at r.0 r.1 e)))
    parse_and_loop-Reads (suc f) start left (term t ∷ ts) h =
        bind-Reads start (parse_not leaf f (term t ∷ ts)) _ (λ r e.
          parse_and_loop-Reads f start (and_node left r.0) r.1
            (adjacent h ((parse_not-Reads f (term t ∷ ts)).at r.0 r.1 e)))
    parse_and_loop-Reads (suc f) start left (not_op ∷ ts) h =
        bind-Reads start (parse_not leaf f (not_op ∷ ts)) _ (λ r e.
          parse_and_loop-Reads f start (and_node left r.0) r.1
            (adjacent h ((parse_not-Reads f (not_op ∷ ts)).at r.0 r.1 e)))
    parse_and_loop-Reads (suc f) start left (lparen ∷ ts) h =
        bind-Reads start (parse_not leaf f (lparen ∷ ts)) _ (λ r e.
          parse_and_loop-Reads f start (and_node left r.0) r.1
            (adjacent h ((parse_not-Reads f (lparen ∷ ts)).at r.0 r.1 e)))
    parse_and_loop-Reads (suc f) start left _ h = done-Reads start _ left h

    parse_not-Reads : (f : ℕ) (ts : List Token) → Reads (IsNot leaf) ts (parse_not leaf f ts)
    parse_not-Reads zero ts = Reads-out_of_fuel ts
    parse_not-Reads (suc f) ts =
        let (b, nots, parity) = skip_nots-Nots false ts in
        bind-Reads ts (parse_primary leaf f (skip_nots false ts).1) _ (λ r e.
          done-Reads ts r.1 (negate_if (skip_nots false ts).0 r.0) (
            negate-IsNot ts _ r.1 r.0 b (skip_nots false ts).0 nots parity
              ((parse_primary-Reads f (skip_nots false ts).1).at r.0 r.1 e)))

    parse_primary-Reads :
        (f : ℕ) (ts : List Token) → Reads (IsPrimary leaf) ts (parse_primary leaf f ts)
    parse_primary-Reads zero ts = Reads-out_of_fuel ts
    parse_primary-Reads (suc f) (lparen ∷ ts) =
        bind-Reads (lparen ∷ ts) (parse_or leaf f ts) _
          (λ r e. close-Reads ts r ((parse_or-Reads f ts).at r.0 r.1 e))
    parse_primary-Reads (suc f) (term t ∷ ts) =
        bind-Reads (term t ∷ ts) (leaf t) _
          (λ a e. done-Reads (term t ∷ ts) ts (pred a) (leaf_of e))
    parse_primary-Reads (suc f) _ = Reads-failed _ _

  finish_ok : (r : Node L × List Token) (n : Node L) → finish leaf r ≡ ok n → r ≡ (n, [])
  unfolding finish
  finish_ok (m, []) n e = ground arith
  finish_ok (m, rparen ∷ ts) n e = cc
  finish_ok (m, _) n e = cc

  pub parse_tokens-IsOr :
      (ts : List Token) (n : Node L) → parse_tokens leaf ts ≡ ok n → IsOr leaf ts n []
  unfolding parse_tokens
  parse_tokens-IsOr ts n e =
      let (r, q, d) = >>=-eq-ok (parse_or leaf (4 * length ts + 4) ts) (finish leaf) e in
      (parse_or-Reads (4 * length ts + 4) ts).at n [] (q ∙ ap ok (finish_ok r n d))
