-- ===== src/Search/Parser/Complete.antt =====
-- The parser returns every tree that the grammar reads off the whole input.
use kasas.Search.Parser.{
  Node, Parsed, and_node, close, finish, or_node, parse_and, parse_and_loop, parse_not, parse_or,
  parse_or_loop, parse_primary, parse_tokens, skip_nots,
}
use kasas.Prelude.{
  Bool, List, [], arith, false, if◌then◌else◌, length, not, refl, suc, zero, ℕ, ◌*◌, ◌+◌, ◌<◌, ◌↔◌,
  ◌∙◌, ◌∷◌, ◌≡◌, ◌≤◌,
}
use kasas.Search.Parser.Grammar.{
  IsAnd, IsNot, IsOr, IsPrimary, Nots, adjacent, and_more, even, group, leaf_of, negated, odd,
  one_and, one_not, or_more, plain, stop,
}
use kasas.Search.Outcome.{Outcome, ok, ◌>>=◌}
use kasas.Search.Lexer.{Term, Token, and_op, lparen, not_op, or_op, rparen, term}
use kasas.Search.Parser.Sound.{parse_tokens-IsOr}

Nots-length : {b : Bool} {ts us : List Token} → Nots b ts us → length us ≤ length ts
Nots-length stop = omega arith
Nots-length (odd h) = omega (arith, Nots-length h)
Nots-length (even h) = omega (arith, Nots-length h)

-- The token list does not go on with NOT.
abbrev NoNot : List Token → Type 0
NoNot (not_op ∷ ts) = ⊥
NoNot _ = Unit

skip_nots_of_Nots :
    {b : Bool} {ts us : List Token} (neg : Bool)
    → Nots b ts us
    → NoNot us
    → skip_nots neg ts ≡ ((if b then not neg else neg), us)
unfolding skip_nots
skip_nots_of_Nots {us = []} neg stop h = refl
skip_nots_of_Nots {us = lparen ∷ us} neg stop h = refl
skip_nots_of_Nots {us = rparen ∷ us} neg stop h = refl
skip_nots_of_Nots {us = and_op ∷ us} neg stop h = refl
skip_nots_of_Nots {us = or_op ∷ us} neg stop h = refl
skip_nots_of_Nots {us = not_op ∷ us} neg stop h = absurd h
skip_nots_of_Nots {us = term t ∷ us} neg stop h = refl
skip_nots_of_Nots neg (odd n) h = skip_nots_of_Nots (not neg) n h
skip_nots_of_Nots neg (even n) h = skip_nots_of_Nots (not neg) n h ∙ ground arith

-- No further operand of an AND can follow.
abbrev AndStops : List Token → Type 0
AndStops [] = Unit
AndStops (rparen ∷ ts) = Unit
AndStops (or_op ∷ ts) = Unit
AndStops _ = ⊥

-- No further operand of an OR can follow.
abbrev OrStops : List Token → Type 0
OrStops [] = Unit
OrStops (rparen ∷ ts) = Unit
OrStops _ = ⊥

OrStops-AndStops : (ts : List Token) → OrStops ts → AndStops ts
OrStops-AndStops [] h = tt
OrStops-AndStops (rparen ∷ ts) h = tt
OrStops-AndStops (_ ∷ ts) h = absurd h

module _ {L : Type 0} (leaf : Term → Outcome L) where
  mutual
    or-length : {ts us : List Token} {n : Node L} → IsOr leaf ts n us → length us < length ts
    or-length (one_and h) = and-length h
    or-length (or_more h k) = omega (arith, or-length h, and-length k)

    and-length : {ts us : List Token} {n : Node L} → IsAnd leaf ts n us → length us < length ts
    and-length (one_not h) = not-length h
    and-length (and_more h k) = omega (arith, and-length h, not-length k)
    and-length (adjacent h k) = omega (arith, and-length h, not-length k)

    not-length : {ts us : List Token} {n : Node L} → IsNot leaf ts n us → length us < length ts
    not-length (plain h k) = omega (arith, Nots-length h, primary-length k)
    not-length (negated h k) = omega (arith, Nots-length h, primary-length k)

    primary-length :
        {ts us : List Token} {n : Node L} → IsPrimary leaf ts n us → length us < length ts
    primary-length (group h) = omega (arith, or-length h)
    primary-length (leaf_of e) = omega arith

  IsPrimary-NoNot : {ts us : List Token} {n : Node L} → IsPrimary leaf ts n us → NoNot ts
  IsPrimary-NoNot (group h) = tt
  IsPrimary-NoNot (leaf_of e) = tt

  -- A run that has read `n` off the front and goes on behind it.
  record GoesOn (c : ℕ) (loop : ℕ → Node L → List Token → Parsed L) (r : Parsed L) (n : Node L)
      (us : List Token) : Type 0 where
    fuel : ℕ
    enough : 4 * length us + c ≤ fuel
    goes : r ≡ loop fuel n us

  -- The first token of a NOT expression makes the AND loop go on.
  loop_adjacent :
      {us vs : List Token} {b : Node L} (f : ℕ) (left : Node L)
      → IsNot leaf us b vs
      → parse_and_loop leaf (suc f) left us
        ≡ (parse_not leaf f us >>= λ r. parse_and_loop leaf f (and_node left r.0) r.1)
  unfolding parse_or
  loop_adjacent f left (plain stop (group h)) = refl
  loop_adjacent f left (plain stop (leaf_of e)) = refl
  loop_adjacent f left (plain (even h) p) = refl
  loop_adjacent f left (negated (odd h) p) = refl

  loop_stops :
      (f : ℕ) (left : Node L) (us : List Token)
      → AndStops us
      → parse_and_loop leaf (suc f) left us ≡ ok (left, us)
  unfolding parse_or
  loop_stops f left [] h = refl
  loop_stops f left (rparen ∷ us) h = refl
  loop_stops f left (or_op ∷ us) h = refl
  loop_stops f left (_ ∷ us) h = absurd h

  or_loop_stops :
      (f : ℕ) (left : Node L) (us : List Token)
      → OrStops us
      → parse_or_loop leaf (suc f) left us ≡ ok (left, us)
  unfolding parse_or
  or_loop_stops f left [] h = refl
  or_loop_stops f left (rparen ∷ us) h = refl
  or_loop_stops f left (_ ∷ us) h = absurd h

  stopped_and :
      (c : ℕ) (r : Parsed L) (n : Node L) (us : List Token)
      → 0 < c
      → AndStops us
      → GoesOn c (parse_and_loop leaf) r n us
      → r ≡ ok (n, us)
  stopped_and c r n us pos h g = g.goes ∙ spend g.fuel (omega (arith, g.enough))
    where
      spend : (f : ℕ) → 0 < f → parse_and_loop leaf f n us ≡ ok (n, us)
      spend zero k = absurd (omega arith)
      spend (suc f) k = loop_stops f n us h

  stopped_or :
      (c : ℕ) (r : Parsed L) (n : Node L) (us : List Token)
      → 0 < c
      → OrStops us
      → GoesOn c (parse_or_loop leaf) r n us
      → r ≡ ok (n, us)
  stopped_or c r n us pos h g = g.goes ∙ spend g.fuel (omega (arith, g.enough))
    where
      spend : (f : ℕ) → 0 < f → parse_or_loop leaf f n us ≡ ok (n, us)
      spend zero k = absurd (omega arith)
      spend (suc f) k = or_loop_stops f n us h

  -- One more operand behind a run that goes on: the loop's next round.
  and_round :
      {us vs : List Token} (r : Parsed L) (a b : Node L)
      → GoesOn 3 (parse_and_loop leaf) r a (and_op ∷ us)
      → length vs < length us
      → ((f : ℕ) → 4 * length us + 2 ≤ f → parse_not leaf f us ≡ ok (b, vs))
      → GoesOn 3 (parse_and_loop leaf) r (and_node a b) vs
  unfolding parse_or
  and_round {us} {vs} r a b g short read = spend g.fuel g.enough g.goes
    where
      spend :
          (f : ℕ)
          → 4 * length (and_op ∷ us) + 3 ≤ f
          → r ≡ parse_and_loop leaf f a (and_op ∷ us)
          → GoesOn 3 (parse_and_loop leaf) r (and_node a b) vs
      spend zero k e = absurd (omega arith)
      spend (suc f) k e = record {
        fuel = f;
        enough = omega arith;
        goes = e ∙ rw (read f (omega arith));
      }

  adjacent_round :
      {us vs : List Token} (r : Parsed L) (a b : Node L)
      → GoesOn 3 (parse_and_loop leaf) r a us
      → IsNot leaf us b vs
      → length vs < length us
      → ((f : ℕ) → 4 * length us + 2 ≤ f → parse_not leaf f us ≡ ok (b, vs))
      → GoesOn 3 (parse_and_loop leaf) r (and_node a b) vs
  adjacent_round {us} {vs} r a b g i short read = spend g.fuel g.enough g.goes
    where
      spend :
          (f : ℕ)
          → 4 * length us + 3 ≤ f
          → r ≡ parse_and_loop leaf f a us
          → GoesOn 3 (parse_and_loop leaf) r (and_node a b) vs
      spend zero k e = absurd (omega arith)
      spend (suc f) k e = record {
        fuel = f;
        enough = omega arith;
        goes = e ∙ loop_adjacent f a i ∙ rw (read f (omega arith));
      }

  or_round :
      {us vs : List Token} (r : Parsed L) (a b : Node L)
      → GoesOn 4 (parse_or_loop leaf) r a (or_op ∷ us)
      → length vs < length us
      → ((f : ℕ) → 4 * length us + 3 ≤ f → parse_and leaf f us ≡ ok (b, vs))
      → GoesOn 4 (parse_or_loop leaf) r (or_node a b) vs
  unfolding parse_or
  or_round {us} {vs} r a b g short read = spend g.fuel g.enough g.goes
    where
      spend :
          (f : ℕ)
          → 4 * length (or_op ∷ us) + 4 ≤ f
          → r ≡ parse_or_loop leaf f a (or_op ∷ us)
          → GoesOn 4 (parse_or_loop leaf) r (or_node a b) vs
      spend zero k e = absurd (omega arith)
      spend (suc f) k e = record {
        fuel = f;
        enough = omega arith;
        goes = e ∙ rw (read f (omega arith));
      }

  mutual
    unfolding parse_or close

    or-GoesOn :
        {ts us : List Token} {n : Node L} (f : ℕ)
        → IsOr leaf ts n us
        → AndStops us
        → 4 * length ts + 4 ≤ f
        → GoesOn 4 (parse_or_loop leaf) (parse_or leaf f ts) n us
    or-GoesOn zero h s k = absurd (omega arith)
    or-GoesOn {ts} {us} {n} (suc f) (one_and h) s k = record {
      fuel = f;
      enough = omega (arith, and-length h);
      goes =
          rw (
            stopped_and 3 (parse_and leaf f ts) n us (omega arith) s
              (and-GoesOn f h (omega arith)));
    }
    or-GoesOn {ts} {us} (suc f) (or_more {us = mid} {a} {b} h i) s k =
        or_round _ a b (or-GoesOn (suc f) h tt k) (and-length i)
          (λ g l. stopped_and 3 (parse_and leaf g mid) b us (omega arith) s (and-GoesOn g i l))

    and-GoesOn :
        {ts us : List Token} {n : Node L} (f : ℕ)
        → IsAnd leaf ts n us
        → 4 * length ts + 3 ≤ f
        → GoesOn 3 (parse_and_loop leaf) (parse_and leaf f ts) n us
    and-GoesOn zero h k = absurd (omega arith)
    and-GoesOn (suc f) (one_not h) k = record {
      fuel = f;
      enough = omega (arith, not-length h);
      goes = rw (not-ok f h (omega arith));
    }
    and-GoesOn (suc f) (and_more {a = a} {b} h i) k =
        and_round _ a b (and-GoesOn (suc f) h k) (not-length i) (λ g l. not-ok g i l)
    and-GoesOn (suc f) (adjacent {a = a} {b} h i) k =
        adjacent_round _ a b (and-GoesOn (suc f) h k) i (not-length i) (λ g l. not-ok g i l)

    not-ok :
        {ts us : List Token} {n : Node L} (f : ℕ)
        → IsNot leaf ts n us
        → 4 * length ts + 2 ≤ f
        → parse_not leaf f ts ≡ ok (n, us)
    not-ok zero h k = absurd (omega arith)
    not-ok (suc f) (plain h p) k =
        rw (skip_nots_of_Nots false h (IsPrimary-NoNot p))
          (rw (primary-ok f p (omega (arith, Nots-length h))))
    not-ok (suc f) (negated h p) k =
        rw (skip_nots_of_Nots false h (IsPrimary-NoNot p))
          (rw (primary-ok f p (omega (arith, Nots-length h))))

    primary-ok :
        {ts us : List Token} {n : Node L} (f : ℕ)
        → IsPrimary leaf ts n us
        → 4 * length ts + 1 ≤ f
        → parse_primary leaf f ts ≡ ok (n, us)
    primary-ok zero h k = absurd (omega arith)
    primary-ok (suc f) (leaf_of e) k = rw e
    primary-ok (suc f) (group {ts = ts} {us = us} {n = n} h) k = rw (
        stopped_or 4 (parse_or leaf f ts) n (rparen ∷ us) (omega arith) tt
          (or-GoesOn f h tt (omega arith)))

  pub IsOr-parse_tokens :
      (ts : List Token) (n : Node L) → IsOr leaf ts n [] → parse_tokens leaf ts ≡ ok n
  unfolding parse_tokens finish
  IsOr-parse_tokens ts n h = rw (
      stopped_or 4 (parse_or leaf (4 * length ts + 4) ts) n [] (omega arith) tt
        (or-GoesOn (4 * length ts + 4) h tt (omega arith)))

  -- The parser returns the tree `n` exactly where the grammar reads `n` off all the tokens. So no
  -- expression has two trees: AND binds tighter than OR, both group to the left, adjacent operands
  -- are joined by AND, and of a run of NOTs only the parity counts.
  pub parse_tokens_iff :
      (ts : List Token) (n : Node L) → (parse_tokens leaf ts ≡ ok n) ↔ IsOr leaf ts n []
  parse_tokens_iff ts n = (parse_tokens-IsOr leaf ts n, IsOr-parse_tokens ts n)
