-- ===== src/Search/Parser.antt =====
-- The parser of search.go: recursive descent over the tokens. A leaf of the tree is what
-- `predFromTerm` makes of a term; here that function is the parameter `leaf`.
-- What a call leaves of the input is not a structural part of it, so each call costs a unit of fuel.
pub mod Total
pub mod Grammar
pub mod Sound
pub mod Complete
use kasas.Search.Outcome.{
  Outcome, failed, missing_rparen, ok, out_of_fuel, unexpected_end, unexpected_input,
  unexpected_operator, unexpected_rparen, ◌>>=◌,
}
use kasas.Prelude.{Bool, List, [], false, length, not, suc, true, zero, ℕ, ◌*◌, ◌+◌, ◌∷◌}
use kasas.Search.Lexer.{Term, Token, and_op, lparen, not_op, or_op, rparen, term}

-- The AST.
pub data Node (L : Type 0) : Type 0 where
  pred : L → Node L
  and_node or_node : Node L → Node L → Node L
  not_node : Node L → Node L

-- `parseNot`: the loop over the NOT tokens
unfoldable pub skip_nots : Bool → List Token → Bool × List Token
skip_nots neg (not_op ∷ ts) = skip_nots (not neg) ts
skip_nots neg ts = (neg, ts)

abbrev pub Parsed : Type 0 → Type 0
Parsed L = Outcome (Node L × List Token)

module _ {L : Type 0} where
  abbrev pub negate_if : Bool → Node L → Node L
  negate_if true n = not_node n
  negate_if false n = n

  -- behind "(" and an expression
  unfoldable pub close : Node L × List Token → Parsed L
  close (n, rparen ∷ ts) = ok (n, ts)
  close (n, _) = failed missing_rparen

  module _ (leaf : Term → Outcome L) where
    unfoldable mutual
      unfolding skip_nots close

      pub parse_or : ℕ → List Token → Parsed L
      parse_or zero ts = out_of_fuel
      parse_or (suc f) ts = parse_and f ts >>= λ r. parse_or_loop f r.0 r.1

      -- `for p.peek().kind == tOr`
      pub parse_or_loop : ℕ → Node L → List Token → Parsed L
      parse_or_loop zero left ts = out_of_fuel
      parse_or_loop (suc f) left (or_op ∷ ts) =
          parse_and f ts >>= λ r. parse_or_loop f (or_node left r.0) r.1
      parse_or_loop (suc f) left ts = ok (left, ts)

      pub parse_and : ℕ → List Token → Parsed L
      parse_and zero ts = out_of_fuel
      parse_and (suc f) ts = parse_not f ts >>= λ r. parse_and_loop f r.0 r.1

      pub parse_and_loop : ℕ → Node L → List Token → Parsed L
      parse_and_loop zero left ts = out_of_fuel
      parse_and_loop (suc f) left (and_op ∷ ts) =
          parse_not f ts >>= λ r. parse_and_loop f (and_node left r.0) r.1
      parse_and_loop (suc f) left (term t ∷ ts) =
          parse_not f (term t ∷ ts) >>= λ r. parse_and_loop f (and_node left r.0) r.1
      parse_and_loop (suc f) left (not_op ∷ ts) =
          parse_not f (not_op ∷ ts) >>= λ r. parse_and_loop f (and_node left r.0) r.1
      parse_and_loop (suc f) left (lparen ∷ ts) =
          parse_not f (lparen ∷ ts) >>= λ r. parse_and_loop f (and_node left r.0) r.1
      parse_and_loop (suc f) left ts = ok (left, ts)

      pub parse_not : ℕ → List Token → Parsed L
      parse_not zero ts = out_of_fuel
      parse_not (suc f) ts =
          let (neg, rest) = skip_nots false ts in
          parse_primary f rest >>= λ r. ok (negate_if neg r.0, r.1)

      pub parse_primary : ℕ → List Token → Parsed L
      parse_primary zero ts = out_of_fuel
      parse_primary (suc f) (lparen ∷ ts) = parse_or f ts >>= close
      parse_primary (suc f) (term t ∷ ts) = leaf t >>= λ n. ok (pred n, ts)
      parse_primary (suc f) (or_op ∷ ts) = failed unexpected_operator
      parse_primary (suc f) (and_op ∷ ts) = failed unexpected_operator
      parse_primary (suc f) (rparen ∷ ts) = failed unexpected_rparen
      parse_primary (suc f) (not_op ∷ ts) = failed unexpected_input
      parse_primary (suc f) [] = failed unexpected_end

    -- what `Parse` does behind `parseOr`: nothing may be left
    unfoldable pub finish : Node L × List Token → Outcome (Node L)
    finish (n, []) = ok n
    finish (n, rparen ∷ ts) = failed unexpected_rparen
    finish (n, _ ∷ ts) = failed unexpected_input

    -- the parser part of `Parse`, on a token list that is not empty
    unfoldable pub parse_tokens : List Token → Outcome (Node L)
    unfolding finish
    parse_tokens ts = parse_or (4 * length ts + 4) ts >>= finish
