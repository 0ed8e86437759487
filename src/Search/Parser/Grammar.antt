-- ===== src/Search/Parser/Grammar.antt =====
-- The grammar in the head comment of search.go, over tokens. `IsOr ts n us`: an expression for the
-- tree `n` can be read off the front of `ts`, and `us` follows it.
use kasas.Prelude.{Bool, List, false, true, ◌∷◌, ◌≡◌}
use kasas.Search.Lexer.{Term, Token, and_op, lparen, not_op, or_op, rparen, term}
use kasas.Search.Parser.{Node, and_node, not_node, or_node, pred}
use kasas.Search.Outcome.{Outcome, ok}

-- A run of NOT tokens, and whether their number is odd.
pub data Nots : Bool → List Token → List Token → Type 0 where
  stop : {ts : List Token} → Nots false ts ts
  odd : {ts us : List Token} → Nots false ts us → Nots true (not_op ∷ ts) us
  even : {ts us : List Token} → Nots true ts us → Nots false (not_op ∷ ts) us

module _ {L : Type 0} (leaf : Term → Outcome L) where
  mutual
    -- orExpr := andExpr ( ("OR" | "|") andExpr )*
    pub data IsOr : List Token → Node L → List Token → Type 0 where
      one_and : {ts us : List Token} {n : Node L} → IsAnd ts n us → IsOr ts n us
      or_more :
          {ts us vs : List Token} {a b : Node L}
          → IsOr ts a (or_op ∷ us)
          → IsAnd us b vs
          → IsOr ts (or_node a b) vs

    -- andExpr := notExpr ( ("AND" | "&" | <implicit>) notExpr )*
    pub data IsAnd : List Token → Node L → List Token → Type 0 where
      one_not : {ts us : List Token} {n : Node L} → IsNot ts n us → IsAnd ts n us
      and_more :
          {ts us vs : List Token} {a b : Node L}
          → IsAnd ts a (and_op ∷ us)
          → IsNot us b vs
          → IsAnd ts (and_node a b) vs
      adjacent :
          {ts us vs : List Token} {a b : Node L}
          → IsAnd ts a us
          → IsNot us b vs
          → IsAnd ts (and_node a b) vs

    -- notExpr := ("NOT" | "-")* primary, where an even number of them says nothing
    pub data IsNot : List Token → Node L → List Token → Type 0 where
      plain :
          {ts us vs : List Token} {n : Node L}
          → Nots false ts us
          → IsPrimary us n vs
          → IsNot ts n vs
      negated :
          {ts us vs : List Token} {n : Node L}
          → Nots true ts us
          → IsPrimary us n vs
          → IsNot ts (not_node n) vs

    -- primary := "(" orExpr ")" | term
    pub data IsPrimary : List Token → Node L → List Token → Type 0 where
      group :
          {ts us : List Token} {n : Node L} → IsOr ts n (rparen ∷ us) → IsPrimary (lparen ∷ ts) n us
      leaf_of :
          {t : Term} {ts : List Token} {p : L} → leaf t ≡ ok p → IsPrimary (term t ∷ ts) (pred p) ts
