-- ===== src/Search/Query/Compose.antt =====
-- Queries are put together from queries.
use kasas.Search.Parser.Grammar.{
  IsAnd, IsNot, IsOr, IsPrimary, Nots, adjacent, and_more, even, group, leaf_of, negated, odd,
  one_and, one_not, or_more, plain, stop,
}
use kasas.Prelude.{Bool, List, ◌++◌, [], ap, false, not, refl, some, ◌||◌, ◌∙◌, ◌∷◌, ◌≡◌}
use kasas.Search.Lexer.{
  Term, Token, classify, ends_term, flip_quote, is_space, lex, lex_round, lparen, not_op, or_op,
  read_raw_term, rparen,
}
use kasas.Search.Outcome.{Outcome, >>=-eq-ok, ok}
use kasas.Search.Parser.{Node, not_node, or_node, parse_tokens}
use kasas.Search.Query.{Query, eval, matches, parse, rooted}
use kasas.Prelude.Text.{Text, codes, text_eq, to_upper, upper_rune}
use kasas.Search.Lexer.Units.{Lexes, Lexes-lex, Lexes-group, at_end, lex-Lexes, lex_closes, round}
use kasas.Search.Lexer.Quotes.{open_quote}
use kasas.Search.Parser.Complete.{IsOr-parse_tokens}
use kasas.Search.Preds.{Pred, pred_from_term}
use kasas.Search.Parser.Sound.{parse_tokens-IsOr}
use kasas.Search.Std.{SearchRecord, Std}

-- A derivation goes through with more tokens behind it.
module _ {L : Type 0} (leaf : Term → Outcome L) (more : List Token) where
  Nots-append : {b : Bool} {ts us : List Token} → Nots b ts us → Nots b (ts ++ more) (us ++ more)
  Nots-append stop = stop
  Nots-append (odd h) = odd (Nots-append h)
  Nots-append (even h) = even (Nots-append h)

  mutual
    IsOr-append :
        {ts us : List Token} {n : Node L}
        → IsOr leaf ts n us
        → IsOr leaf (ts ++ more) n (us ++ more)
    IsOr-append (one_and h) = one_and (IsAnd-append h)
    IsOr-append (or_more h k) = or_more (IsOr-append h) (IsAnd-append k)

    IsAnd-append :
        {ts us : List Token} {n : Node L}
        → IsAnd leaf ts n us
        → IsAnd leaf (ts ++ more) n (us ++ more)
    IsAnd-append (one_not h) = one_not (IsNot-append h)
    IsAnd-append (and_more h k) = and_more (IsAnd-append h) (IsNot-append k)
    IsAnd-append (adjacent h k) = adjacent (IsAnd-append h) (IsNot-append k)

    IsNot-append :
        {ts us : List Token} {n : Node L}
        → IsNot leaf ts n us
        → IsNot leaf (ts ++ more) n (us ++ more)
    IsNot-append (plain h k) = plain (Nots-append h) (IsPrimary-append k)
    IsNot-append (negated h k) = negated (Nots-append h) (IsPrimary-append k)

    IsPrimary-append :
        {ts us : List Token} {n : Node L}
        → IsPrimary leaf ts n us
        → IsPrimary leaf (ts ++ more) n (us ++ more)
    IsPrimary-append (group h) = group (IsOr-append h)
    IsPrimary-append (leaf_of e) = leaf_of e

abbrev open_paren : Text
open_paren = codes "("

abbrev between_or : Text
between_or = codes ") OR ("

-- "(" a ") OR (" b ")"
abbrev pub either : Text → Text → Text
either a b = open_paren ++ (a ++ (between_or ++ (b ++ codes ")")))

-- "-(" a ")" is split by the lexer into "-" and the group; so is "NOT (" a ")".
abbrev pub negation : Text → Text
negation a = codes "NOT (" ++ (a ++ codes ")")

module _ (s : Std) where
  -- The text is a query that is not blank, and `n` is its tree.
  abbrev pub HasTree : Text → Node (Pred s) → Type 0
  HasTree input n = parse s input ≡ ok (record { root = some n; text = input })

  -- The tokens of a query with a tree.
  record Read (input : Text) (n : Node (Pred s)) : Type 0 where
    toks : List Token
    lexed : Lexes s.case_table input toks
    closed : open_quote false input ≡ false
    derived : IsOr (pred_from_term s) toks n []

  rooted_tree :
      (input : Text) (toks : List Token) (n : Node (Pred s))
      → rooted s input toks ≡ ok (record { root = some n; text = input })
      → parse_tokens (pred_from_term s) toks ≡ ok n
  rooted_tree input [] n h = cc
  rooted_tree input (t ∷ ts) n h =
      let (m, e, d) = >>=-eq-ok (parse_tokens (pred_from_term s) (t ∷ ts)) _ h in
      let same : m ≡ n = cc in e ∙ ap ok same

  HasTree-Read : (input : Text) (n : Node (Pred s)) → HasTree input n → Read input n
  unfolding parse
  HasTree-Read input n h =
      let (toks, e, d) = >>=-eq-ok (lex s.case_table input) (rooted s input) h in
      record {
        toks = toks;
        lexed = lex-Lexes s.case_table input toks e;
        closed = lex_closes s.case_table input toks e;
        derived = parse_tokens-IsOr (pred_from_term s) toks n (rooted_tree input toks n d);
      }

  -- Tokens that begin with a token and derive a tree make a query with that tree.
  Lexes-HasTree :
      (input : Text) (t : Token) (ts : List Token) (n : Node (Pred s))
      → Lexes s.case_table input (t ∷ ts)
      → IsOr (pred_from_term s) (t ∷ ts) n []
      → HasTree input n
  unfolding parse
  Lexes-HasTree input t ts n l d =
      rw (Lexes-lex s.case_table l) (rw (IsOr-parse_tokens (pred_from_term s) (t ∷ ts) n d))

  grouped :
      (toks us : List Token) (n : Node (Pred s))
      → IsOr (pred_from_term s) toks n []
      → IsPrimary (pred_from_term s) (lparen ∷ (toks ++ (rparen ∷ us))) n us
  grouped toks us n d = group (IsOr-append (pred_from_term s) (rparen ∷ us) d)

  either-Lexes :
      (a b : Text) (ta tb : List Token)
      → open_quote false a ≡ false
      → open_quote false b ≡ false
      → Lexes s.case_table a ta
      → Lexes s.case_table b tb
      → Lexes s.case_table
          (either a b)
          (lparen ∷ (ta ++ (rparen ∷ or_op ∷ lparen ∷ (tb ++ (rparen ∷ [])))))
  unfolding lex_round is_space ends_term read_raw_term flip_quote classify to_upper upper_rune
      text_eq
  either-Lexes a b ta tb ca cb la lb =
      Lexes-group s.case_table ca la
        (round refl (round refl (round refl (Lexes-group s.case_table cb lb at_end))))

  negation-Lexes :
      (a : Text) (ta : List Token)
      → open_quote false a ≡ false
      → Lexes s.case_table a ta
      → Lexes s.case_table (negation a) (not_op ∷ lparen ∷ (ta ++ (rparen ∷ [])))
  unfolding lex_round is_space ends_term read_raw_term flip_quote classify to_upper upper_rune
      text_eq
  negation-Lexes a ta ca la = round refl (round refl (Lexes-group s.case_table ca la at_end))

  -- Two queries `a` and `b` that parse to trees can be joined as "(a) OR (b)": that text parses too,
  -- and the joined query matches a transaction exactly if one of the two does.
  pub either-matches :
      (a b : Text) (na nb : Node (Pred s)) (r : SearchRecord s)
      → HasTree a na
      → HasTree b nb
      → (q : Query s) × (parse s (either a b) ≡ ok q)
        × (matches s q r ≡ (eval s na r || eval s nb r))
  unfolding matches
  either-matches a b na nb r ha hb =
      let ra = HasTree-Read a na ha in
      let rb = HasTree-Read b nb hb in
      (
        record { root = some (or_node na nb); text = either a b },
        Lexes-HasTree (either a b) lparen _ (or_node na nb)
            (either-Lexes a b ra.toks rb.toks ra.closed rb.closed ra.lexed rb.lexed)
            (or_more (one_and (one_not (plain stop (grouped ra.toks _ na ra.derived))))
              (one_not (plain stop (grouped rb.toks [] nb rb.derived)))),
        refl,
      )

  -- A query `a` that parses to a tree can be negated as "NOT (a)": that text parses too, and matches
  -- a transaction exactly if `a` does not.
  pub negation-matches :
      (a : Text) (na : Node (Pred s)) (r : SearchRecord s)
      → HasTree a na
      → (q : Query s) × (parse s (negation a) ≡ ok q) × (matches s q r ≡ not (eval s na r))
  unfolding matches
  negation-matches a na r ha =
      let ra = HasTree-Read a na ha in
      (
        record { root = some (not_node na); text = negation a },
        Lexes-HasTree (negation a) not_op _ (not_node na)
            (negation-Lexes a ra.toks ra.closed ra.lexed)
            (one_and (one_not (negated (odd stop) (grouped ra.toks [] na ra.derived)))),
        refl,
      )
