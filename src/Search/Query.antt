-- ===== src/Search/Query.antt =====
-- `search.Parse` and `Query.Match`.
pub mod Compose
pub mod Total
use kasas.Prelude.{Bool, List, Option, [], none, not, some, true, ◌&&◌, ◌||◌}
use kasas.Search.Outcome.{Outcome, ok, ◌>>=◌}
use kasas.Search.Std.{SearchRecord, Std}
use kasas.Search.Lexer.{Token, lex}
use kasas.Search.Parser.{Node, and_node, not_node, or_node, parse_tokens, pred}
use kasas.Search.Preds.{Pred, pred_from_term}
use kasas.Prelude.Text.{Text}

module _ (s : Std) where
  -- A query with no root matches everything.
  pub record Query : Type 0 where
    pub root : Option (Node (Pred s))
    pub text : Text

  unfoldable pub eval : Node (Pred s) → SearchRecord s → Bool
  eval (pred p) r = p r
  eval (and_node a b) r = eval a r && eval b r
  eval (or_node a b) r = eval a r || eval b r
  eval (not_node a) r = not (eval a r)

  abbrev pub root_matches : Option (Node (Pred s)) → SearchRecord s → Bool
  root_matches none r = true
  root_matches (some n) r = eval n r

  -- `q.Match(r)` of a query that is not nil
  unfoldable pub matches : Query → SearchRecord s → Bool
  unfolding eval
  matches q r = root_matches q.root r

  abbrev pub rooted : Text → List Token → Outcome Query
  rooted input [] = ok (record { root = none; text = input })
  rooted input toks =
      parse_tokens (pred_from_term s) toks >>= λ n. ok (record { root = some n; text = input })

  unfoldable pub parse : Text → Outcome Query
  parse input = lex s.case_table input >>= rooted input
