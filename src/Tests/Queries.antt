-- ===== src/Tests/Queries.antt =====
-- Search queries at concrete texts.
use kasas.Search.Parser.{
  Node, and_node, not_node, or_node, parse_tokens, pred, close, finish, parse_or, skip_nots,
}
use kasas.Search.Values.{Period, date_test, op_eq, op_ge, op_gt, op_le, op_lt, op_ne, parse_period}
use kasas.Search.Values.Periods.{OneOf, date_test_partition}
use kasas.Search.Preds.{Pred, free_text_match, pred_from_term, text_pred}
use kasas.Search.Lexer.{
  Term, Token, lex, not_op, or_op, term, all_field_runes, classify, classify_term, dequote,
  ends_term, flip_quote, is_field_name, lex_from, lex_round, read_raw_term, strip_last,
}
use kasas.Search.Query.Compose.{HasTree, either, either-matches, negation, negation-matches}
use kasas.Search.Std.{SearchRecord}
use kasas.Prelude.Text.{
  Text, ascii_case, codes, text_eq, lower_rune, to_lower, to_upper, upper_rune, contains, cut,
  has_prefix, byte_length,
}
use kasas.Search.Outcome.{ok, unterminated_quote, Outcome, empty_value, failed, out_of_fuel}
use kasas.Prelude.{
  ◌⊎◌, List, [], false, if_elim, if◌then◌else◌, not, refl, ◌||◌, ◌↔◌, ◌∷◌, ◌≡◌, ◌≢◌,
}
use kasas.Search.Query.{Query, eval, matches, parse}
use kasas.Search.Parser.Complete.{parse_tokens_iff}
use kasas.Tests.Stubs.{stub_std, stub_std-OrdersTimes}
use kasas.Search.Lexer.Quotes.{count, lex-outcome}
use Prim.Native.Nat.{◌%◌}
use kasas.Prelude.Trim.{is_space, trim, trim_left, trim_right}
use Prim.Native.String.{String}
use kasas.Search.Parser.Grammar.{IsOr}
use kasas.Search.Parser.Total.{parse_tokens-ne_out_of_fuel}
use kasas.Search.Query.Total.{parse-ne_out_of_fuel}

abbrev pub groceries : SearchRecord stub_std
groceries = record {
  id = codes "t1";
  account_id = codes "a1";
  account_name = codes "Checking";
  amount = 42;
  amount_raw = codes "42";
  pending = false;
  date = 752000;
  description = codes "Corner Shop";
  payee = codes "shop";
  memo = [];
  labels = (codes "category", codes "food") ∷ [];
  extensions = [];
  relationships = [];
  synced_at = 752001;
}

-- a leaf of the tests: the text of a term, but not "bad"
abbrev plain_leaf : Term → Outcome Text
plain_leaf t = if text_eq t.value (codes "bad") then failed empty_value else ok t.value

abbrev word : String → Token
word w = term (record { field = []; value = codes w; quoted = false; raw = codes w })

-- a OR NOT NOT b NOT c
abbrev some_tokens : List Token
some_tokens = word "a" ∷ or_op ∷ not_op ∷ not_op ∷ word "b" ∷ not_op ∷ word "c" ∷ []

abbrev some_tree : Node Text
some_tree = or_node (pred (codes "a")) (and_node (pred (codes "b")) (not_node (pred (codes "c"))))

some_tokens-parse : parse_tokens plain_leaf some_tokens ≡ ok some_tree
unfolding parse_tokens text_eq parse_or skip_nots close finish
some_tokens-parse = refl

parse_tokens_iff_example :
    (parse_tokens plain_leaf some_tokens ≡ ok some_tree) ↔ IsOr plain_leaf some_tokens some_tree []
parse_tokens_iff_example = parse_tokens_iff plain_leaf some_tokens some_tree

plain_leaf-fits : (t : Term) → plain_leaf t ≢ out_of_fuel
plain_leaf-fits t =
    if_elim (λ r. r ≢ out_of_fuel) (text_eq t.value (codes "bad")) (λ e. cc) (λ e. cc)

parse_tokens-ne_out_of_fuel_example : parse_tokens plain_leaf some_tokens ≢ out_of_fuel
parse_tokens-ne_out_of_fuel_example =
    parse_tokens-ne_out_of_fuel plain_leaf plain_leaf-fits some_tokens

abbrev quoted_text : Text
quoted_text = codes "payee:\"corner shop\" -amount:>10"

lex-outcome_example :
    ((count b'"' quoted_text % 2 ≡ 1) × (lex ascii_case quoted_text ≡ failed unterminated_quote))
    ⊎ ((count b'"' quoted_text % 2 ≡ 0)
        × ((toks : List Token) × (lex ascii_case quoted_text ≡ ok toks)))
lex-outcome_example = lex-outcome ascii_case quoted_text

abbrev shop : Text
shop = codes "shop"

abbrev at_shop : Text
at_shop = codes "payee:Shop"

abbrev shop_tokens : List Token
shop_tokens = term (record { field = []; value = shop; quoted = false; raw = shop }) ∷ []

abbrev at_shop_tokens : List Token
at_shop_tokens =
    term (record { field = codes "payee"; value = codes "Shop"; quoted = false; raw = at_shop })
    ∷ []

abbrev shop_tree : Node (Pred stub_std)
shop_tree = pred (λ r. free_text_match stub_std r (to_lower ascii_case shop))

abbrev at_shop_tree : Node (Pred stub_std)
at_shop_tree = pred (λ r. contains (to_lower ascii_case r.payee) (to_lower ascii_case shop))

shop-lexed : lex ascii_case shop ≡ ok shop_tokens
unfolding has_prefix cut lex lex_from lex_round is_space read_raw_term flip_quote ends_term classify
    classify_term dequote strip_last is_field_name all_field_runes text_eq to_upper upper_rune
    to_lower lower_rune
shop-lexed = refl

at_shop-lexed : lex ascii_case at_shop ≡ ok at_shop_tokens
unfolding has_prefix cut lex lex_from lex_round is_space read_raw_term flip_quote ends_term classify
    classify_term dequote strip_last is_field_name all_field_runes text_eq to_upper upper_rune
    to_lower lower_rune
at_shop-lexed = refl

shop-parsed : parse_tokens (pred_from_term stub_std) shop_tokens ≡ ok shop_tree
unfolding parse_tokens parse_or skip_nots close finish pred_from_term text_eq
shop-parsed = refl

at_shop-parsed : parse_tokens (pred_from_term stub_std) at_shop_tokens ≡ ok at_shop_tree
unfolding parse_tokens parse_or skip_nots close finish pred_from_term text_eq text_pred to_lower
    dequote trim trim_right trim_left is_space lower_rune
at_shop-parsed = refl

shop-HasTree : HasTree stub_std shop shop_tree
unfolding parse
shop-HasTree = rw (shop-lexed, shop-parsed) refl

at_shop-HasTree : HasTree stub_std at_shop at_shop_tree
unfolding parse
at_shop-HasTree = rw (at_shop-lexed, at_shop-parsed) refl

either-matches_example :
    (q : Query stub_std) × (parse stub_std (either shop at_shop) ≡ ok q)
    × (matches stub_std q groceries
        ≡ (eval stub_std shop_tree groceries || eval stub_std at_shop_tree groceries))
either-matches_example =
    either-matches stub_std shop at_shop shop_tree at_shop_tree groceries shop-HasTree
      at_shop-HasTree

negation-matches_example :
    (q : Query stub_std) × (parse stub_std (negation at_shop) ≡ ok q)
    × (matches stub_std q groceries ≡ not (eval stub_std at_shop_tree groceries))
negation-matches_example = negation-matches stub_std at_shop at_shop_tree groceries at_shop-HasTree

abbrev this_year : Period stub_std
this_year = (753672, 754044)

this_year-parse : parse_period stub_std (codes "2026") ≡ ok this_year
unfolding parse_period byte_length trim trim_right trim_left is_space
this_year-parse = refl

date_test_partition_example :
    OneOf stub_std
      (date_test stub_std op_lt this_year 752000)
      (date_test stub_std op_eq this_year 752000)
      (date_test stub_std op_gt this_year 752000)
    × (date_test stub_std op_ne this_year 752000 ≡ not (date_test stub_std op_eq this_year 752000))
    × (date_test stub_std op_ge this_year 752000 ≡ not (date_test stub_std op_lt this_year 752000))
    × (date_test stub_std op_le this_year 752000 ≡ not (date_test stub_std op_gt this_year 752000))
date_test_partition_example =
    date_test_partition stub_std (codes "2026") this_year 752000 stub_std-OrdersTimes
      this_year-parse

parse-ne_out_of_fuel_example : parse stub_std quoted_text ≢ out_of_fuel
parse-ne_out_of_fuel_example = parse-ne_out_of_fuel stub_std quoted_text
