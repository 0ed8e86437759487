-- ===== src/Search/Lexer.antt =====
-- The lexer of search.go: `lex`, `readRawTerm`, `classify` and their helpers.
pub mod Quotes
pub mod Units
use kasas.Prelude.{
  ℕ, zero, suc, Bool, true, false, not, ◌&&◌, ◌||◌, List, [], ◌∷◌, ◌++◌, Option, none, some, ◌==◌,
  leb, if◌then◌else◌, length,
}
use kasas.Prelude.Text.{Text, codes, text_eq, has_prefix, cut, CaseTable, to_lower, to_upper}
use kasas.Search.Outcome.{Outcome, ok, failed, out_of_fuel, unterminated_quote, ◌>>=◌}

-- A token of kind tTerm: the field is "" for free text.
pub record Term : Type 0 where
  pub field : Text
  pub value : Text
  pub quoted : Bool
  pub raw : Text

-- The tokens by their kind. `raw` serves only the messages of the other kinds, and tEOF is what
-- `peek` returns past the end of the list.
pub data Token : Type 0 where
  lparen rparen and_op or_op not_op : Token
  term : Term → Token

unfoldable pub is_space : ℕ → Bool
is_space c = c == b' ' || c == b'\t' || c == b'\n' || c == b'\r'

-- What ends a term outside quotes.
unfoldable pub ends_term : ℕ → Bool
unfolding is_space
ends_term c = is_space c || c == b'(' || c == b')'

-- The state of the quotes behind a byte.
unfoldable pub flip_quote : Bool → ℕ → Bool
flip_quote in_quote c = if in_quote then not (c == b'"') else c == b'"'

-- One byte in front of what was read.
abbrev pub read_more : ℕ → Option (Text × Text) → Option (Text × Text)
read_more c none = none
read_more c (some (raw, rest)) = some (c ∷ raw, rest)

-- `readRawTerm` on what follows position `i`: the raw term and what is left; `none` is the
-- unterminated quote.
unfoldable pub read_raw_term : Bool → Text → Option (Text × Text)
unfolding ends_term flip_quote
read_raw_term in_quote [] = if in_quote then none else some ([], [])
read_raw_term in_quote (c ∷ cs) =
    let more = read_more c (read_raw_term (flip_quote in_quote c) cs) in
    if not in_quote && ends_term c then some ([], c ∷ cs) else more

-- A byte in front of what is left of the rest once its last byte `q` is gone.
abbrev pub strip_behind : ℕ → ℕ → Text → Option Text → Option Text
strip_behind q y [] r = if y == q then some [] else none
strip_behind q y (_ ∷ _) none = none
strip_behind q y (_ ∷ _) (some r) = some (y ∷ r)

-- All but the last byte, if that is `q`.
unfoldable pub strip_last : ℕ → Text → Option Text
strip_last q [] = none
strip_last q (x ∷ xs) = strip_behind q x xs (strip_last q xs)

unfoldable pub dequote : Text → Text
unfolding strip_last
dequote [] = []
dequote (c ∷ cs) =
    if c == b'"' then elim (strip_last b'"' cs) [ none ↦ c ∷ cs | some s ↦ s ] else c ∷ cs

abbrev pub is_field_rune : ℕ → Bool
is_field_rune r =
    (leb b'a' r && leb r b'z')
    || (leb b'A' r && leb r b'Z')
    || (leb b'0' r && leb r b'9')
    || r == b'_'

unfoldable pub all_field_runes : Text → Bool
all_field_runes [] = true
all_field_runes (r ∷ rs) = is_field_rune r && all_field_runes rs

unfoldable pub is_field_name : Text → Bool
unfolding all_field_runes
is_field_name [] = false
is_field_name (r ∷ rs) = all_field_runes (r ∷ rs)

abbrev free_text : Text → Text → Bool → Term
free_text value raw quoted = record { field = []; value = value; quoted = quoted; raw = raw }

module _ (u : CaseTable) where
  -- `field:value`, if the prefix is an identifier
  abbrev split_field : Text → Option (Text × Text) → Term
  split_field raw none = free_text raw raw false
  split_field raw (some (name, value)) =
      if is_field_name name
      then (record { field = to_lower u name; value = value; quoted = false; raw = raw })
      else free_text raw raw false

  unfoldable pub classify_term : Text → Term
  classify_term raw =
      if has_prefix raw (codes "\"")
      then free_text (dequote raw) raw true
      else split_field raw (cut (codes ":") raw)

  -- behind a leading "-"
  abbrev negated : Text → List Token
  negated [] = not_op ∷ []
  negated rest = not_op ∷ term (classify_term rest) ∷ []

  abbrev dashed : Text → List Token
  dashed [] = term (classify_term []) ∷ []
  dashed (c ∷ rest) = if c == b'-' then negated rest else term (classify_term (c ∷ rest)) ∷ []

  unfoldable pub classify : Text → List Token
  unfolding classify_term
  classify raw =
      if text_eq raw (codes "|")
      then or_op ∷ []
      else if text_eq raw (codes "&")
      then and_op ∷ []
      else if text_eq (to_upper u raw) (codes "OR")
      then or_op ∷ []
      else if text_eq (to_upper u raw) (codes "AND")
      then and_op ∷ []
      else if text_eq (to_upper u raw) (codes "NOT")
      then not_op ∷ []
      else dashed raw

  abbrev pub read_unit : Option (Text × Text) → Option (List Token × Text)
  read_unit none = none
  read_unit (some (raw, rest)) = some (classify raw, rest)

  -- One round of the loop of `lex` at the byte `c`: the tokens it appends and the input behind it.
  unfoldable pub lex_round : ℕ → Text → Option (List Token × Text)
  lex_round c cs =
      if is_space c
      then some ([], cs)
      else if c == b'('
      then some (lparen ∷ [], cs)
      else if c == b')'
      then some (rparen ∷ [], cs)
      else read_unit (read_raw_term false (c ∷ cs))

  -- The loop, a unit of fuel for each round.
  unfoldable pub lex_from : ℕ → Text → Outcome (List Token)
  lex_from f [] = ok []
  lex_from zero (c ∷ cs) = out_of_fuel
  lex_from (suc f) (c ∷ cs) = elim (lex_round c cs) [
    | none ↦ failed unterminated_quote
    | some (toks, rest) ↦ (lex_from f rest >>= λ more. ok (toks ++ more))
  ]

  unfoldable pub lex : Text → Outcome (List Token)
  lex input = lex_from (length input) input
