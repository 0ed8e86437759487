-- ===== src/Search/Lexer/Quotes.antt =====
-- The lexer ends, and it fails exactly on unbalanced quotes.
use Prim.Native.Nat.{◌%◌}
use kasas.Prelude.{
  ℕ, ◌≤◌, ◌≡◌, refl, ap, inl, inr, Bool, true, false, not, ◌&&◌, List, [], ◌∷◌, ◌++◌, Option, none,
  some, arith, ◌==◌, if◌then◌else◌, length, Bool-cases, suc, zero, ◌+◌, ◌∙◌, ◌⊎◌,
}
use kasas.Prelude.Text.{Text, CaseTable}
use kasas.Search.Lexer.{
  Token, ends_term, is_space, flip_quote, read_more, read_raw_term, read_unit, lex_round, lex,
  lex_from,
}
use kasas.Search.Outcome.{Outcome, failed, ok, unterminated_quote, ◌>>=◌}

-- Whether a text leaves a quote open, from a given state of the quotes.
abbrev pub open_quote : Bool → Text → Bool
open_quote q [] = q
open_quote q (c ∷ cs) = open_quote (flip_quote q c) cs

-- What `read_raw_term` returned, held against its input: it took a part of the input in front, and
-- the quotes stand after that part as they stood before the rest.
abbrev Reads : Bool → Text → Option (Text × Text) → Type 0
Reads q s none = open_quote q s ≡ true
Reads q s (some (raw, rest)) = (open_quote false rest ≡ open_quote q s) × (s ≡ raw ++ rest)

read_more-Reads :
    (q : Bool) (c : ℕ) (cs : Text) (o : Option (Text × Text))
    → Reads (flip_quote q c) cs o
    → Reads q (c ∷ cs) (read_more c o)
read_more-Reads q c cs none h = h
read_more-Reads q c cs (some (raw, rest)) h = (h.0, ap (◌∷◌ c) h.1)

stop-Reads :
    (q : Bool) (s : Text) (stop : Bool) (o : Option (Text × Text))
    → ((stop ≡ true) → q ≡ false)
    → Reads q s o
    → Reads q s (if stop then some ([], s) else o)
stop-Reads q s true o k h = let closed = k refl in (rw closed refl, refl)
stop-Reads q s false o k h = h

pub read_raw_term-Reads : (s : Text) (q : Bool) → Reads q s (read_raw_term q s)
unfolding read_raw_term
read_raw_term-Reads [] true = refl
read_raw_term-Reads [] false = (refl, refl)
read_raw_term-Reads (c ∷ cs) q =
    stop-Reads q (c ∷ cs) (not q && ends_term c) _ (λ h. ground arith)
      (read_more-Reads q c cs (read_raw_term (flip_quote q c) cs)
        (read_raw_term-Reads cs (flip_quote q c)))

-- A term that does not end at its first byte takes that byte.
read_more-length :
    (c : ℕ) (cs : Text) (q : Bool) (raw rest : Text)
    → read_more c (read_raw_term q cs) ≡ some (raw, rest)
    → length rest ≤ length cs
read_more-length c cs q raw rest e = go (read_raw_term q cs) (read_raw_term-Reads cs q) e
  where
    lengths : (a b : Text) → length b ≤ length (a ++ b)
    lengths [] b = omega arith
    lengths (x ∷ a) b = omega (arith, lengths a b)

    go :
        (o : Option (Text × Text))
        → Reads q cs o
        → read_more c o ≡ some (raw, rest)
        → length rest ≤ length cs
    go none h e = cc
    go (some (r, t)) h e = let same : t ≡ rest = cc in rw (← same) (rw h.1 (lengths r t))

module _ (u : CaseTable) where
  -- One round of the loop takes at least a byte, and keeps the state of the quotes.
  abbrev pub RoundOk : ℕ → Text → Option (List Token × Text) → Type 0
  RoundOk c cs none = open_quote false (c ∷ cs) ≡ true
  RoundOk c cs (some (toks, rest)) =
      (open_quote false rest ≡ open_quote false (c ∷ cs)) × (length rest ≤ length cs)

  read_unit-RoundOk :
      (c : ℕ) (cs : Text) (o : Option (Text × Text))
      → Reads false (c ∷ cs) o
      → ((raw rest : Text) → o ≡ some (raw, rest) → length rest ≤ length cs)
      → RoundOk c cs (read_unit u o)
  read_unit-RoundOk c cs none h k = h
  read_unit-RoundOk c cs (some (raw, rest)) h k = (h.0, k raw rest refl)

  term_length :
      (c : ℕ) (cs : Text)
      → ends_term c ≡ false
      → (raw rest : Text) → read_raw_term false (c ∷ cs) ≡ some (raw, rest)
      → length rest ≤ length cs
  unfolding read_raw_term
  term_length c cs n raw rest e = read_more-length c cs (flip_quote false c) raw rest (rw n at e)

  pub lex_round-RoundOk : (c : ℕ) (cs : Text) → RoundOk c cs (lex_round u c cs)
  unfolding lex_round
  lex_round-RoundOk c cs = elim (Bool-cases (is_space c)) [
    | inl e ↦ rw e (unfold flip_quote is_space in ground arith)
    | inr e ↦ elim (Bool-cases (c == b'(')) [
      | inl p ↦ rw (e, p) (unfold flip_quote in ground arith)
      | inr p ↦ elim (Bool-cases (c == b')')) [
        | inl r ↦ rw (e, p, r) (unfold flip_quote in ground arith)
        | inr r ↦
            rw (e, p, r)
              (read_unit-RoundOk c cs (read_raw_term false (c ∷ cs))
                (read_raw_term-Reads (c ∷ cs) false)
                (term_length c cs (unfold ends_term in rw (e, p, r))))
      ]
    ]
  ]

  abbrev pub LexOk : Text → Outcome (List Token) → Type 0
  LexOk s r =
      (open_quote false s ≡ true → r ≡ failed unterminated_quote)
      × (open_quote false s ≡ false → (toks : List Token) × (r ≡ ok toks))

  LexOk-more :
      (s rest : Text) (toks : List Token) (r : Outcome (List Token))
      → open_quote false rest ≡ open_quote false s
      → LexOk rest r
      → LexOk s (r >>= λ more. ok (toks ++ more))
  LexOk-more s rest toks r e h =
      (λ o. rw (h.0 (e ∙ o)), λ o. let (more, q) = h.1 (e ∙ o) in (toks ++ more, rw q))

  pub lex_from-LexOk : (f : ℕ) (s : Text) → length s ≤ f → LexOk s (lex_from u f s)
  unfolding lex_from
  lex_from-LexOk f [] h = (λ o. cc, λ o. ([], refl))
  lex_from-LexOk zero (c ∷ cs) h = absurd (omega arith)
  lex_from-LexOk (suc f) (c ∷ cs) h =
      go (lex_round u c cs) (lex_round-RoundOk c cs) (lex_from-LexOk f)
    where
      go :
          (o : Option (List Token × Text))
          → RoundOk c cs o
          → ((s : Text) → length s ≤ f → LexOk s (lex_from u f s))
          → LexOk (c ∷ cs) (elim o [
            | none ↦ failed unterminated_quote
            | some (toks, rest) ↦ (lex_from u f rest >>= λ more. ok (toks ++ more))
          ])
      go none k ih = (λ o. refl, λ o. cc)
      go (some (toks, rest)) k ih =
          LexOk-more (c ∷ cs) rest toks (lex_from u f rest) k.0 (ih rest (omega (arith, k.1)))

-- How often a byte stands in a text.
abbrev pub count : ℕ → Text → ℕ
count b [] = 0
count b (c ∷ cs) = (if c == b then 1 else 0) + count b cs

open_quote_lem :
    (s : Text) (q : Bool) → open_quote q s ≡ ((if q then 1 else 0) + count b'"' s) % 2 == 1
unfolding flip_quote
open_quote_lem [] true = refl
open_quote_lem [] false = refl
open_quote_lem (c ∷ cs) q = open_quote_lem cs (flip_quote q c) ∙ ground arith

-- `lex` ends within the fuel that it is given: on a text with an odd number of double quotes it fails,
-- with the unterminated quote, and on any other it returns tokens.
pub lex-outcome :
    (u : CaseTable) (input : Text)
    → ((count b'"' input % 2 ≡ 1) × (lex u input ≡ failed unterminated_quote))
      ⊎ ((count b'"' input % 2 ≡ 0) × ((toks : List Token) × (lex u input ≡ ok toks)))
unfolding lex
lex-outcome u input =
    let h = lex_from-LexOk u (length input) input (omega arith) in
    let parity : (count b'"' input % 2 ≡ 1) ⊎ (count b'"' input % 2 ≡ 0) = omega arith in
    elim parity [
      | inl o ↦ inl (o, h.0 (open_quote_lem input false ∙ ground arith))
      | inr z ↦ inr (z, h.1 (open_quote_lem input false ∙ ground arith))
    ]
