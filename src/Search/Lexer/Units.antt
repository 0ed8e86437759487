-- ===== src/Search/Lexer/Units.antt =====
-- The lexer as a relation, and the tokens of two texts that stand one behind the other.
use kasas.Prelude.{
  Bool, Bool-cases, List, Option, [], arith, false, inl, inr, length, none, not, refl, some, subst,
  suc, true, zero, ℕ, ◌&&◌, ◌++◌, ◌∷◌, ◌≡◌, ◌≤◌, append_assoc, sym, ◌==◌, ◌∙◌,
}
use kasas.Search.Lexer.{
  Token, ends_term, flip_quote, lex, lex_from, lex_round, read_more, read_raw_term, classify,
  is_space, lparen, read_unit, rparen,
}
use kasas.Search.Outcome.{>>=-eq-ok, failed, ok, unterminated_quote, ◌>>=◌}
use kasas.Search.Lexer.Quotes.{lex_from-LexOk, lex_round-RoundOk, open_quote}
use kasas.Prelude.Text.{CaseTable, Text}
use kasas.Prelude.Trim.{front}

module _ (u : CaseTable) where
  -- The rounds of the loop read `toks` off the whole text.
  pub data Lexes : Text → List Token → Type 0 where
    at_end : Lexes [] []
    round :
        {c : ℕ} {cs rest : Text} {toks more : List Token}
        → lex_round u c cs ≡ some (toks, rest)
        → Lexes rest more
        → Lexes (c ∷ cs) (toks ++ more)

  lex_from-Lexes : (f : ℕ) (s : Text) (toks : List Token) → lex_from u f s ≡ ok toks → Lexes s toks
  unfolding lex_from
  lex_from-Lexes f [] toks h = let e : [] ≡ toks = cc in subst (Lexes []) e at_end
  lex_from-Lexes zero (c ∷ cs) toks h = cc
  lex_from-Lexes (suc f) (c ∷ cs) toks h = go (lex_round u c cs) refl h (lex_from-Lexes f)
    where
      go :
          (o : Option (List Token × Text))
          → lex_round u c cs ≡ o
          → (elim o [
            | none ↦ failed unterminated_quote
            | some (toks, rest) ↦ (lex_from u f rest >>= λ more. ok (toks ++ more))
          ])
            ≡ ok toks
          → ((s : Text) (toks : List Token) → lex_from u f s ≡ ok toks → Lexes s toks)
          → Lexes (c ∷ cs) toks
      go none r k ih = cc
      go (some (first, rest)) r k ih =
          let (more, e, d) = >>=-eq-ok (lex_from u f rest) _ k in
          let same : first ++ more ≡ toks = cc in
          subst (Lexes (c ∷ cs)) same (round r (ih rest more e))

  pub lex-Lexes : (s : Text) (toks : List Token) → lex u s ≡ ok toks → Lexes s toks
  unfolding lex
  lex-Lexes s toks = lex_from-Lexes (length s) s toks

  round_shorter :
      (c : ℕ) (cs rest : Text) (toks : List Token)
      → lex_round u c cs ≡ some (toks, rest)
      → length rest ≤ length cs
  round_shorter c cs rest toks e = (rw e at (lex_round-RoundOk u c cs)).1

  Lexes-lex_from :
      (f : ℕ) {s : Text} {toks : List Token}
      → Lexes s toks
      → length s ≤ f
      → lex_from u f s ≡ ok toks
  unfolding lex_from
  Lexes-lex_from f at_end h = refl
  Lexes-lex_from zero (round e k) h = absurd (omega arith)
  Lexes-lex_from (suc f) (round {c} {cs} {rest} {toks} e k) h =
      rw (e, lex_from) (rw (Lexes-lex_from f k (omega (arith, round_shorter c cs rest toks e))))

  pub Lexes-lex : {s : Text} {toks : List Token} → Lexes s toks → lex u s ≡ ok toks
  unfolding lex
  Lexes-lex {s} h = Lexes-lex_from (length s) h (omega arith)

  -- A text that the lexer takes closes its quotes.
  pub lex_closes : (s : Text) (toks : List Token) → lex u s ≡ ok toks → open_quote false s ≡ false
  unfolding lex
  lex_closes s toks h = elim (Bool-cases (open_quote false s)) [
    | inl o ↦ cc ((lex_from-LexOk u (length s) s (omega arith)).0 o)
    | inr o ↦ o
  ]

  read_more-some :
      (c : ℕ) (o : Option (Text × Text)) (raw left : Text)
      → read_more c o ≡ some (raw, left)
      → (r : Text) × (o ≡ some (r, left)) × (raw ≡ c ∷ r)
  read_more-some c none raw left h = cc
  read_more-some c (some (r, t)) raw left h = (r, cc, cc)

  -- A text that closes its quotes is read as by itself, up to a byte that ends a term.
  read_raw_term-append :
      (s rest : Text) (c : ℕ) (q : Bool)
      → ends_term c ≡ true
      → open_quote q s ≡ false
      → (raw left : Text) → read_raw_term q s ≡ some (raw, left)
      → read_raw_term q (s ++ (c ∷ rest)) ≡ some (raw, left ++ (c ∷ rest))
  unfolding read_raw_term
  read_raw_term-append [] rest c true e o raw left h = cc
  read_raw_term-append [] rest c false e o raw left h = rw e (ground arith)
  read_raw_term-append (x ∷ s) rest c q e o raw left h = elim (Bool-cases (not q && ends_term x)) [
    | inl k ↦
        let same : x ∷ s ≡ left = cc (rw k at h) in
        let none_read : [] ≡ raw = cc (rw k at h) in rw k (rw (← same, ← none_read) refl)
    | inr k ↦
        let (r, found, front) = read_more-some x _ raw left (rw k at h) in
        rw k (rw (read_raw_term-append s rest c (flip_quote q x) e o r left found) (rw front))
  ]

  read_unit-some :
      (o : Option (Text × Text)) (toks : List Token) (rest : Text)
      → read_unit u o ≡ some (toks, rest)
      → (raw : Text) × (o ≡ some (raw, rest)) × (classify u raw ≡ toks)
  read_unit-some none toks rest h = cc
  read_unit-some (some (raw, r)) toks rest h = (raw, cc, cc)

  lex_round-append :
      (c d : ℕ) (cs rest behind : Text) (toks : List Token)
      → ends_term d ≡ true
      → open_quote false (c ∷ cs) ≡ false
      → lex_round u c cs ≡ some (toks, rest)
      → lex_round u c (cs ++ (d ∷ behind)) ≡ some (toks, rest ++ (d ∷ behind))
  unfolding lex_round
  lex_round-append c d cs rest behind toks e o h = elim (Bool-cases (is_space c)) [
    | inl p ↦ rw p (taken (rw p at h))
    | inr p ↦ elim (Bool-cases (c == b'(')) [
      | inl q ↦ rw (p, q) (taken (rw (p, q) at h))
      | inr q ↦ elim (Bool-cases (c == b')')) [
        | inl r ↦ rw (p, q, r) (taken (rw (p, q, r) at h))
        | inr r ↦ rw (p, q, r) (unit (rw (p, q, r) at h))
      ]
    ]
  ]
    where
      taken :
          {some_toks : List Token}
          → ◌≡◌ {A = Option (List Token × Text)} (some (some_toks, cs)) (some (toks, rest))
          → ◌≡◌ {A = Option (List Token × Text)}
              (some (some_toks, cs ++ (d ∷ behind)))
              (some (toks, rest ++ (d ∷ behind)))
      taken {some_toks} k =
          let same : some_toks ≡ toks = cc in let left : cs ≡ rest = cc in rw (same, left)

      unit :
          read_unit u (read_raw_term false (c ∷ cs)) ≡ some (toks, rest)
          → read_unit u (read_raw_term false (c ∷ (cs ++ (d ∷ behind))))
            ≡ some (toks, rest ++ (d ∷ behind))
      unit k =
          let (raw, found, is) = read_unit-some (read_raw_term false (c ∷ cs)) toks rest k in
          rw (read_raw_term-append (c ∷ cs) behind d false e o raw rest found) (rw is)

  -- The tokens of a text that closes its quotes come first, up to a byte that ends a term.
  pub Lexes-append :
      {s behind : Text} {toks more : List Token} {d : ℕ}
      → ends_term d ≡ true
      → open_quote false s ≡ false
      → Lexes s toks
      → Lexes (d ∷ behind) more
      → Lexes (s ++ (d ∷ behind)) (toks ++ more)
  Lexes-append e o at_end k = k
  Lexes-append {behind} {more} {d} e o (round {c} {cs} {rest} {toks} {more = others} r h) k =
      subst (Lexes (c ∷ (cs ++ (d ∷ behind)))) (sym (append_assoc toks others more)) (
        round (lex_round-append c d cs rest behind toks e o r)
          (Lexes-append e ((rw r at (lex_round-RoundOk u c cs)).0 ∙ o) h k))

  -- A text in parentheses, with more behind it.
  pub Lexes-group :
      {s behind : Text} {toks more : List Token}
      → open_quote false s ≡ false
      → Lexes s toks
      → Lexes behind more
      → Lexes (b'(' ∷ (s ++ (b')' ∷ behind))) (lparen ∷ (toks ++ (rparen ∷ more)))
  unfolding lex_round is_space ends_term
  Lexes-group o h k = round refl (Lexes-append refl o h (round refl k))
