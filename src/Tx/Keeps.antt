-- ===== src/Tx/Keeps.antt =====
-- Invariants of transaction bodies: one rule for each way to build a body.
use kasas.Prelude.{
  Bool, List, Option, [], false, if◌then◌else◌, none, refl, some, subst, true, ◌∷◌, ◌≡◌,
}
use kasas.Tx.{
  Conn, Problem, Result, Tx, err, fail, for_each, marshal_error, modify, ok, or_marshal_error, pure,
  run_statement, statement, then_run, ◌>>=◌, fold_each,
}

module _ {S : Type 0} where
  pub bind_at :
      {A B : Type 0} (r : Result (A × Conn S)) (f : A → Tx S B) (b : B) (d : Conn S)
      → then_run r f ≡ ok (b, d)
      → (a : A) × (c : Conn S) × (r ≡ ok (a, c)) × (f a c ≡ ok (b, d))
  bind_at (ok (a, c)) f b d e = (a, c, refl, e)
  bind_at (err p) f b d e = cc

  -- What a statement that returned has done to the state.
  pub statement_inv :
      {A : Type 0} (f : S → A × S) (c : Conn S) (a : A) (d : Conn S)
      → statement f c ≡ ok (a, d)
      → (a ≡ (f c.state).0) × (d.state ≡ (f c.state).1)
  unfolding statement
  statement_inv f c a d e = by_faults c.faults e
    where
      by_faults :
          (faults : List Bool)
          → run_statement f c.state faults ≡ ok (a, d)
          → (a ≡ (f c.state).0) × (d.state ≡ (f c.state).1)
      by_faults [] k = (cc, cc)
      by_faults (true ∷ faults) k = cc
      by_faults (false ∷ faults) k = (cc, cc)

  pub or_marshal_error_inv :
      {A : Type 0} (o : Option A) (c : Conn S) (a : A) (d : Conn S)
      → or_marshal_error o c ≡ ok (a, d)
      → (o ≡ some a) × (d ≡ c)
  unfolding or_marshal_error
  or_marshal_error_inv none c a d e = cc
  or_marshal_error_inv (some b) c a d e = (cc, cc)

  statement_at :
      {A : Type 0} (P : S → Type 0) (f : S → A × S) (s : S) (faults : List Bool) (a : A)
      (d : Conn S)
      → P (f s).1
      → run_statement f s faults ≡ ok (a, d)
      → P d.state
  statement_at P f s [] a d h e =
      let same : record { state = (f s).1; faults = [] } ≡ d = cc in subst (λ x. P x.state) same h
  statement_at P f s (true ∷ faults) a d h e = cc
  statement_at P f s (false ∷ faults) a d h e =
      let same : record { state = (f s).1; faults = faults } ≡ d = cc in
      subst (λ x. P x.state) same h

-- If `m` returns, `P` holds of the state behind it where it held before.
pub record Keeps {S A : Type 0} (P : S → Type 0) (m : Tx S A) : Type 0 where
  pub at : (c : Conn S) (a : A) (d : Conn S) → P c.state → m c ≡ ok (a, d) → P d.state

module _ {S : Type 0} {P : S → Type 0} where
  pub Keeps-pure : {A : Type 0} (a : A) → Keeps P (pure a)
  unfolding pure
  Keeps-pure a = record { at = λ c b d h e. let same : c ≡ d = cc in subst (λ x. P x.state) same h }

  pub Keeps-fail : {A : Type 0} (p : Problem) → Keeps P (fail {A = A} p)
  unfolding fail
  Keeps-fail p = record { at = λ c b d h e. cc }

  pub Keeps-statement :
      {A : Type 0} (f : S → A × S) → ((s : S) → P s → P (f s).1) → Keeps P (statement f)
  unfolding statement
  Keeps-statement f k = record {
    at = λ c a d h e. statement_at P f c.state c.faults a d (k c.state h) e;
  }

  pub Keeps-modify : (f : S → S) → ((s : S) → P s → P (f s)) → Keeps P (modify f)
  unfolding modify
  Keeps-modify f k = record {
    at = λ c a d h e.
        let same : record c { state = f c.state } ≡ d = cc in
        subst (λ x. P x.state) same (k c.state h);
  }

  pub Keeps-bind :
      {A B : Type 0} (m : Tx S A) (f : A → Tx S B)
      → Keeps P m
      → ((a : A) → Keeps P (f a))
      → Keeps P (m >>= f)
  Keeps-bind m f km kf = record {
    at = λ c b d h e.
        let (a, mid, first, second) = bind_at (m c) f b d e in
        (kf a).at mid b d (km.at c a mid h first) second;
  }

  -- The rest may rest on what the first part's result tells of the state.
  pub Keeps-bind_knowing :
      {A B : Type 0} (R : A → Type 0) (m : Tx S A) (f : A → Tx S B)
      → ((c : Conn S) (a : A) (d : Conn S) → P c.state → m c ≡ ok (a, d) → P d.state × R a)
      → ((a : A) → R a → Keeps P (f a))
      → Keeps P (m >>= f)
  Keeps-bind_knowing R m f km kf = record {
    at = λ c b d h e.
        let (a, mid, first, second) = bind_at (m c) f b d e in
        let (p, r) = km c a mid h first in (kf a r).at mid b d p second;
  }

  pub Keeps-or_marshal_error : {A : Type 0} (o : Option A) → Keeps P (or_marshal_error o)
  unfolding or_marshal_error
  Keeps-or_marshal_error none = Keeps-fail marshal_error
  Keeps-or_marshal_error (some a) = Keeps-pure a

  pub Keeps-if :
      {A : Type 0} (b : Bool) (m n : Tx S A) → Keeps P m → Keeps P n → Keeps P (if b then m else n)
  Keeps-if true m n h k = h
  Keeps-if false m n h k = k

  pub Keeps-for_each :
      {A : Type 0} (body : A → Tx S (Unit {0})) (xs : List A)
      → ((a : A) → Keeps P (body a))
      → Keeps P (for_each body xs)
  unfolding for_each
  Keeps-for_each body [] k = Keeps-pure tt
  Keeps-for_each body (a ∷ rest) k =
      Keeps-bind (body a) (λ _. for_each body rest) (k a) (λ _. Keeps-for_each body rest k)

  pub Keeps-fold_each :
      {A B : Type 0} (body : B → A → Tx S B) (b : B) (xs : List A)
      → ((b : B) (a : A) → Keeps P (body b a))
      → Keeps P (fold_each body b xs)
  unfolding fold_each
  Keeps-fold_each body b [] k = Keeps-pure b
  Keeps-fold_each body b (a ∷ rest) k =
      Keeps-bind (body b a) (λ b'. fold_each body b' rest) (k b a)
        (λ b'. Keeps-fold_each body b' rest k)

pub ruleset keeps_rules = (
  Keeps-pure, Keeps-fail, Keeps-bind, Keeps-or_marshal_error, Keeps-if, Keeps-for_each,
  Keeps-fold_each,
)
