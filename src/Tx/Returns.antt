-- ===== src/Tx/Returns.antt =====
-- Bodies that return a result when no call of the driver fails: one rule for each way to build one.
use kasas.Prelude.{
  Bool, List, Option, [], ap, false, if◌then◌else◌, refl, some, subst, sym, true, ◌∙◌, ◌∷◌, ◌≡◌,
}
use kasas.Tx.{
  Conn, Result, Tx, fold_each, for_each, modify, ok, or_marshal_error, pure, run_statement,
  statement, then_run, ◌>>=◌,
}

pub record Returned {S A : Type 0} (r : Result (A × Conn S)) : Type 0 where
  pub value : A
  pub conn : Conn S
  pub result : r ≡ ok (value, conn)
  pub no_faults : conn.faults ≡ []

pub record Returns {S A : Type 0} (m : Tx S A) : Type 0 where
  pub at : (c : Conn S) → c.faults ≡ [] → Returned (m c)

module _ {S : Type 0} where
  pub Returns-pure : {A : Type 0} (a : A) → Returns {S = S} (pure a)
  unfolding pure
  Returns-pure a = record {
    at = λ c n. record { value = a; conn = c; result = refl; no_faults = n };
  }

  pub Returns-statement : {A : Type 0} (f : S → A × S) → Returns (statement f)
  unfolding statement
  Returns-statement f = record {
    at = λ c n. record {
      value = (f c.state).0;
      conn = record { state = (f c.state).1; faults = [] };
      result = ap (run_statement f c.state) n;
      no_faults = refl;
    };
  }

  pub Returns-modify : (f : S → S) → Returns (modify f)
  unfolding modify
  Returns-modify f = record {
    at = λ c n. record {
      value = tt;
      conn = record c { state = f c.state };
      result = refl;
      no_faults = n;
    };
  }

  pub Returns-bind :
      {A B : Type 0} (m : Tx S A) (f : A → Tx S B)
      → Returns m
      → ((a : A) → Returns (f a))
      → Returns (m >>= f)
  Returns-bind m f km kf = record {
    at = λ c n.
        let first = km.at c n in
        let second = (kf first.value).at first.conn first.no_faults in
        record {
          value = second.value;
          conn = second.conn;
          result = ap (λ r. then_run r f) first.result ∙ second.result;
          no_faults = second.no_faults;
        };
  }

  pub Returns-or_marshal_error :
      {A : Type 0} (o : Option A) (a : A) → o ≡ some a → Returns {S = S} (or_marshal_error o)
  unfolding or_marshal_error
  Returns-or_marshal_error o a e =
      subst (λ x. Returns {S = S} (or_marshal_error x)) (sym e) (Returns-pure a)

  pub Returns-if :
      {A : Type 0} (b : Bool) (m n : Tx S A) → Returns m → Returns n → Returns (if b then m else n)
  Returns-if true m n h k = h
  Returns-if false m n h k = k

  pub Returns-for_each :
      {A : Type 0} (body : A → Tx S (Unit {0})) (xs : List A)
      → ((a : A) → Returns (body a))
      → Returns (for_each body xs)
  unfolding for_each
  Returns-for_each body [] k = Returns-pure tt
  Returns-for_each body (a ∷ rest) k =
      Returns-bind (body a) (λ _. for_each body rest) (k a) (λ _. Returns-for_each body rest k)

  pub Returns-fold_each :
      {A B : Type 0} (body : B → A → Tx S B) (b : B) (xs : List A)
      → ((b : B) (a : A) → Returns (body b a))
      → Returns (fold_each body b xs)
  unfolding fold_each
  Returns-fold_each body b [] k = Returns-pure b
  Returns-fold_each body b (a ∷ rest) k =
      Returns-bind (body b a) (λ b'. fold_each body b' rest) (k b a)
        (λ b'. Returns-fold_each body b' rest k)
