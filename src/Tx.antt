-- ===== src/Tx.antt =====
-- A database transaction: `RunInTx` of internal/db/store.go, and the statements that run in it.
-- The driver is not under this repository: which of its calls fail is a schedule that the
-- environment chooses, and a statement that fails stops the transaction, whose writes are undone.
pub mod Keeps
pub mod Returns
use kasas.Prelude.{Bool, List, Option, [], false, none, some, true, ◌∷◌}

-- The errors of a transaction's body: the driver's, json.Marshal's, and sql.ErrNoRows where the
-- caller takes it for an error.
pub data Problem : Type 0 where
  driver_error marshal_error no_rows : Problem

pub data Result {ℓ} (A : Type ℓ) : Type ℓ where
  ok : A → Result A
  err : Problem → Result A

-- What a body reads and writes: the state `S`, and for each statement to come whether it fails.
pub record Conn (S : Type 0) : Type 0 where
  pub state : S
  pub faults : List Bool

abbrev pub Tx : Type 0 → Type 0 → Type 0
Tx S A = Conn S → Result (A × Conn S)

module _ {S : Type 0} where
  infixl 5 ◌>>=◌ ◌>>◌
  abbrev pub then_run : {A B : Type 0} → Result (A × Conn S) → (A → Tx S B) → Result (B × Conn S)
  then_run (ok (a, c)) f = f a c
  then_run (err p) f = err p

  abbrev pub ◌>>=◌ : {A B : Type 0} → Tx S A → (A → Tx S B) → Tx S B
  ◌>>=◌ m f c = then_run (m c) f

  abbrev pub ◌>>◌ : {B : Type 0} → Tx S (Unit {0}) → Tx S B → Tx S B
  m >> k = m >>= λ _. k

  unfoldable pub pure : {A : Type 0} → A → Tx S A
  pure a c = ok (a, c)

  unfoldable pub fail : {A : Type 0} → Problem → Tx S A
  fail p c = err p

  -- A statement: it fails if the schedule says so, and else it reads and writes the state.
  abbrev pub run_statement : {A : Type 0} → (S → A × S) → S → List Bool → Result (A × Conn S)
  run_statement f s [] = let (a, s') = f s in ok (a, record { state = s'; faults = [] })
  run_statement f s (true ∷ faults) = err driver_error
  run_statement f s (false ∷ faults) =
      let (a, s') = f s in ok (a, record { state = s'; faults = faults })

  unfoldable pub statement : {A : Type 0} → (S → A × S) → Tx S A
  statement f c = run_statement f c.state c.faults

  -- A change of the body's own memory, which no driver can fail.
  unfoldable pub modify : (S → S) → Tx S (Unit {0})
  modify f c = ok (tt, record c { state = f c.state })

  -- for each element, in order
  unfoldable pub for_each : {A : Type 0} → (A → Tx S (Unit {0})) → List A → Tx S (Unit {0})
  unfolding pure
  for_each body [] = pure tt
  for_each body (a ∷ rest) = body a >> for_each body rest

  -- for each element, in order, with the variables that the loop updates
  unfoldable pub fold_each : {A B : Type 0} → (B → A → Tx S B) → B → List A → Tx S B
  unfolding pure
  fold_each body b [] = pure b
  fold_each body b (a ∷ rest) = body b a >>= λ b'. fold_each body b' rest

-- A value that json.Marshal may refuse.
unfoldable pub or_marshal_error : {S A : Type 0} → Option A → Tx S A
unfolding pure fail
or_marshal_error none = fail marshal_error
or_marshal_error (some a) = pure a
