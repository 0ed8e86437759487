-- ===== src/Events/Stream.antt =====
-- `Emitter.Record`: the body runs in a database transaction, and what it buffered is published
-- after the commit.
use kasas.Tx.{Conn, Result, driver_error, err, modify, Problem, ok, statement, ◌>>=◌}
use kasas.Events.Recorder.{
  Emitter, buffer, emit, emit_extension_diff, emit_label_diff, emit_relationship_diff, version,
  version_change,
}
use kasas.Prelude.{
  Bool, Bool-cases, List, Option, [], append-nil, false, if◌then◌else◌, inl, inr, none, refl, some,
  suc, sym, true, ℕ, ◌++◌, ◌∷◌, ◌≡◌, ap, append_assoc, subst, ◌==◌, ◌∙◌,
}
use kasas.Events.Codec.{Codec, Payload, TransactionPayload, of_transaction}
use kasas.Tx.Keeps.{
  Keeps, Keeps-bind, Keeps-for_each, Keeps-if, Keeps-or_marshal_error, Keeps-pure, Keeps-statement,
}
use kasas.Store.{
  Body, Session, count_transaction_versions, insert_event, insert_transaction_version,
}
use kasas.Prelude.Dict.{Dict}
use kasas.Prelude.Text.{Text}
use kasas.Relationships.{Relationship}
use kasas.Store.Tables.{ChangeKind, Db, EntityType, EventRow, EventType, imported}

-- Which of the driver's calls fail: BeginTx, the statements in order, Commit.
pub record Schedule : Type 0 where
  pub begin_fails : Bool
  pub faults : List Bool
  pub commit_fails : Bool

-- What `Record` leaves behind: its error or result, the database, and what the bus was given.
pub record Recorded (A : Type 0) : Type 0 where
  pub result : Result A
  pub db : Db
  pub published : List EventRow

-- a nil emitter publishes nothing
abbrev pub publish : Option Emitter → List EventRow → List EventRow
publish none es = []
publish (some e) es = es

module _ {A : Type 0} where
  abbrev pub rolled_back : Problem → Db → Recorded A
  rolled_back p db = record { result = err p; db = db; published = [] }

  abbrev pub commit : Option Emitter → Schedule → Db → Result (A × Conn Session) → Recorded A
  commit e sched db (err p) = rolled_back p db
  commit e sched db (ok (a, c)) =
      if sched.commit_fails
      then rolled_back driver_error db
      else record { result = ok a; db = c.state.db; published = publish e c.state.emitted }

  unfoldable pub record_tx : Option Emitter → Schedule → Db → Body A → Recorded A
  record_tx e sched db body =
      if sched.begin_fails
      then rolled_back driver_error db
      else commit e sched db
          (body (record { state = record { db = db; emitted = [] }; faults = sched.faults }))

-- The events table is what it was, with the buffered events behind it.
abbrev pub Follows : List EventRow → Session → Type 0
Follows start s = s.db.events ≡ start ++ s.emitted

-- All or nothing: an error leaves the database as it was and publishes nothing; a success has
-- published exactly the rows that the events table gained, in their order.
pub data AllOrNothing (before : Db) {A : Type 0} : Recorded A → Type 0 where
  nothing :
      {r : Recorded A} (p : Problem)
      → r.result ≡ err p
      → r.db ≡ before
      → r.published ≡ []
      → AllOrNothing before r
  everything :
      {r : Recorded A} (a : A)
      → r.result ≡ ok a
      → r.db.events ≡ before.events ++ r.published
      → AllOrNothing before r

module _ {A : Type 0} (e : Emitter) (sched : Schedule) (db : Db) where
  commit-AllOrNothing :
      (r : Result (A × Conn Session))
      → ((a : A) (c : Conn Session) → r ≡ ok (a, c) → Follows db.events c.state)
      → AllOrNothing db (commit (some e) sched db r)
  commit-AllOrNothing (err p) h = nothing p refl refl refl
  commit-AllOrNothing (ok (a, c)) h = elim (Bool-cases sched.commit_fails) [
    | inl f ↦ rw f (nothing driver_error refl refl refl)
    | inr f ↦ rw f (everything a refl (h a c refl))
  ]

  pub record_tx-AllOrNothing :
      (body : Body A)
      → Keeps (Follows db.events) body
      → AllOrNothing db (record_tx (some e) sched db body)
  unfolding record_tx
  record_tx-AllOrNothing body k = elim (Bool-cases sched.begin_fails) [
    | inl f ↦ rw f (nothing driver_error refl refl refl)
    | inr f ↦ rw f (
        commit-AllOrNothing (body start) (λ a c eq. k.at start a c (sym (append-nil db.events)) eq))
  ]
    where
      start : Conn Session
      start = record { state = record { db = db; emitted = [] }; faults = sched.faults }

module _ (c : Codec) (start : List EventRow) where
  -- The statement of `emit`, and the row in the buffer.
  abbrev appended : (ℕ → EventRow) → Session → Session
  appended row s = record {
    db = record s.db {
      events = s.db.events ++ (row s.db.next_event ∷ []);
      next_event = suc s.db.next_event;
    };
    emitted = s.emitted ++ (row s.db.next_event ∷ []);
  }

  appended-Follows :
      (row : ℕ → EventRow) (s : Session) → Follows start s → Follows start (appended row s)
  appended-Follows row s h =
      ap (λ es. es ++ (row s.db.next_event ∷ [])) h
      ∙ append_assoc start s.emitted (row s.db.next_event ∷ [])

  append_event :
      (row : ℕ → EventRow) (s : Session) (faults : List Bool) (a : Unit {0}) (d : Conn Session)
      → Follows start s
      → (insert_event row >>= buffer c) (record { state = s; faults = faults }) ≡ ok (a, d)
      → Follows start d.state
  unfolding buffer modify insert_event statement
  append_event row s [] a d h eq =
      let same : record { state = appended row s; faults = [] } ≡ d = cc in
      subst (λ x. Follows start x.state) same (appended-Follows row s h)
  append_event row s (true ∷ faults) a d h eq = cc
  append_event row s (false ∷ faults) a d h eq =
      let same : record { state = appended row s; faults = faults } ≡ d = cc in
      subst (λ x. Follows start x.state) same (appended-Follows row s h)

  pub emit-Follows :
      (e : Option Emitter) (kind : EventType) (entity : EntityType) (id : Text)
      (v : Payload c.Value)
      → Keeps (Follows start) (emit c e kind entity id v)
  unfolding emit
  emit-Follows none kind entity id v = Keeps-pure tt
  emit-Follows (some e) kind entity id v =
      Keeps-bind _ _ (Keeps-or_marshal_error (c.marshal v))
        (λ raw. record { at = λ k a d h eq. append_event _ k.state k.faults a d h eq })

  pub version-Follows :
      (e : Option Emitter) (id : Text) (snap : TransactionPayload c.Value) (kind : ChangeKind)
      → Keeps (Follows start) (version c e id snap kind)
  unfolding version insert_transaction_version
  version-Follows none id snap kind = Keeps-pure tt
  version-Follows (some e) id snap kind =
      Keeps-bind _ _ (Keeps-or_marshal_error (c.marshal (of_transaction snap)))
        (λ raw. Keeps-statement _ (λ s h. h))

  pub version_change-Follows :
      (e : Option Emitter) (id : Text) (prior next : TransactionPayload c.Value) (kind : ChangeKind)
      → Keeps (Follows start) (version_change c e id prior next kind)
  unfolding version_change count_transaction_versions
  version_change-Follows none id prior next kind = Keeps-pure tt
  version_change-Follows (some e) id prior next kind =
      Keeps-bind _ _ (Keeps-statement _ (λ s h. h)) (λ n.
        Keeps-bind _ _
          (Keeps-if (n == 0) _ _ (version-Follows (some e) id prior imported) (Keeps-pure tt))
          (λ _. version-Follows (some e) id next kind))

  pub label_diff-Follows :
      (e : Option Emitter) (id : Text) (old new : Dict Text)
      → Keeps (Follows start) (emit_label_diff c e id old new)
  unfolding emit_label_diff
  label_diff-Follows e id old new =
      Keeps-bind _ _ (Keeps-for_each _ _ (λ p. emit-Follows e _ _ _ _))
        (λ _. Keeps-for_each _ _ (λ p. emit-Follows e _ _ _ _))

  pub extension_diff-Follows :
      (e : Option Emitter) (id : Text) (old new : Dict Text)
      → Keeps (Follows start) (emit_extension_diff c e id old new)
  unfolding emit_extension_diff
  extension_diff-Follows e id old new =
      Keeps-bind _ _ (Keeps-for_each _ _ (λ p. emit-Follows e _ _ _ _))
        (λ _. Keeps-for_each _ _ (λ p. emit-Follows e _ _ _ _))

  pub relationship_diff-Follows :
      (e : Option Emitter) (id : Text) (old new : List Relationship)
      → Keeps (Follows start) (emit_relationship_diff c e id old new)
  unfolding emit_relationship_diff
  relationship_diff-Follows e id old new =
      Keeps-bind _ _ (Keeps-for_each _ _ (λ r. emit-Follows e _ _ _ _))
        (λ _. Keeps-for_each _ _ (λ r. emit-Follows e _ _ _ _))
