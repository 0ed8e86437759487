-- ===== src/Webhooks/Feed/Late.antt =====
-- What becomes of an event that the bus delivers after a later one.
use kasas.Prelude.{
  Bool-cases, List, Option, [], any, arith, if◌then◌else◌, inl, inr, leb, leb→lt, ltb, ltb→lt, refl,
  subst, true, ℕ, ◌++◌, ◌∷◌, ◌≡◌, ◌≤◌,
}
use kasas.Prelude.Text.{Text}
use kasas.Webhooks.{Dispatcher, consume_live, forward}
use kasas.Store.Tables.{EventRow}

module _ (queue_size : ℕ) (unmarshal : Text → Option (List Text)) where
  consume_live-passed :
      (front : List EventRow) (late : EventRow) (rest : List EventRow) (d : Dispatcher)
      → late.id ≤ d.last_seq
      → consume_live queue_size unmarshal (front ++ (late ∷ rest)) d
        ≡ consume_live queue_size unmarshal (front ++ rest) d
  unfolding consume_live
  consume_live-passed [] late rest d le =
      let old : leb late.id d.last_seq ≡ true = ground arith in rw old refl
  consume_live-passed (x ∷ xs) late rest d le = elim (Bool-cases (leb x.id d.last_seq)) [
    | inl e ↦ rw e (consume_live-passed xs late rest d le)
    | inr e ↦ rw e (
        consume_live-passed xs late rest (forward queue_size unmarshal x d)
          (omega (arith, leb→lt x.id d.last_seq e)))
  ]

  -- An event that a subscription delivers after an event with a larger sequence number is dropped, also
  -- where it was never dispatched: the run is the same as if the bus had not delivered it.
  pub consume_live-late :
      (front : List EventRow) (late : EventRow) (rest : List EventRow) (d : Dispatcher)
      → any (λ ev. ltb late.id ev.id) front ≡ true
      → consume_live queue_size unmarshal (front ++ (late ∷ rest)) d
        ≡ consume_live queue_size unmarshal (front ++ rest) d
  unfolding consume_live
  consume_live-late [] late rest d over = cc
  consume_live-late (x ∷ xs) late rest d over = elim (Bool-cases (ltb late.id x.id)) [
    | inl overtaken ↦ elim (Bool-cases (leb x.id d.last_seq)) [
      | inl e ↦ rw e (consume_live-passed xs late rest d (ground arith))
      | inr e ↦ rw e (
          consume_live-passed xs late rest (forward queue_size unmarshal x d)
            (omega (arith, ltb→lt late.id x.id overtaken)))
    ]
    | inr behind ↦
        let over' : any (λ ev. ltb late.id ev.id) xs ≡ true =
          subst (λ b. (if b then true else any (λ ev. ltb late.id ev.id) xs) ≡ true) behind over in
        elim (Bool-cases (leb x.id d.last_seq)) [
          | inl e ↦ rw e (consume_live-late xs late rest d over')
          | inr e ↦ rw e (consume_live-late xs late rest (forward queue_size unmarshal x d) over')
        ]
  ]
