-- ===== src/Ledger/Purged.antt =====
-- Purging a source leaves no account of it.
use kasas.Store.{
  Session, delete_account, delete_transaction, delete_transaction_versions, is_account,
  list_related_transactions, list_transactions_by_account, update_transaction_relationships,
  list_accounts, on_db,
}
use kasas.Prelude.{
  All, All-map_impl, Bool, Bool-cases, List, Option, [], any, arith, false, inl, inr, keep, not,
  subst, suc, sym, true, ◌&&◌, ◌∷◌, ◌≡◌, ◌⊎◌, if◌then◌else◌, keep-members, keep_self, refl,
}
use kasas.Tx.Keeps.{
  Keeps, Keeps-bind, Keeps-fold_each, Keeps-for_each, Keeps-if, Keeps-or_marshal_error, Keeps-pure,
  Keeps-statement, bind_at, statement_inv,
}
use kasas.Tx.{Conn, fold_each, ok, pure, ◌>>◌, Result}
use kasas.Events.Codec.{Codec, account_snapshot, of_account}
use kasas.Events.Unchanged.{emit-OfLedger, relationship_diff-OfLedger}
use kasas.Ledger.{
  PurgeResult, delete_transaction_tx, purge_account, strip_inbound_relationships, strip_row,
  purge_source,
}
use kasas.Prelude.Text.{CaseTable, Text, text_eq, text_eq_iff, text_lt}
use kasas.Events.Recorder.{Emitter}
use kasas.Prelude.Sort.{any-sort, sort}
use kasas.Store.Tables.{Account, Transaction, account_deleted, account_entity}

module _ (c : Codec) (u : CaseTable) (e : Option Emitter) (Q : List Account → Type 0) where
  -- What `Q` says of the accounts.
  abbrev OfAccounts : Session → Type 0
  OfAccounts s = Q s.db.accounts

  strip_row-OfAccounts :
      (target_id : Text) (row : Transaction) → Keeps OfAccounts (strip_row c u e target_id row)
  unfolding strip_row update_transaction_relationships
  strip_row-OfAccounts target_id row = Keeps-if (text_eq row.id target_id) _ _ (Keeps-pure tt) (
      Keeps-if _ _ _ (Keeps-pure tt) (
        Keeps-bind _ _ (Keeps-or_marshal_error _) (λ encoded.
          Keeps-bind _ _ (Keeps-statement _ (λ s h. h))
            (λ _. relationship_diff-OfLedger c (λ ts accounts. Q accounts) e row.id _ _))))

  pub delete_transaction_tx-OfAccounts :
      (txn : Transaction) → Keeps OfAccounts (delete_transaction_tx c u e txn)
  unfolding delete_transaction_tx strip_inbound_relationships list_related_transactions
      delete_transaction_versions delete_transaction
  delete_transaction_tx-OfAccounts txn =
      Keeps-bind _ _
        (Keeps-bind _ _ (Keeps-statement _ (λ s h. h))
          (λ rows. Keeps-for_each _ rows (strip_row-OfAccounts txn.id)))
        (λ _. Keeps-bind _ _ (Keeps-statement _ (λ s h. h)) (λ _.
          Keeps-bind _ _ (Keeps-statement _ (λ s h. h))
            (λ _. emit-OfLedger c (λ ts accounts. Q accounts) e _ _ _ _)))

module _ (c : Codec) (u : CaseTable) (e : Option Emitter) (source : Text) where
  abbrev same_account : Account → Account → Bool
  same_account a h = text_eq h.id a.id && text_eq h.source a.source

  -- An account is of another source, or is still to be visited.
  abbrev Visit : List Account → Account → Type 0
  Visit todo a = (text_eq a.source source ≡ false) ⊎ (any (same_account a) todo ≡ true)

  abbrev AllVisit : List Account → List Account → Type 0
  AllVisit todo accounts = All (Visit todo) accounts

  same_account-eq :
      (a h : Account) → same_account a h ≡ true → (h.id ≡ a.id) × (h.source ≡ a.source)
  same_account-eq a h q =
      ((text_eq_iff h.id a.id).0 (ground arith), (text_eq_iff h.source a.source).0 (ground arith))

  Visit-tail :
      (h : Account) (todo : List Account) (a : Account)
      → ((same_account a h ≡ true) → text_eq a.source source ≡ false)
      → Visit (h ∷ todo) a
      → Visit todo a
  Visit-tail h todo a k (inl v) = inl v
  Visit-tail h todo a k (inr v) = elim (Bool-cases (same_account a h)) [
    | inl q ↦ inl (k q)
    | inr q ↦ inr (rw q at v)
  ]

  passed_over :
      (h : Account) (todo accounts : List Account)
      → text_eq h.source source ≡ false
      → AllVisit (h ∷ todo) accounts
      → AllVisit todo accounts
  passed_over h todo accounts n v =
      All-map_impl (λ a. Visit-tail h todo a (λ q. rw (← (same_account-eq a h q).1) n)) accounts v

  removed :
      (h : Account) (todo accounts : List Account)
      → AllVisit (h ∷ todo) accounts
      → AllVisit todo (keep (λ a. not (is_account h.id a)) accounts)
  removed h todo [] v = tt
  removed h todo (a ∷ accounts) (w, v) = elim (Bool-cases (is_account h.id a)) [
    | inl q ↦ rw q (removed h todo accounts v)
    | inr q ↦ rw q (
      Visit-tail h todo a
          (λ same. absurd (cc (q, (text_eq_iff a.id h.id).1 (sym (same_account-eq a h same).0)))) w,
      removed h todo accounts v,
    )
  ]

  purge_account_step :
      (h : Account) (todo : List Account) (res : PurgeResult) (k : Conn Session) (out : PurgeResult)
      (d : Conn Session)
      → AllVisit (h ∷ todo) k.state.db.accounts
      → purge_account c u e res h k ≡ ok (out, d)
      → AllVisit todo d.state.db.accounts
  unfolding purge_account list_transactions_by_account delete_account
  purge_account_step h todo res k out d v r =
      let (children, k1, listed, r1) = bind_at (list_transactions_by_account h.id k) _ out d r in
      let (_, same) = statement_inv _ k children k1 listed in
      let (deleted, k2, folded, r2) =
        bind_at
          (fold_each (λ n child. delete_transaction_tx c u e child >> pure (suc n)) res.transactions
            children k1)
          _ out d r1 in
      let v2 : AllVisit (h ∷ todo) k2.state.db.accounts =
        (Keeps-fold_each _ res.transactions children (λ n child.
            Keeps-bind _ _ (delete_transaction_tx-OfAccounts c u e (AllVisit (h ∷ todo)) child)
              (λ _. Keeps-pure (suc n)))).at
          k1 deleted k2 (subst (λ (s : Session). AllVisit (h ∷ todo) s.db.accounts) (sym same) v)
          folded in
      let (b, k3, gone, r3) = bind_at (delete_account h.id k2) _ out d r2 in
      let (_, now) = statement_inv _ k2 b k3 gone in
      let v3 : AllVisit todo k3.state.db.accounts =
        subst (λ (s : Session). AllVisit todo s.db.accounts) (sym now)
          (removed h todo k2.state.db.accounts v2) in
      (Keeps-bind _ _
          (emit-OfLedger c (λ ts accounts. AllVisit todo accounts) e account_deleted account_entity
            h.id (of_account (account_snapshot h)))
          (λ _. Keeps-pure _)).at
        k3 out d v3 r3

  purge_step :
      (h : Account) (todo : List Account) (res : PurgeResult) (k : Conn Session) (out : PurgeResult)
      (d : Conn Session)
      → AllVisit (h ∷ todo) k.state.db.accounts
      → (if not (text_eq h.source source) then pure res else purge_account c u e res h) k
        ≡ ok (out, d)
      → AllVisit todo d.state.db.accounts
  unfolding pure
  purge_step h todo res k out d v r = elim (Bool-cases (text_eq h.source source)) [
    | inl q ↦ purge_account_step h todo res k out d v (rw q at r)
    | inr q ↦
        let stay : ◌≡◌ {A = Result (PurgeResult × Conn Session)} (ok (res, k)) (ok (out, d)) =
          rw q at r in
        let same : k ≡ d = cc in
        subst (λ (x : Conn Session). AllVisit todo x.state.db.accounts) same
          (passed_over h todo k.state.db.accounts q v)
  ]

  purge_loop :
      (todo : List Account) (res : PurgeResult) (k : Conn Session) (out : PurgeResult)
      (d : Conn Session)
      → AllVisit todo k.state.db.accounts
      → fold_each
          (λ res a. if not (text_eq a.source source) then pure res else purge_account c u e res a)
          res
          todo
          k
        ≡ ok (out, d)
      → AllVisit [] d.state.db.accounts
  unfolding fold_each pure
  purge_loop [] res k out d v r =
      let same : k ≡ d = cc in subst (λ (x : Conn Session). AllVisit [] x.state.db.accounts) same v
  purge_loop (h ∷ todo) res k out d v r =
      let (mid, k1, first, rest) =
        bind_at ((if not (text_eq h.source source) then pure res else purge_account c u e res h) k)
          _ out d r in
      purge_loop todo mid k1 out d (purge_step h todo res k mid k1 v first) rest

  -- Every account is visited: the loop runs over all of them.
  listed_all :
      (accounts : List Account) → AllVisit (sort (λ a b. text_lt a.name b.name) accounts) accounts
  listed_all accounts =
      All-map_impl
        (λ a h. elim h [
          | inl q ↦ absurd (ground arith)
          | inr q ↦ inr (
              rw (any-sort (λ x y. text_lt x.name y.name) (same_account a) accounts)
                (rw (keep_self (λ x. true) accounts (all_true accounts)) at q))
        ])
        accounts (keep-members same_account (λ x. true) accounts same_account_refl)
    where
      same_account_refl : (x : Account) → same_account x x ≡ true
      same_account_refl x =
          rw ((text_eq_iff x.id x.id).1 refl, (text_eq_iff x.source x.source).1 refl) refl

      all_true : (xs : List Account) → All (λ x. true ≡ true) xs
      all_true [] = tt
      all_true (x ∷ xs) = (refl, all_true xs)

  visited-none :
      (accounts : List Account)
      → AllVisit [] accounts
      → All (λ a. text_eq a.source source ≡ false) accounts
  visited-none accounts v =
      All-map_impl (λ a h. elim h [ inl q ↦ q | inr q ↦ absurd (ground arith) ]) accounts v

  -- When `PurgeSource` succeeds, no account of the source is left.
  pub purge_source-no_account :
      (k : Conn Session) (out : PurgeResult) (d : Conn Session)
      → purge_source c u e source k ≡ ok (out, d)
      → All (λ a. text_eq a.source source ≡ false) d.state.db.accounts
  unfolding purge_source list_accounts
  purge_source-no_account k out d r =
      let (accounts, k1, listed, rest) = bind_at (list_accounts k) _ out d r in
      let (is_accounts, same) =
        statement_inv (on_db (λ db. (sort (λ a b. text_lt a.name b.name) db.accounts, db))) k
          accounts k1 listed in
      visited-none d.state.db.accounts (
        purge_loop accounts _ k1 out d
          (subst (λ (s : Session). AllVisit accounts s.db.accounts) (sym same)
            (rw is_accounts (listed_all k.state.db.accounts)))
          rest)
