-- ===== src/Poller/Quiet/Rows.antt =====
-- Rows that a sync of the same data leaves as they are for the bridge.
use kasas.Store.Tables.{Account, Transaction}
use kasas.Prelude.{
  ==_iff, List, [], arith, false, some, ◌≡◌, Bool-cases, ap, if◌then◌else◌, inl, inr, refl, subst,
  sym, ◌∙◌, ◌∷◌,
}
use kasas.Store.{find, has_id, is_account, update_where, upsert_row, from_sync}
use kasas.Poller.Batch.{
  ImportAccount, ImportBatch, ImportTxn, account_changed, bridge_changed, new_account,
  new_transaction_row,
}
use kasas.Prelude.Text.{text_eq_iff, Text, text_eq}
use kasas.Prelude.Int.{int_eq_iff, ℤ}
use kasas.Poller.Metadata.Rows.{find-has_id, find-update_where}

-- The account is there, and differs from the batch's in no field that an event would tell.
abbrev pub QuietAccount : ImportBatch → ℤ → ImportAccount → List Account → Type 0
QuietAccount batch synced_at a accounts =
    (prev : Account) × (find (is_account a.external_id) accounts ≡ some prev)
    × (account_changed prev (new_account batch synced_at a) ≡ false)

-- The transaction is there, with the fields that the batch has for it.
abbrev pub QuietTxn : ℤ → ImportAccount → ImportTxn → List Transaction → Type 0
QuietTxn synced_at a t ts =
    (prev : Transaction) × (find (has_id t.external_id) ts ≡ some prev)
    × (bridge_changed prev (new_transaction_row a t synced_at [] []) ≡ false)

-- A row that a refresh would not tell apart from `next` may be overwritten by `next`.
pub bridge_changed_trans :
    (prev next other over : Transaction)
    → bridge_changed prev next ≡ false
    → (over.account_id ≡ next.account_id)
      × (over.amount ≡ next.amount)
      × (over.pending ≡ next.pending)
      × (over.date ≡ next.date)
      × (over.description ≡ next.description)
      × (over.payee ≡ next.payee)
      × (over.memo ≡ next.memo)
    → bridge_changed prev other ≡ false
    → bridge_changed over other ≡ false
unfolding bridge_changed
bridge_changed_trans prev next other over h (a, b, p, d, f, g, m) k =
    let a' : prev.account_id ≡ next.account_id =
      (text_eq_iff prev.account_id next.account_id).0 (ground arith) in
    let b' : prev.amount ≡ next.amount = (text_eq_iff prev.amount next.amount).0 (ground arith) in
    let p' : prev.pending ≡ next.pending = (==_iff prev.pending next.pending).0 (ground arith) in
    let d' : prev.date ≡ next.date = (int_eq_iff prev.date next.date).0 (ground arith) in
    let f' : prev.description ≡ next.description =
      (text_eq_iff prev.description next.description).0 (ground arith) in
    let g' : prev.payee ≡ next.payee = (text_eq_iff prev.payee next.payee).0 (ground arith) in
    let m' : prev.memo ≡ next.memo = (text_eq_iff prev.memo next.memo).0 (ground arith) in
    rw (a, b, p, d, f, g, m) (rw (← a', ← b', ← p', ← d', ← f', ← g', ← m') k)

-- A refresh by the batch leaves the row of every transaction of the batch as the batch has it.
pub QuietTxn-update :
    (synced_at : ℤ) (a b : ImportAccount) (t u : ImportTxn) (ts : List Transaction)
    → QuietTxn synced_at a t ts
    → QuietTxn synced_at b u ts
    → QuietTxn synced_at b u (
        update_where
          (has_id t.external_id)
          (from_sync (new_transaction_row a t synced_at [] []))
          ts)
QuietTxn-update synced_at a b t u ts (row, is_row, quiet) (prev, is_prev, same) =
    let next = new_transaction_row a t synced_at [] [] in
    let moved =
      find-update_where u.external_id (has_id t.external_id) (from_sync next) (λ x. refl) ts prev
        is_prev in
    elim (Bool-cases (has_id t.external_id prev)) [
      | inl e ↦
          let one_id : t.external_id ≡ u.external_id =
            sym ((text_eq_iff prev.id t.external_id).0 e)
            ∙ (text_eq_iff prev.id u.external_id).0 (find-has_id u.external_id ts prev is_prev) in
          let one_row : row ≡ prev =
            cc (sym is_row ∙ ap (λ i. find (has_id i) ts) one_id ∙ is_prev) in
          (
            from_sync next prev,
            moved ∙ ap (λ c. some (if c then from_sync next prev else prev)) e,
            bridge_changed_trans prev next (new_transaction_row b u synced_at [] [])
                (from_sync next prev) (subst (λ r. bridge_changed r next ≡ false) one_row quiet)
                (refl, refl, refl, refl, refl, refl, refl) same,
          )
      | inr e ↦ (prev, moved ∙ ap (λ c. some (if c then from_sync next prev else prev)) e, same)
    ]

account_changed_trans :
    (prev next other over : Account)
    → account_changed prev next ≡ false
    → (over.name ≡ next.name)
      × (over.currency ≡ next.currency)
      × (over.balance ≡ next.balance)
      × (over.balance_date ≡ next.balance_date)
      × (over.org_id ≡ next.org_id)
    → account_changed prev other ≡ false
    → account_changed over other ≡ false
unfolding account_changed
account_changed_trans prev next other over h (n, c, b, d, o) k =
    let n' : prev.name ≡ next.name = (text_eq_iff prev.name next.name).0 (ground arith) in
    let c' : prev.currency ≡ next.currency =
      (text_eq_iff prev.currency next.currency).0 (ground arith) in
    let b' : prev.balance ≡ next.balance =
      (text_eq_iff prev.balance next.balance).0 (ground arith) in
    let d' : prev.balance_date ≡ next.balance_date =
      (int_eq_iff prev.balance_date next.balance_date).0 (ground arith) in
    let o' : prev.org_id ≡ next.org_id = (text_eq_iff prev.org_id next.org_id).0 (ground arith) in
    rw (n, c, b, d, o) (rw (← n', ← c', ← b', ← d', ← o') k)

find-upsert_row :
    (n : Account) (xs : List Account) (row : Account)
    → find (is_account n.id) xs ≡ some row
    → find (is_account n.id) (upsert_row n xs) ≡ some (record n { source = row.source })
unfolding find upsert_row
find-upsert_row n [] row h = cc
find-upsert_row n (x ∷ xs) row h = elim (Bool-cases (is_account n.id x)) [
  | inl e ↦
      let here : x ≡ row = cc (rw e at h) in
      rw (e, (text_eq_iff n.id n.id).1 refl) (ap (λ y. some (record n { source = y.source })) here)
  | inr e ↦ rw e (rw e (find-upsert_row n xs row (rw e at h)))
]

find-upsert_other :
    (n : Account) (id : Text) (xs : List Account)
    → text_eq n.id id ≡ false
    → find (is_account id) (upsert_row n xs) ≡ find (is_account id) xs
unfolding find upsert_row
find-upsert_other n id [] other = rw other refl
find-upsert_other n id (x ∷ xs) other = elim (Bool-cases (is_account n.id x)) [
  | inl e ↦
      let not_it : is_account id x ≡ false =
        ground (arith, text_eq_iff x.id n.id, text_eq_iff n.id id, text_eq_iff x.id id) in
      rw (e, other, not_it) refl
  | inr e ↦ rw (e, find-upsert_other n id xs other) refl
]

-- An upsert of an account of the batch leaves the row of every account of the batch as the batch has
-- it, but for the source.
pub QuietAccount-upsert :
    (batch : ImportBatch) (synced_at : ℤ) (a b : ImportAccount) (xs : List Account)
    → QuietAccount batch synced_at a xs
    → QuietAccount batch synced_at b xs
    → QuietAccount batch synced_at b (upsert_row (new_account batch synced_at a) xs)
QuietAccount-upsert batch synced_at a b xs (row, is_row, quiet) (prev, is_prev, same) =
    let next = new_account batch synced_at a in
    elim (Bool-cases (text_eq a.external_id b.external_id)) [
      | inl e ↦
          let one_id : a.external_id ≡ b.external_id =
            (text_eq_iff a.external_id b.external_id).0 e in
          let one_row : row ≡ prev =
            cc (sym is_row ∙ ap (λ i. find (is_account i) xs) one_id ∙ is_prev) in
          (
            record next { source = row.source },
            ap (λ i. find (is_account i) (upsert_row next xs)) (sym one_id)
                ∙ find-upsert_row next xs row is_row,
            account_changed_trans prev next (new_account batch synced_at b)
                (record next { source = row.source })
                (subst (λ r. account_changed r next ≡ false) one_row quiet)
                (refl, refl, refl, refl, refl) same,
          )
      | inr e ↦ (prev, find-upsert_other next b.external_id xs e ∙ is_prev, same)
    ]
