-- ===== src/Poller/Metadata/Rows.antt =====
-- The row of a transaction under the statements of a sync.
use kasas.Prelude.Text.{Text, text_eq, text_eq_iff}
use kasas.Prelude.{
  Bool, Bool-cases, List, [], ap, false, if_elim, if◌then◌else◌, inr, refl, some, subst, true, ◌++◌,
  ◌∙◌, ◌∷◌, ◌≡◌, inl, Option, none,
}
use kasas.Store.{find, has_id, insert_row, update_where, insert_unless}
use kasas.Store.Tables.{Db, Transaction}

pub record SameMetadata (old row : Transaction) : Type 0 where
  pub labels : row.labels ≡ old.labels
  pub extensions : row.extensions ≡ old.extensions
  pub relationships : row.relationships ≡ old.relationships
  pub source : row.source ≡ old.source

-- The table has a row of the id of `old`, with the metadata of `old`.
pub record Kept (old : Transaction) (ts : List Transaction) : Type 0 where
  pub row : Transaction
  pub found : find (has_id old.id) ts ≡ some row
  pub same : SameMetadata old row

pub find-has_id :
    (id : Text) (ts : List Transaction) (row : Transaction)
    → find (has_id id) ts ≡ some row
    → has_id id row ≡ true
unfolding find
find-has_id id [] row h = cc
find-has_id id (x ∷ xs) row h = elim (Bool-cases (has_id id x)) [
  | inl e ↦ let same : x ≡ row = cc in subst (λ y. has_id id y ≡ true) same e
  | inr e ↦ find-has_id id xs row (rw e at h)
]

find-append :
    (p : Transaction → Bool) (ts more : List Transaction) (row : Transaction)
    → find p ts ≡ some row
    → find p (ts ++ more) ≡ some row
unfolding find
find-append p [] more row h = cc
find-append p (x ∷ xs) more row h = elim (Bool-cases (p x)) [
  | inl e ↦ rw e (rw e at h)
  | inr e ↦ rw e (find-append p xs more row (rw e at h))
]

-- An update that keeps ids is seen at the row that was found.
pub find-update_where :
    (id : Text) (q : Transaction → Bool) (f : Transaction → Transaction)
    → ((x : Transaction) → (f x).id ≡ x.id)
    → (ts : List Transaction) (row : Transaction) → find (has_id id) ts ≡ some row
    → find (has_id id) (update_where q f ts) ≡ some (if q row then f row else row)
unfolding find update_where
find-update_where id q f same [] row h = cc
find-update_where id q f same (x ∷ xs) row h =
    let kept : has_id id (if q x then f x else x) ≡ has_id id x =
      if_elim (λ y. has_id id y ≡ has_id id x) (q x) (ap (λ i. text_eq i id) (same x)) refl in
    elim (Bool-cases (has_id id x)) [
      | inl e ↦
          let here : x ≡ row = cc in rw (kept ∙ e) (ap (λ y. some (if q y then f y else y)) here)
      | inr e ↦ rw (kept ∙ e) (find-update_where id q f same xs row (rw e at h))
    ]

pub Kept-update_other :
    (old : Transaction) (id : Text) (f : Transaction → Transaction)
    → ((x : Transaction) → (f x).id ≡ x.id)
    → text_eq old.id id ≡ false
    → (ts : List Transaction) → Kept old ts
    → Kept old (update_where (has_id id) f ts)
Kept-update_other old id f same other ts k =
    let is_old : k.row.id ≡ old.id =
      (text_eq_iff k.row.id old.id).0 (find-has_id old.id ts k.row k.found) in
    let miss : has_id id k.row ≡ false = rw is_old other in
    record {
      row = k.row;
      found = find-update_where old.id (has_id id) f same ts k.row k.found ∙ (rw miss refl);
      same = k.same;
    }

pub Kept-update_bridge :
    (old : Transaction) (q : Transaction → Bool) (f : Transaction → Transaction)
    → ((x : Transaction) → (f x).id ≡ x.id)
    → ((x : Transaction) → SameMetadata x (f x))
    → (ts : List Transaction) → Kept old ts
    → Kept old (update_where q f ts)
Kept-update_bridge old q f same meta ts k = record {
  row = if q k.row then f k.row else k.row;
  found = find-update_where old.id q f same ts k.row k.found;
  same =
      if_elim (SameMetadata old) (q k.row)
        (record {
          labels = (meta k.row).labels ∙ k.same.labels;
          extensions = (meta k.row).extensions ∙ k.same.extensions;
          relationships = (meta k.row).relationships ∙ k.same.relationships;
          source = (meta k.row).source ∙ k.same.source;
        })
        k.same;
}

pub Kept-insert :
    (old t : Transaction) (db : Db)
    → Kept old db.transactions
    → Kept old (insert_row t db).1.transactions
unfolding insert_row
Kept-insert old t db k = by_found (find (has_id t.id) db.transactions)
  where
    by_found : (found : Option Transaction) → Kept old (insert_unless t db found).1.transactions
    by_found (some x) = k
    by_found none = record {
      row = k.row;
      found = find-append (has_id old.id) db.transactions _ k.row k.found;
      same = k.same;
    }

-- A row was inserted only if none of its id was there.
pub insert_row-fresh :
    (old t : Transaction) (db : Db)
    → Kept old db.transactions
    → (insert_row t db).0 ≡ true
    → text_eq old.id t.id ≡ false
unfolding insert_row
insert_row-fresh old t db k h = elim (Bool-cases (text_eq old.id t.id)) [
  | inl e ↦
      let same : old.id ≡ t.id = (text_eq_iff old.id t.id).0 e in
      let found : find (has_id t.id) db.transactions ≡ some k.row =
        subst (λ i. find (has_id i) db.transactions ≡ some k.row) same k.found in
      let not_new : (insert_unless t db (find (has_id t.id) db.transactions)).0 ≡ false =
        ap (λ o. (insert_unless t db o).0) found in
      absurd (cc (h, not_new))
  | inr e ↦ e
]
