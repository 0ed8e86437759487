-- ===== src/Webhooks/Cursor.antt =====
-- Logs in the order of their ids, and the part of a log that a cursor has passed.
use kasas.Prelude.{
  All, Bool, Bool-cases, List, [], ap, arith, drop, false, inl, inr, keep, keep-append, leb, ltb,
  ltb→lt, lt→ltb, refl, suc, sym, take, true, zero, ℕ, ◌&&◌, ◌++◌, ◌<◌, ◌∙◌, ◌∷◌, ◌≡◌, ◌≤◌,
  if◌then◌else◌, leb→lt, subst, ltb→le,
}
use kasas.Webhooks.{newer}
use kasas.Webhooks.Delivery.{post}
use kasas.Store.Tables.{EventRow}

-- The ids grow, from above `n`.
abbrev pub Ascending : ℕ → List EventRow → Type 0
Ascending n [] = Unit
Ascending n (ev ∷ rest) = (n < ev.id) × Ascending ev.id rest

-- The last id of a list of events, or the cursor before it.
abbrev pub last_or : ℕ → List EventRow → ℕ
last_or n [] = n
last_or n (ev ∷ rest) = last_or ev.id rest

-- The events after `a`, up to `b`.
abbrev pub between : ℕ → ℕ → EventRow → Bool
between a b ev = ltb a ev.id && leb ev.id b

pub last_or_ge : (n : ℕ) (xs : List EventRow) → Ascending n xs → n ≤ last_or n xs
last_or_ge n [] h = omega arith
last_or_ge n (x ∷ xs) (lt, h) = omega (arith, last_or_ge x.id xs h)

pub last_or-append :
    (n : ℕ) (xs ys : List EventRow) → last_or n (xs ++ ys) ≡ last_or (last_or n xs) ys
last_or-append n [] ys = refl
last_or-append n (x ∷ xs) ys = last_or-append x.id xs ys

pub Ascending-le : (m n : ℕ) (xs : List EventRow) → m ≤ n → Ascending n xs → Ascending m xs
Ascending-le m n [] le h = tt
Ascending-le m n (x ∷ xs) le (lt, h) = (omega arith, h)

pub Ascending-take : (k n : ℕ) (xs : List EventRow) → Ascending n xs → Ascending n (take k xs)
Ascending-take zero n xs h = tt
Ascending-take (suc k) n [] h = tt
Ascending-take (suc k) n (x ∷ xs) (lt, h) = (lt, Ascending-take k x.id xs h)

pub Ascending-append :
    (n : ℕ) (xs ys : List EventRow)
    → Ascending n xs
    → Ascending (last_or n xs) ys
    → Ascending n (xs ++ ys)
Ascending-append n [] ys h k = k
Ascending-append n (x ∷ xs) ys (lt, h) k = (lt, Ascending-append x.id xs ys h k)

-- The two parts of a log.
pub Ascending-parts :
    (n : ℕ) (xs ys : List EventRow) → Ascending n (xs ++ ys) → Ascending n xs × Ascending n ys
Ascending-parts n [] ys h = (tt, h)
Ascending-parts n (x ∷ xs) ys (lt, h) =
    let (a, b) = Ascending-parts x.id xs ys h in ((lt, a), Ascending-le n x.id ys (omega arith) b)

pub keep-newer_self :
    (a n : ℕ) (xs : List EventRow) → a ≤ n → Ascending n xs → keep (newer a) xs ≡ xs
keep-newer_self a n [] le h = refl
keep-newer_self a n (x ∷ xs) le (lt, h) =
    rw (lt→ltb a x.id (omega arith), keep-newer_self a x.id xs (omega arith) h) refl

pub keep-newer-Ascending :
    (a n : ℕ) (xs : List EventRow) → Ascending n xs → Ascending a (keep (newer a) xs)
keep-newer-Ascending a n [] h = tt
keep-newer-Ascending a n (x ∷ xs) (lt, h) = elim (Bool-cases (ltb a x.id)) [
  | inl e ↦
      rw (e, keep-newer_self a x.id xs (omega (arith, ltb→lt a x.id e)) h) (ltb→lt a x.id e, h)
  | inr e ↦ rw e (keep-newer-Ascending a x.id xs h)
]

-- A later cursor keeps less.
keep-newer_twice :
    (a b : ℕ) (xs : List EventRow) → a ≤ b → keep (newer b) (keep (newer a) xs) ≡ keep (newer b) xs
keep-newer_twice a b [] le = refl
keep-newer_twice a b (x ∷ xs) le = elim (Bool-cases (ltb a x.id)) [
  | inl e ↦ rw (e, keep-newer_twice a b xs le) refl
  | inr e ↦
      let above : ltb b x.id ≡ false = ground arith in
      rw (e, above, keep-newer_twice a b xs le) refl
]

keep-newer-drop :
    (k a : ℕ) (xs : List EventRow)
    → Ascending a xs
    → keep (newer (last_or a (take k xs))) xs ≡ drop k xs
keep-newer-drop zero a xs h = keep-newer_self a a xs (omega arith) h
keep-newer-drop (suc k) a [] h = refl
keep-newer-drop (suc k) a (x ∷ xs) (lt, h) =
    let le = last_or_ge x.id (take k xs) (Ascending-take k x.id xs h) in
    let below : ltb (last_or x.id (take k xs)) x.id ≡ false = ground arith in
    rw (below, keep-newer-drop k x.id xs h) refl

-- What a cursor leaves of a log that it has read a page of.
pub keep-newer-page :
    (k a n : ℕ) (xs : List EventRow)
    → Ascending n xs
    → keep (newer (last_or a (take k (keep (newer a) xs)))) xs ≡ drop k (keep (newer a) xs)
keep-newer-page k a n xs h =
    let up = keep-newer-Ascending a n xs h in
    sym (keep-newer_twice a _ xs (last_or_ge a _ (Ascending-take k a _ up)))
    ∙ keep-newer-drop k a (keep (newer a) xs) up

keep-between_none :
    (a b n : ℕ) (xs : List EventRow) → b ≤ n → Ascending n xs → keep (between a b) xs ≡ []
keep-between_none a b n [] le h = refl
keep-between_none a b n (x ∷ xs) le (lt, h) =
    let out : between a b x ≡ false = ground arith in
    rw (out, keep-between_none a b x.id xs (omega arith) h) refl

keep-between_old :
    (a b : ℕ) (xs : List EventRow) → All (λ ev. ev.id ≤ a) xs → keep (between a b) xs ≡ []
keep-between_old a b [] h = refl
keep-between_old a b (x ∷ xs) (le, h) =
    let out : between a b x ≡ false = ground arith in rw (out, keep-between_old a b xs h) refl

keep-between_all :
    (a c : ℕ) (xs post : List EventRow)
    → a ≤ c
    → Ascending c (xs ++ post)
    → keep (between a (last_or c xs)) (xs ++ post) ≡ xs
keep-between_all a c [] post le h = keep-between_none a c c post (omega arith) h
keep-between_all a c (x ∷ xs) post le (lt, h) =
    let ge = last_or_ge x.id xs ((Ascending-parts x.id xs post h).0) in
    let inside : between a (last_or x.id xs) x ≡ true = ground arith in
    rw (inside, keep-between_all a x.id xs post (omega arith) h) refl

keep-between_same : (a : ℕ) (xs : List EventRow) → keep (between a a) xs ≡ []
keep-between_same a [] = refl
keep-between_same a (x ∷ xs) =
    let out : between a a x ≡ false = ground arith in rw (out, keep-between_same a xs) refl

keep-between-newer :
    (a n : ℕ) (xs post : List EventRow)
    → Ascending n (xs ++ post)
    → keep (between a (last_or a (keep (newer a) xs))) (xs ++ post) ≡ keep (newer a) xs
keep-between-newer a n [] post h = keep-between_same a post
keep-between-newer a n (x ∷ xs) post (lt, h) = elim (Bool-cases (ltb a x.id)) [
  | inl e ↦
      let lt' = ltb→lt a x.id e in
      let whole =
        keep-newer_self a a (x ∷ xs) (omega arith) (lt', (Ascending-parts x.id xs post h).0) in
      subst (λ ys. keep (between a (last_or a ys)) ((x ∷ xs) ++ post) ≡ ys) (sym whole)
        (keep-between_all a a (x ∷ xs) post (omega arith) (lt', h))
  | inr e ↦
      let fewer : keep (newer a) (x ∷ xs) ≡ keep (newer a) xs = rw e refl in
      subst (λ ys. keep (between a (last_or a ys)) ((x ∷ xs) ++ post) ≡ ys) (sym fewer)
        (rw e (keep-between-newer a x.id xs post h))
]

if_append :
    (c : Bool) (x : EventRow) (xs ys : List EventRow)
    → (if c then x ∷ xs ++ ys else xs ++ ys) ≡ (if c then x ∷ xs else xs) ++ ys
if_append true x xs ys = refl
if_append false x xs ys = refl

-- A log up to a later cursor is the log up to the earlier one, and then the events between them.
keep-between_split :
    (s a b n : ℕ) (xs : List EventRow)
    → s ≤ a
    → a ≤ b
    → Ascending n xs
    → keep (between s b) xs ≡ keep (between s a) xs ++ keep (between a b) xs
keep-between_split s a b n [] p q h = refl
keep-between_split s a b n (x ∷ xs) p q (lt, h) =
    let rest = keep-between_split s a b x.id xs p q h in
    elim (Bool-cases (leb x.id a)) [
      | inl e ↦
          let out : between a b x ≡ false = ground arith in
          let same : between s b x ≡ between s a x = ground arith in
          rw (out, same, rest) (if_append (between s a x) x _ _)
      | inr e ↦
          let out : between s a x ≡ false = ground arith in
          let same : between s b x ≡ between a b x = ground arith in
          rw (out, same, rest, keep-between_none s a x.id xs (omega (arith, leb→lt x.id a e)) h)
            refl
    ]

-- A cursor that reads a piece of the log, of which it has passed all that stands before the piece, has
-- then read the log up to its new place.
pub keep-between-extend :
    (s a : ℕ) (before piece after : List EventRow)
    → s ≤ a
    → Ascending 0 (before ++ (piece ++ after))
    → All (λ ev. ev.id ≤ a) before
    → keep (between s (last_or a (keep (newer a) piece))) (before ++ (piece ++ after))
      ≡ keep (between s a) (before ++ (piece ++ after)) ++ keep (newer a) piece
keep-between-extend s a before piece after le h old =
    let up = (Ascending-parts 0 before (piece ++ after) h).1 in
    let to =
      last_or_ge a _ (keep-newer-Ascending a 0 piece ((Ascending-parts 0 piece after up).0)) in
    let b = last_or a (keep (newer a) piece) in
    keep-between_split s a b 0 (before ++ (piece ++ after)) le to h
    ∙ ap (◌++◌ (keep (between s a) (before ++ (piece ++ after)))) (
        keep-append (between a b) before (piece ++ after)
        ∙ rw (keep-between_old a b before old, keep-between-newer a 0 piece after up) refl)

last_or-All : (n : ℕ) (xs : List EventRow) → Ascending n xs → All (λ ev. ev.id ≤ last_or n xs) xs
last_or-All n [] h = tt
last_or-All n (x ∷ xs) (lt, h) = (last_or_ge x.id xs h, last_or-All x.id xs h)

-- A cursor that reads all of a log has then passed all of it.
pub newer-All_passed :
    (a n : ℕ) (xs : List EventRow)
    → Ascending n xs
    → All (λ ev. ev.id ≤ last_or a (keep (newer a) xs)) xs
newer-All_passed a n [] h = tt
newer-All_passed a n (x ∷ xs) (lt, h) = elim (Bool-cases (ltb a x.id)) [
  | inl e ↦
      let lt' = ltb→lt a x.id e in
      let whole = keep-newer_self a a (x ∷ xs) (omega arith) (lt', h) in
      subst (λ ys. All (λ ev. ev.id ≤ last_or a ys) (x ∷ xs)) (sym whole)
        (last_or-All a (x ∷ xs) (lt', h))
  | inr e ↦
      let to = last_or_ge a _ (keep-newer-Ascending a x.id xs h) in
      let fewer : keep (newer a) (x ∷ xs) ≡ keep (newer a) xs = rw e refl in
      subst (λ ys. All (λ ev. ev.id ≤ last_or a ys) (x ∷ xs)) (sym fewer)
        (omega (arith, to, ltb→le a x.id e), newer-All_passed a x.id xs h)
]
