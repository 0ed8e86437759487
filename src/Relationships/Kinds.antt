-- ===== src/Relationships/Kinds.antt =====
-- The kinds that `NormalizeKind` returns.
use kasas.Relationships.{
  cap_kind, is_ident, is_separator, is_underscore, max_kind_len, normalize_kind, write_kind,
  write_rune,
}
use kasas.Prelude.{
  All, All-map_impl, Bool, Bool-cases, [], append-nil, append_assoc, arith, false, if_elim,
  if◌then◌else◌, inl, inr, length, length-take, ltb, map_self, refl, suc, sym, take, true, zero, ℕ,
  ◌++◌, ◌∙◌, ◌∷◌, ◌≡◌, ◌≤◌, ltb→le,
}
use kasas.Prelude.Text.{CaseTable, Text, lower_rune, to_lower}
use kasas.Prelude.Trim.{front, trim_right, trim_right-length, trim_self, trim_space, is_space}

-- What may follow a letter or digit of a kind: words joined by single underscores.
pub data WordTail : Text → Type 0 where
  done : WordTail []
  letter : {c : ℕ} {cs : Text} → is_ident c ≡ true → WordTail cs → WordTail (c ∷ cs)
  gap : {d c : ℕ} {cs : Text} → d ≡ b'_' → is_ident c ≡ true → WordTail cs → WordTail (d ∷ c ∷ cs)

-- Nothing, or words of lower-case letters and digits joined by single underscores.
pub data IsKind : Text → Type 0 where
  blank : IsKind []
  words : {c : ℕ} {cs : Text} → is_ident c ≡ true → WordTail cs → IsKind (c ∷ cs)

WordTail-letter : {cs : Text} (c : ℕ) → WordTail cs → is_ident c ≡ true → WordTail (cs ++ (c ∷ []))
WordTail-letter c done h = letter h done
WordTail-letter c (letter k t) h = letter k (WordTail-letter c t h)
WordTail-letter c (gap e k t) h = gap e k (WordTail-letter c t h)

WordTail-gap :
    {cs : Text} (c : ℕ) → WordTail cs → is_ident c ≡ true → WordTail (cs ++ (b'_' ∷ c ∷ []))
WordTail-gap c done h = gap refl h done
WordTail-gap c (letter k t) h = letter k (WordTail-gap c t h)
WordTail-gap c (gap e k t) h = gap e k (WordTail-gap c t h)

write_rune-IsKind :
    {out : Text} (pending : Bool) (r : ℕ)
    → IsKind out
    → is_ident r ≡ true
    → IsKind (write_rune out pending r)
write_rune-IsKind pending r blank h = words h done
write_rune-IsKind true r (words k t) h = words k (WordTail-gap r t h)
write_rune-IsKind false r (words k t) h = words k (WordTail-letter r t h)

write_kind-IsKind : (s out : Text) (pending : Bool) → IsKind out → IsKind (write_kind out pending s)
unfolding write_kind
write_kind-IsKind [] out pending k = k
write_kind-IsKind (r ∷ rs) out pending k = elim (Bool-cases (is_ident r)) [
  | inl e ↦
      rw e (write_kind-IsKind rs (write_rune out pending r) false (write_rune-IsKind pending r k e))
  | inr e ↦ rw e (write_kind-IsKind rs out (if is_separator r then true else pending) k)
]

ident_ne_underscore : (c : ℕ) → is_ident c ≡ true → is_underscore c ≡ false
unfolding is_ident
ident_ne_underscore c h = ground arith

front_ident : (c : ℕ) (t : Text) → is_ident c ≡ true → front is_underscore c t ≡ c ∷ t
front_ident c [] h = rw (ident_ne_underscore c h)
front_ident c (x ∷ t) h = refl

trimmed-WordTail : {t : Text} (n : ℕ) → WordTail t → WordTail (trim_right is_underscore (take n t))
unfolding trim_right
trimmed-WordTail zero t = done
trimmed-WordTail (suc n) done = done
trimmed-WordTail (suc n) (letter {c} {cs} h t) =
    rw (front_ident c (trim_right is_underscore (take n cs)) h) (letter h (trimmed-WordTail n t))
trimmed-WordTail (suc zero) (gap e h t) = rw e done
trimmed-WordTail (suc (suc n)) (gap {d} {c} {cs} e h t) =
    rw (front_ident c (trim_right is_underscore (take n cs)) h) (gap e h (trimmed-WordTail n t))

trimmed-IsKind : {t : Text} (n : ℕ) → IsKind t → IsKind (trim_right is_underscore (take (suc n) t))
unfolding trim_right
trimmed-IsKind n blank = blank
trimmed-IsKind n (words {c} {cs} h t) =
    rw (front_ident c (trim_right is_underscore (take n cs)) h) (words h (trimmed-WordTail n t))

cap_kind-IsKind : (t : Text) → IsKind t → IsKind (cap_kind t)
unfolding cap_kind
cap_kind-IsKind t k = if_elim IsKind (ltb max_kind_len (length t)) (trimmed-IsKind 63 k) k

length-cap_kind : (t : Text) → length (cap_kind t) ≤ max_kind_len
unfolding cap_kind
length-cap_kind t = elim (Bool-cases (ltb max_kind_len (length t))) [
  | inl e ↦ rw e (
      omega
        (arith, trim_right-length is_underscore (take max_kind_len t), length-take max_kind_len t))
  | inr e ↦ rw e (ltb→le max_kind_len (length t) e)
]

-- A kind that is short enough to store.
pub record IsStoredKind (k : Text) : Type 0 where
  pub shape : IsKind k
  pub short : length k ≤ max_kind_len

pub normalize_kind-IsStoredKind : (u : CaseTable) (s : Text) → IsStoredKind (normalize_kind u s)
unfolding normalize_kind
normalize_kind-IsStoredKind u s =
    let written = write_kind [] false (to_lower u (trim_space s)) in
    record {
      shape =
          cap_kind-IsKind written (write_kind-IsKind (to_lower u (trim_space s)) [] false blank);
      short = length-cap_kind written;
    }

-- The runes of a kind are no spaces, and their own lower case.
abbrev KindRune : CaseTable → ℕ → Type 0
KindRune u c = (is_space c ≡ false) × (lower_rune u c ≡ c)

ident_rune : (u : CaseTable) (c : ℕ) → is_ident c ≡ true → KindRune u c
unfolding is_ident is_space lower_rune
ident_rune u c h = ground arith

underscore_rune : (u : CaseTable) (d : ℕ) → d ≡ b'_' → KindRune u d
unfolding is_space lower_rune
underscore_rune u d e = rw e (refl, refl)

WordTail-runes : (u : CaseTable) {t : Text} → WordTail t → All (KindRune u) t
WordTail-runes u done = tt
WordTail-runes u (letter {c} h t) = (ident_rune u c h, WordTail-runes u t)
WordTail-runes u (gap {d} {c} e h t) =
    (underscore_rune u d e, (ident_rune u c h, WordTail-runes u t))

IsKind-runes : (u : CaseTable) {t : Text} → IsKind t → All (KindRune u) t
IsKind-runes u blank = tt
IsKind-runes u (words {c} h t) = (ident_rune u c h, WordTail-runes u t)

-- The loop copies a kind.
write_kind-WordTail :
    {t : Text} (x : ℕ) (xs : Text) → WordTail t → write_kind (x ∷ xs) false t ≡ (x ∷ xs) ++ t
unfolding write_kind
write_kind-WordTail x xs done = sym (append-nil (x ∷ xs))
write_kind-WordTail x xs (letter {c} {cs} h t) =
    rw h (write_kind-WordTail x (xs ++ (c ∷ [])) t ∙ append_assoc (x ∷ xs) (c ∷ []) cs)
write_kind-WordTail x xs (gap {d} {c} {cs} e h t) = rw e (
    rw h
      (write_kind-WordTail x (xs ++ (b'_' ∷ c ∷ [])) t ∙ append_assoc (x ∷ xs) (b'_' ∷ c ∷ []) cs))

write_kind_self : {t : Text} → IsKind t → write_kind [] false t ≡ t
unfolding write_kind
write_kind_self blank = refl
write_kind_self (words {c} {cs} h t) = rw h (write_kind-WordTail c [] t)

cap_kind_self : (t : Text) → length t ≤ max_kind_len → cap_kind t ≡ t
unfolding cap_kind
cap_kind_self t h = ground arith

pub normalize_kind_self : (u : CaseTable) (k : Text) → IsStoredKind k → normalize_kind u k ≡ k
unfolding normalize_kind to_lower
normalize_kind_self u k s =
    let runes = IsKind-runes u s.shape in
    rw (trim_self is_space k (All-map_impl (λ c p. p.0) k runes)) (
      rw (map_self (lower_rune u) k (All-map_impl (λ c p. p.1) k runes))
        (rw (write_kind_self s.shape) (cap_kind_self k s.short)))

-- A normalised kind is empty, or words of lower-case letters and digits joined by single
-- underscores, and at most 64 runes long; and normalising it again changes nothing.
pub normalize_kind_canonical :
    (u : CaseTable) (s : Text)
    → IsStoredKind (normalize_kind u s)
      × (normalize_kind u (normalize_kind u s) ≡ normalize_kind u s)
normalize_kind_canonical u s =
    let h = normalize_kind-IsStoredKind u s in (h, normalize_kind_self u (normalize_kind u s) h)
