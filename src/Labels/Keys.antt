-- ===== src/Labels/Keys.antt =====
-- Normalised keys and values, and that normalising again changes nothing.
use kasas.Prelude.{
  ℕ, ◌≤◌, ◌≡◌, true, [], ◌∷◌, arith, ltb, if_elim, length, take, keep, All, All-take, All-keep,
  All-map_impl, keep-All, keep_self, map_self, length-take, map,
}
use kasas.Prelude.Text.{Text, CaseTable, LowersOnce, lower_rune, to_lower}
use kasas.Prelude.Trim.{trim_space, trim_idem, trim-All, trim-length, is_space}
use kasas.Labels.{max_len, is_key_rune, cap_runes, normalize_key, normalize_value}

abbrev pub IsTrimmed : Text → Type 0
IsTrimmed t = trim_space t ≡ t

-- What `cap_runes` of a trimmed text is: trimmed, and at most 50 runes long.
pub cap_runes-IsTrimmed : (t : Text) → IsTrimmed t → IsTrimmed (cap_runes t)
unfolding cap_runes
cap_runes-IsTrimmed t h =
    if_elim IsTrimmed (ltb max_len (length t)) (trim_idem is_space (take max_len t)) h

pub length-cap_runes : (t : Text) → length (cap_runes t) ≤ max_len
unfolding cap_runes
length-cap_runes t = ground (arith, trim-length is_space (take max_len t), length-take max_len t)

cap_runes-All {κ} : (P : ℕ → Type κ) (t : Text) → All P t → All P (cap_runes t)
unfolding cap_runes
cap_runes-All P t h =
    if_elim (All P) (ltb max_len (length t))
      (trim-All is_space P (take max_len t) (All-take P max_len t h)) h

cap_runes_self : (t : Text) → length t ≤ max_len → cap_runes t ≡ t
unfolding cap_runes
cap_runes_self t h = ground arith

-- A value in its canonical form.
pub record IsValue (t : Text) : Type 0 where
  pub trimmed : IsTrimmed t
  pub short : length t ≤ max_len

pub normalize_value-IsValue : (s : Text) → IsValue (normalize_value s)
unfolding normalize_value
normalize_value-IsValue s = record {
  trimmed = cap_runes-IsTrimmed (trim_space s) (trim_idem is_space s);
  short = length-cap_runes (trim_space s);
}

pub normalize_value_self : (t : Text) → IsValue t → normalize_value t ≡ t
unfolding normalize_value
normalize_value_self t v = rw v.trimmed (cap_runes_self t v.short)

module _ (u : CaseTable) where
  abbrev pub KeyRune : ℕ → Type 0
  KeyRune c = (is_key_rune c ≡ true) × (lower_rune u c ≡ c)

  -- A key in its canonical form.
  pub record IsKey (t : Text) : Type 0 where
    pub trimmed : IsTrimmed t
    pub short : length t ≤ max_len
    pub runes : All KeyRune t

  All-both :
      (t : Text)
      → All (λ c. is_key_rune c ≡ true) t
      → All (λ c. lower_rune u c ≡ c) t
      → All KeyRune t
  All-both [] h k = tt
  All-both (x ∷ xs) (p, h) (q, k) = ((p, q), All-both xs h k)

  lowered-All : LowersOnce u → (t : Text) → All (λ c. lower_rune u c ≡ c) (map (lower_rune u) t)
  lowered-All l [] = tt
  lowered-All l (x ∷ xs) = (l.lower_idem x, lowered-All l xs)

  pub normalize_key-IsKey : (s : Text) → LowersOnce u → IsKey (normalize_key u s)
  unfolding normalize_key to_lower
  normalize_key-IsKey s l =
      let lowered = map (lower_rune u) (trim_space s) in
      let kept = keep is_key_rune lowered in
      let runes : All KeyRune kept =
        All-both kept (keep-All is_key_rune lowered)
          (All-keep (λ c. lower_rune u c ≡ c) is_key_rune lowered (lowered-All l (trim_space s))) in
      record {
        trimmed = cap_runes-IsTrimmed (trim_space kept) (trim_idem is_space kept);
        short = length-cap_runes (trim_space kept);
        runes = cap_runes-All KeyRune (trim_space kept) (trim-All is_space KeyRune kept runes);
      }

  pub normalize_key_self : (t : Text) → IsKey t → normalize_key u t ≡ t
  unfolding normalize_key to_lower
  normalize_key_self t k = rw k.trimmed (
      rw (map_self (lower_rune u) t (All-map_impl (λ c p. p.1) t k.runes)) (
        rw (keep_self is_key_rune t (All-map_impl (λ c p. p.0) t k.runes))
          (rw k.trimmed (cap_runes_self t k.short))))

  -- Normalising a key or a value twice is normalising it once, when the lower-case mapping of
  -- runes is idempotent; and the result is trimmed, at most 50 runes long, and (for a key) made of
  -- lower-case runes that are no quote, backslash or control character.
  pub normalize-idem_IsKey :
      (s : Text)
      → LowersOnce u
      → (normalize_key u (normalize_key u s) ≡ normalize_key u s)
        × IsKey (normalize_key u s)
        × (normalize_value (normalize_value s) ≡ normalize_value s)
        × IsValue (normalize_value s)
  normalize-idem_IsKey s l = (
    normalize_key_self (normalize_key u s) (normalize_key-IsKey s l),
    normalize_key-IsKey s l,
    normalize_value_self (normalize_value s) (normalize_value-IsValue s),
    normalize_value-IsValue s,
  )
