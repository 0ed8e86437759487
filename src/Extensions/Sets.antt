-- ===== src/Extensions/Sets.antt =====
-- What `Normalize` returns: canonical, distinct keys with checked and compacted values, at most 50.
use kasas.Prelude.Sort.{sort}
use kasas.Prelude.{
  All, All-take, Bool-cases, List, [], arith, false, if_elim, inl, inr, keep, keep-All, keep_self,
  leb, length, length-take, ltb, not, refl, take, true, ℕ, ◌&&◌, ◌∷◌, ◌≡◌, ◌≤◌, ltb→le,
}
use kasas.Extensions.{
  add_entry, cap_key, compact_value, is_refused, max_count, max_key_len, max_value_bytes, normalize,
  normalize_from, normalize_key,
}
use kasas.Prelude.Dict.{All-put, Dict, KeysDistinct, has, keys, length-put, put-KeysDistinct}
use kasas.Prelude.Text.{Text, byte_length, text_eq, text_lt}
use kasas.Prelude.Trim.{is_space, trim-All, trim-length, trim_idem, trim_space}
use kasas.Labels.{is_key_rune, value_of}
use kasas.Events.Codec.{Codec}
use kasas.Labels.Keys.{IsTrimmed}

-- A key in its canonical form.
pub record IsExtensionKey (t : Text) : Type 0 where
  pub trimmed : IsTrimmed t
  pub short : length t ≤ max_key_len
  pub runes : All (λ r. is_key_rune r ≡ true) t
  pub nonempty : text_eq t [] ≡ false

cap_key-IsTrimmed : (t : Text) → IsTrimmed t → IsTrimmed (cap_key t)
unfolding cap_key
cap_key-IsTrimmed t h =
    if_elim IsTrimmed (ltb max_key_len (length t)) (trim_idem is_space (take max_key_len t)) h

length-cap_key : (t : Text) → length (cap_key t) ≤ max_key_len
unfolding cap_key
length-cap_key t = elim (Bool-cases (ltb max_key_len (length t))) [
  | inl e ↦
      rw e (omega (arith, trim-length is_space (take max_key_len t), length-take max_key_len t))
  | inr e ↦ rw e (ltb→le max_key_len (length t) e)
]

cap_key-All {κ} : (P : ℕ → Type κ) (t : Text) → All P t → All P (cap_key t)
unfolding cap_key
cap_key-All P t h =
    if_elim (All P) (ltb max_key_len (length t))
      (trim-All is_space P (take max_key_len t) (All-take P max_key_len t h)) h

cap_key_self : (t : Text) → length t ≤ max_key_len → cap_key t ≡ t
unfolding cap_key
cap_key_self t h = ground arith

pub normalize_key-IsExtensionKey :
    (s : Text) → text_eq (normalize_key s) [] ≡ false → IsExtensionKey (normalize_key s)
unfolding normalize_key
normalize_key-IsExtensionKey s n =
    let kept = keep is_key_rune (trim_space s) in
    record {
      trimmed = cap_key-IsTrimmed (trim_space kept) (trim_idem is_space kept);
      short = length-cap_key (trim_space kept);
      runes =
          cap_key-All (λ r. is_key_rune r ≡ true) (trim_space kept)
            (trim-All is_space (λ r. is_key_rune r ≡ true) kept
              (keep-All is_key_rune (trim_space s)));
      nonempty = n;
    }

pub normalize_key_self : (t : Text) → IsExtensionKey t → normalize_key t ≡ t
unfolding normalize_key
normalize_key_self t k =
    rw k.trimmed (rw (keep_self is_key_rune t k.runes) (rw k.trimmed (cap_key_self t k.short)))

module _ (c : Codec) where
  -- A value that may be stored: the compact form of a trimmed, valid JSON text of at most 8192 bytes.
  pub record IsStoredValue (v : Text) : Type 0 where
    pub raw : Text
    pub raw_trimmed : IsTrimmed raw
    pub raw_valid : c.valid raw ≡ true
    pub raw_short : byte_length raw ≤ max_value_bytes
    pub compacted : v ≡ compact_value c raw

  pub record IsExtensionSet (m : Dict Text) : Type 0 where
    pub entries : All (λ e. IsExtensionKey e.0 × IsStoredValue e.1) m
    pub distinct : KeysDistinct m
    pub bounded : length m ≤ max_count

  not_refused :
      (v : Text) → IsTrimmed v → is_refused c v ≡ false → IsStoredValue (compact_value c v)
  unfolding is_refused
  not_refused v t h = record {
    raw = v;
    raw_trimmed = t;
    raw_valid = ground arith;
    raw_short = ground arith;
    compacted = refl;
  }

  add_entry-IsExtensionSet :
      (out : Dict Text) (k v : Text)
      → IsTrimmed v
      → IsExtensionSet out
      → IsExtensionSet (add_entry c out (normalize_key k) v)
  unfolding add_entry
  add_entry-IsExtensionSet out k v t s =
      let nk = normalize_key k in
      elim (Bool-cases (text_eq nk [])) [
        | inl e ↦ simp e s
        | inr e ↦ elim (Bool-cases (is_refused c v)) [
          | inl r ↦ simp (e, r) s
          | inr r ↦ elim (Bool-cases (not (has nk out) && leb max_count (length out))) [
            | inl f ↦ simp (e, r, f) s
            | inr f ↦
                simp (e, r, f)
                  (record {
                    entries =
                        All-put (λ j w. IsExtensionKey j × IsStoredValue w) nk (compact_value c v)
                          out (normalize_key-IsExtensionKey k e, not_refused v t r) s.entries;
                    distinct = put-KeysDistinct nk (compact_value c v) out s.distinct;
                    bounded = ground (arith, length-put nk (compact_value c v) out, s.bounded);
                  })
          ]
        ]
      ]

  normalize_from-IsExtensionSet :
      (input out : Dict Text) (ks : List Text)
      → IsExtensionSet out
      → IsExtensionSet (normalize_from c input out ks)
  unfolding normalize_from
  normalize_from-IsExtensionSet input out [] s = s
  normalize_from-IsExtensionSet input out (k ∷ ks) s =
      let v = trim_space (value_of input k) in
      normalize_from-IsExtensionSet input (add_entry c out (normalize_key k) v) ks
        (add_entry-IsExtensionSet out k v (trim_idem is_space (value_of input k)) s)

  -- Whatever the input, every key that `Normalize` returns is canonical and not empty and every value
  -- is the compact form of a valid JSON text within the byte limit; no key stands twice, and there are
  -- at most 50 of them.
  pub normalize-IsExtensionSet : (input : Dict Text) → IsExtensionSet (normalize c input)
  unfolding normalize
  normalize-IsExtensionSet input =
      normalize_from-IsExtensionSet input [] (sort text_lt (keys input))
        (record { entries = tt; distinct = tt; bounded = omega arith })
