-- ===== src/Labels/Sets.antt =====
-- What `Normalize` returns: canonical, distinct keys with canonical values, at most 50 of them.
use kasas.Prelude.{
  ◌≤◌, ◌≡◌, false, not, List, [], ◌∷◌, arith, ◌&&◌, ◌||◌, leb, if_elim, Bool-cases, inl, inr,
  length, All,
}
use kasas.Prelude.Text.{Text, text_lt, CaseTable, LowersOnce}
use kasas.Prelude.Dict.{Dict, has, keys, length-put, put-KeysDistinct, KeysDistinct, All-put}
use kasas.Prelude.Sort.{sort}
use kasas.Labels.{
  max_count, normalize_key, normalize_value, value_of, is_empty, add_pair, normalize_from,
  normalize,
}
use kasas.Labels.Keys.{IsKey, IsValue, normalize_key-IsKey, normalize_value-IsValue}

module _ (u : CaseTable) where
  -- A label that may be stored.
  pub record IsLabel (k v : Text) : Type 0 where
    pub key : IsKey u k
    pub value : IsValue v
    pub key_nonempty : is_empty k ≡ false
    pub value_nonempty : is_empty v ≡ false

  -- A set of labels that may be stored.
  pub record IsLabelSet (m : Dict Text) : Type 0 where
    pub labels : All (λ e. IsLabel e.0 e.1) m
    pub distinct : KeysDistinct m
    pub bounded : length m ≤ max_count

  pub add_pair-bounded :
      (out : Dict Text) (nk nv : Text)
      → length out ≤ max_count
      → length (add_pair out nk nv) ≤ max_count
  unfolding add_pair
  add_pair-bounded out nk nv h = ground (arith, length-put nk nv out)

  add_pair-distinct :
      (out : Dict Text) (nk nv : Text) → KeysDistinct out → KeysDistinct (add_pair out nk nv)
  unfolding add_pair
  add_pair-distinct out nk nv h = if_elim KeysDistinct (is_empty nk || is_empty nv) h (
      if_elim KeysDistinct (not (has nk out) && leb max_count (length out)) h
        (put-KeysDistinct nk nv out h))

  nonempty :
      (nk nv : Text)
      → (is_empty nk || is_empty nv) ≡ false
      → (is_empty nk ≡ false) × (is_empty nv ≡ false)
  nonempty nk nv h = ground arith

  add_pair-labels :
      (out : Dict Text) (nk nv : Text)
      → IsKey u nk
      → IsValue nv
      → All (λ e. IsLabel e.0 e.1) out
      → All (λ e. IsLabel e.0 e.1) (add_pair out nk nv)
  unfolding add_pair
  add_pair-labels out nk nv k v h = elim (Bool-cases (is_empty nk || is_empty nv)) [
    | inl e ↦ rw e h
    | inr e ↦
        let ne = nonempty nk nv e in
        rw e (
          if_elim (All (λ e. IsLabel e.0 e.1)) (not (has nk out) && leb max_count (length out)) h (
            All-put IsLabel nk nv out
              (record { key = k; value = v; key_nonempty = ne.0; value_nonempty = ne.1 }) h))
  ]

  normalize_from-IsLabelSet :
      (input out : Dict Text) (ks : List Text)
      → LowersOnce u
      → IsLabelSet out
      → IsLabelSet (normalize_from u input out ks)
  unfolding normalize_from
  normalize_from-IsLabelSet input out [] l s = s
  normalize_from-IsLabelSet input out (k ∷ ks) l s =
      let nk = normalize_key u k in
      let nv = normalize_value (value_of input k) in
      normalize_from-IsLabelSet input (add_pair out nk nv) ks l (record {
        labels =
            add_pair-labels out nk nv (normalize_key-IsKey u k l)
              (normalize_value-IsValue (value_of input k)) s.labels;
        distinct = add_pair-distinct out nk nv s.distinct;
        bounded = add_pair-bounded out nk nv s.bounded;
      })

  -- Whatever the input, every key and value that `Normalize` returns is in its canonical form and
  -- not empty, no key stands twice, and there are at most 50 of them, when the lower-case mapping
  -- of runes is idempotent.
  pub normalize-IsLabelSet : (input : Dict Text) → LowersOnce u → IsLabelSet (normalize u input)
  unfolding normalize
  normalize-IsLabelSet input l =
      normalize_from-IsLabelSet input [] (sort text_lt (keys input)) l
        (record { labels = tt; distinct = tt; bounded = omega arith })
