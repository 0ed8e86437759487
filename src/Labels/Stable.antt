-- ===== src/Labels/Stable.antt =====
-- A set in its canonical form is not changed by `Normalize`.
use kasas.Prelude.{
  suc, ◌+◌, ◌≤◌, ◌≡◌, refl, ◌∙◌, sym, false, List, [], ◌∷◌, arith, if◌then◌else◌, Bool-cases, inl,
  inr, length, All, some,
}
use kasas.Prelude.Text.{Text, text_eq, text_eq_iff, text_lt, CaseTable, LowersOnce}
use kasas.Prelude.Dict.{
  Dict, mem, get, has, put, keys, length-put, get-put, has-get, KeysDistinct, SameDict,
}
use kasas.Prelude.Sort.{sort, mem-sort, All-sort, length-sort}
use kasas.Labels.{
  max_count, normalize_key, normalize_value, value_of, add_pair, normalize_from, normalize,
}
use kasas.Labels.Keys.{normalize_key_self, normalize_value_self}
use kasas.Labels.Sets.{IsLabel, IsLabelSet, normalize-IsLabelSet}

module _ (u : CaseTable) where
  -- A key of `m` at which a label stands.
  record Holds (m : Dict Text) (k : Text) : Type 0 where
    value : Text
    found : get k m ≡ some value
    label : IsLabel u k value

  Holds-weaken :
      (m : Dict Text) (j v k : Text) → text_eq j k ≡ false → Holds m k → Holds ((j, v) ∷ m) k
  unfolding get
  Holds-weaken m j v k e h = record { value = h.value; found = rw e h.found; label = h.label }

  Holds-tail :
      (m : Dict Text) (j v : Text) (ks : List Text)
      → mem j ks ≡ false
      → All (Holds m) ks
      → All (Holds ((j, v) ∷ m)) ks
  unfolding mem
  Holds-tail m j v [] d h = tt
  Holds-tail m j v (k ∷ ks) d (q, h) = (
    Holds-weaken m j v k (ground (arith, text_eq_iff j k, text_eq_iff k j)) q,
    Holds-tail m j v ks (ground arith) h,
  )

  keys-Holds :
      (m : Dict Text) → All (λ e. IsLabel u e.0 e.1) m → KeysDistinct m → All (Holds m) (keys m)
  unfolding keys get has
  keys-Holds [] h d = tt
  keys-Holds ((k, v) ∷ m) (q, h) (d, ds) = (
    record { value = v; found = rw ((text_eq_iff k k).1 refl); label = q },
    Holds-tail m k v (keys m) d (keys-Holds m h ds),
  )

  value_of_found : (input : Dict Text) (k v : Text) → get k input ≡ some v → value_of input k ≡ v
  unfolding value_of
  value_of_found input k v e = rw (e, value_of)

  -- One round on a key that holds a label writes that label, while there is room.
  add_pair_held :
      (input out : Dict Text) (k : Text) (h : Holds input k)
      → suc (length out) ≤ max_count
      → add_pair out (normalize_key u k) (normalize_value (value_of input k)) ≡ put k h.value out
  unfolding add_pair
  add_pair_held input out k h room =
      rw (value_of_found input k h.value h.found, normalize_key_self u k h.label.key)
        (rw (normalize_value_self h.value h.label.value)
          (ground (arith, h.label.key_nonempty, h.label.value_nonempty)))

  length-put_le : (k v : Text) (m : Dict Text) → length (put k v m) ≤ suc (length m)
  length-put_le k v m = ground (arith, length-put k v m)

  get-normalize_from :
      (input out : Dict Text) (ks : List Text) (j : Text)
      → All (Holds input) ks
      → length out + length ks ≤ max_count
      → get j (normalize_from u input out ks) ≡ (if mem j ks then get j input else get j out)
  unfolding normalize_from mem
  get-normalize_from input out [] j h room = refl
  get-normalize_from input out (k ∷ ks) j (q, h) room =
      rw (add_pair_held input out k q (omega arith)) (
        get-normalize_from input (put k q.value out) ks j h
          (omega (arith, length-put_le k q.value out))
        ∙ ground (arith, get-put k j q.value out, text_eq_iff k j, q.found))

  length-keys : (m : Dict Text) → length (keys m) ≡ length m
  unfolding keys
  length-keys [] = refl
  length-keys ((k, v) ∷ m) = omega (arith, length-keys m)

  if_missing : (m : Dict Text) (j : Text) → (if has j m then get j m else get j []) ≡ get j m
  unfolding get
  if_missing m j = elim (Bool-cases (has j m)) [ inl e ↦ rw e | inr e ↦ rw e (sym (has-get j m e)) ]

  -- A canonical set comes back with every label unchanged and none added.
  pub normalize-SameDict : (m : Dict Text) → IsLabelSet u m → SameDict (normalize u m) m
  unfolding normalize has
  normalize-SameDict m s j =
      get-normalize_from m [] (sort text_lt (keys m)) j
        (All-sort text_lt (Holds m) (keys m) (keys-Holds m s.labels s.distinct))
        (omega (arith, length-sort text_lt (keys m), length-keys m, s.bounded))
      ∙ rw (mem-sort text_lt j (keys m)) (if_missing m j)

  -- Normalising a set of labels twice gives the labels that normalising it once gives, when the
  -- lower-case mapping of runes is idempotent.
  pub normalize-normalize :
      (input : Dict Text)
      → LowersOnce u
      → SameDict (normalize u (normalize u input)) (normalize u input)
  normalize-normalize input l =
      normalize-SameDict (normalize u input) (normalize-IsLabelSet u input l)
