-- ===== src/Prelude/Dict.antt =====
-- Go maps with text keys, as association lists. The order of the entries is that of insertion;
-- code that ranges over a map in Go's arbitrary order is modelled only where the order cannot show.
use Prim.Native.Nat.{suc}
use mathlib.Core.Path.{◌≡◌, refl, ◌∙◌}
use mathlib.Core.Logic.{inl, inr}
use mathlib.Core.Bool.{Bool, true, false}
use mathlib.Core.Option.{Option, none, some}
use mathlib.Core.List.{List, [], ◌∷◌}
use native.Mathlib.Omega.{arith}
use kasas.Prelude.Tests.{if◌then◌else◌, Bool-cases}
use kasas.Prelude.Lists.{length, All}
use kasas.Prelude.Text.{Text, text_eq, text_eq_iff}

abbrev pub Dict {ℓ} : Type ℓ → Type ℓ
Dict V = List (Text × V)

-- Membership of a text in a list of texts.
unfoldable pub mem : Text → List Text → Bool
mem k [] = false
mem k (j ∷ js) = if text_eq j k then true else mem k js

module _ {ℓ} {V : Type ℓ} where
  -- m[k], and whether the key is there
  unfoldable pub get : Text → Dict V → Option V
  get k [] = none
  get k ((j, v) ∷ m) = if text_eq j k then some v else get k m

  -- m[k] = v
  unfoldable pub put : Text → V → Dict V → Dict V
  put k v [] = (k, v) ∷ []
  put k v ((j, w) ∷ m) = if text_eq j k then (j, v) ∷ m else (j, w) ∷ put k v m

  -- delete(m, k)
  unfoldable pub remove : Text → Dict V → Dict V
  remove k [] = []
  remove k ((j, w) ∷ m) = let rest = remove k m in if text_eq j k then rest else (j, w) ∷ rest

  unfoldable pub keys : Dict V → List Text
  keys [] = []
  keys ((j, w) ∷ m) = j ∷ keys m

  unfoldable pub has : Text → Dict V → Bool
  unfolding keys mem
  has k m = mem k (keys m)

  pub get-put :
      (k j : Text) (v : V) (m : Dict V)
      → get j (put k v m) ≡ (if text_eq k j then some v else get j m)
  unfolding get put
  get-put k j v [] = refl
  get-put k j v ((i, w) ∷ m) =
      ground (arith, text_eq_iff k j, text_eq_iff i k, text_eq_iff i j, get-put k j v m)

  pub get-remove :
      (k j : Text) (m : Dict V) → get j (remove k m) ≡ (if text_eq k j then none else get j m)
  unfolding get remove
  get-remove k j [] = ground arith
  get-remove k j ((i, w) ∷ m) =
      ground (arith, text_eq_iff k j, text_eq_iff i k, text_eq_iff i j, get-remove k j m)

  pub has-put :
      (k j : Text) (v : V) (m : Dict V)
      → has j (put k v m) ≡ (if text_eq k j then true else has j m)
  unfolding has put
  has-put k j v [] = refl
  has-put k j v ((i, w) ∷ m) =
      ground (arith, text_eq_iff k j, text_eq_iff i k, text_eq_iff i j, has-put k j v m)

  pub has-get : (k : Text) (m : Dict V) → has k m ≡ false → get k m ≡ none
  unfolding has get
  has-get k [] h = refl
  has-get k ((i, w) ∷ m) h = ground (arith, has-get k m)

  pub get-has : (k : Text) (m : Dict V) → get k m ≡ none → has k m ≡ false
  unfolding has get
  get-has k [] h = refl
  get-has k ((i, w) ∷ m) h = ground (arith, get-has k m)

  -- A write of a key that is there keeps the number of entries; another adds one.
  pub length-put :
      (k : Text) (v : V) (m : Dict V)
      → length (put k v m) ≡ (if has k m then length m else suc (length m))
  unfolding has put
  length-put k v [] = refl
  length-put k v ((i, w) ∷ m) = ground (arith, length-put k v m)

  -- No key stands twice.
  abbrev pub KeysDistinct : Dict V → Type 0
  KeysDistinct [] = Unit
  KeysDistinct ((k, v) ∷ m) = (has k m ≡ false) × KeysDistinct m

  pub put-KeysDistinct : (k : Text) (v : V) (m : Dict V) → KeysDistinct m → KeysDistinct (put k v m)
  unfolding put
  put-KeysDistinct k v [] h = (unfold has in refl, tt)
  put-KeysDistinct k v ((i, w) ∷ m) (d, h) = elim (Bool-cases (text_eq i k)) [
    | inl e ↦ rw e (d, h)
    | inr e ↦ rw e (
      has-put k i v m ∙ ground (arith, text_eq_iff i k, text_eq_iff k i),
      put-KeysDistinct k v m h,
    )
  ]

  -- What holds of all entries holds after a write of one of which it holds too.
  pub All-put {κ} :
      (P : Text → V → Type κ) (k : Text) (v : V) (m : Dict V)
      → P k v
      → All (λ e. P e.0 e.1) m
      → All (λ e. P e.0 e.1) (put k v m)
  unfolding put
  All-put P k v [] p h = (p, tt)
  All-put P k v ((i, w) ∷ m) p (q, h) = elim (Bool-cases (text_eq i k)) [
    | inl e ↦ rw e (rw ((text_eq_iff i k).0 e) p, h)
    | inr e ↦ rw e (q, All-put P k v m p h)
  ]

  pub All-get {κ} :
      (P : Text → V → Type κ) (k : Text) {v : V} (m : Dict V)
      → All (λ e. P e.0 e.1) m
      → get k m ≡ some v
      → P k v
  unfolding get
  All-get P k [] h e = cc
  All-get P k ((i, w) ∷ m) (q, h) e = elim (Bool-cases (text_eq i k)) [
    | inl s ↦ let found : w ≡ _ = cc (rw s at e) in rw (← (text_eq_iff i k).0 s) (rw found at q)
    | inr s ↦ All-get P k m h (rw s at e)
  ]

  -- Two maps with the same lookups.
  abbrev pub SameDict : Dict V → Dict V → Type ℓ
  SameDict a b = (k : Text) → get k a ≡ get k b
