-- ===== src/Relationships/Subsets.antt =====
-- Dropping edges from a canonical list leaves it canonical.
use kasas.Prelude.{
  All-keep, Bool, Bool-cases, List, [], any, arith, false, if_elim, inl, inr, keep, length,
  length-keep, not, refl, ◌∷◌, ◌≡◌,
}
use kasas.Relationships.{Relationship, edge_less, key}
use kasas.Relationships.Sets.{EdgesDistinct, IsEdge, IsEdgeSet, keys_of}
use kasas.Prelude.Dict.{mem}
use kasas.Prelude.Text.{Text}
use kasas.Prelude.Sort.{IsSorted}

IsSorted-keep :
    (p : Relationship → Bool) (es : List Relationship)
    → IsSorted edge_less es
    → IsSorted edge_less (keep p es)
IsSorted-keep p [] s = tt
IsSorted-keep p (e ∷ es) (h, s) =
    if_elim (IsSorted edge_less) (p e)
      (All-keep (λ x. edge_less x e ≡ false) p es h, IsSorted-keep p es s) (IsSorted-keep p es s)

mem-keys_keep :
    (k : Text) (p : Relationship → Bool) (es : List Relationship)
    → mem k (keys_of es) ≡ false
    → mem k (keys_of (keep p es)) ≡ false
unfolding keys_of mem
mem-keys_keep k p [] h = refl
mem-keys_keep k p (e ∷ es) h = elim (Bool-cases (p e)) [
  | inl q ↦ rw q (ground (arith, mem-keys_keep k p es))
  | inr q ↦ rw q (mem-keys_keep k p es (ground arith))
]

EdgesDistinct-keep :
    (p : Relationship → Bool) (es : List Relationship)
    → EdgesDistinct es
    → EdgesDistinct (keep p es)
EdgesDistinct-keep p [] d = tt
EdgesDistinct-keep p (e ∷ es) (n, d) =
    if_elim EdgesDistinct (p e) (mem-keys_keep (key e) p es n, EdgesDistinct-keep p es d)
      (EdgesDistinct-keep p es d)

pub IsEdgeSet-keep :
    (p : Relationship → Bool) (es : List Relationship) → IsEdgeSet es → IsEdgeSet (keep p es)
IsEdgeSet-keep p es s = record {
  edges = All-keep IsEdge p es s.edges;
  distinct = EdgesDistinct-keep p es s.distinct;
  sorted = IsSorted-keep p es s.sorted;
  bounded = omega (arith, length-keep p es, s.bounded);
}

-- Where every edge was kept, none has the target.
pub any_of_length-keep {ℓ} :
    {A : Type ℓ} (p : A → Bool) (xs : List A)
    → length (keep (λ x. not (p x)) xs) ≡ length xs
    → any p xs ≡ false
any_of_length-keep p [] h = refl
any_of_length-keep p (x ∷ xs) h =
    ground (arith, any_of_length-keep p xs, length-keep (λ x. not (p x)) xs)

pub any-keep-not {ℓ} :
    {A : Type ℓ} (p : A → Bool) (xs : List A) → any p (keep (λ x. not (p x)) xs) ≡ false
any-keep-not p [] = refl
any-keep-not p (x ∷ xs) = ground (arith, any-keep-not p xs)
