-- ===== src/Provenance/Lineage.antt =====
-- What a lineage tells of the versions.
use kasas.Prelude.Text.{Text}
use kasas.Prelude.Dict.{Dict}
use kasas.Prelude.{List, [], arith, length, refl, ◌∷◌, ◌≡◌}

length-nil : {A : Type 0} (xs : List A) → length xs ≡ 0 → xs ≡ []
length-nil [] h = refl
length-nil (x ∷ xs) h = absurd (omega arith)
