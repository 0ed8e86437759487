-- ===== src/Events/LabelDiff.antt =====
-- Which labels `EmitLabelDiff` takes for added or changed.
use kasas.Prelude.{Bool, Option, [], ap, arith, false, none, not, refl, some, sym, ◌↔◌, ◌≡◌, ◌≢◌}
use kasas.Prelude.Text.{Text, text_eq, text_eq_iff}
use kasas.Events.Recorder.{label_differs}
use kasas.Prelude.Dict.{Dict, get}
use kasas.Events.Codec.{Codec}

abbrev get_test : Text → Option Text → Bool
get_test v found = elim found [ none ↦ not (text_eq [] v) | some w ↦ not (text_eq w v) ]

test_silent : (v : Text) (found : Option Text) → v ≢ [] → get_test v found ≡ false → found ≡ some v
test_silent v none n h = absurd (n (sym ((text_eq_iff [] v).0 (ground arith))))
test_silent v (some w) n h = ap some ((text_eq_iff w v).0 (ground arith))

silent_test : (v : Text) (found : Option Text) → found ≡ some v → get_test v found ≡ false
silent_test v found e = rw (e, (text_eq_iff v v).1 refl) refl

-- A label of the new set whose value is not empty, as no stored label's is, gives no event exactly if
-- the old set holds the same pair.
label_differs_iff :
    (c : Codec) (old : Dict Text) (k v : Text)
    → v ≢ []
    → (label_differs c old (k, v) ≡ false) ↔ (get k old ≡ some v)
unfolding label_differs
label_differs_iff c old k v n = (test_silent v (get k old) n, silent_test v (get k old))
