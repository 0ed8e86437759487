-- ===== src/Tests/Rules.antt =====
-- Rules at concrete labels.
use kasas.Tests.Stubs.{stub_std, stub_codec}
use kasas.Prelude.{
  [], any, arith, false, if◌then◌else◌, none, refl, some, true, ◌∷◌, ◌≡◌, List, subst, sym,
}
use kasas.Prelude.Text.{
  Text, ascii_case, ascii_case-LowersOnce, codes, text_eq, lower_rune, text_lt, to_lower,
}
use kasas.Prelude.Dict.{Dict, KeysDistinct, get, has, keys, mem, put}
use kasas.Labels.{value_of}
use kasas.Search.Query.{Query, matches}
use kasas.Tests.Queries.{groceries}
use kasas.Labels.Sets.{IsLabelSet, normalize-IsLabelSet}
use kasas.Rules.{Compiled, apply, apply_extensions, labels_of, merge, unapply, unapply_extensions}
use kasas.Rules.Applied.{apply-last, unapply-get}
use kasas.Rules.Effects.{sets_key, sets_pair}
use kasas.Labels
use kasas.Labels.{normalize}
use kasas.Rules.{set_pairs}
use kasas.Extensions.Sets.{IsExtensionSet}
use kasas.Rules.Stored.{apply-IsLabelSet, apply_extensions-IsExtensionSet}
use kasas.Prelude.Trim.{is_space, trim, trim_left, trim_right}
use kasas.Prelude.Sort.{insert_sorted, sort}

abbrev everything : Query stub_std
everything = record { root = none; text = [] }

abbrev first_rule : Compiled stub_std
first_rule = record {
  rule_labels = (codes "a", codes "x") ∷ (codes "b", codes "y") ∷ [];
  rule_extensions = [];
  query = everything;
}

abbrev second_rule : Compiled stub_std
second_rule = record {
  rule_labels = (codes "a", codes "z") ∷ [];
  rule_extensions = [];
  query = everything;
}

abbrev old_labels : Dict Text
old_labels = (codes "a", codes "q") ∷ (codes "b", codes "y") ∷ []

second-silent :
    any (sets_key stub_std (labels_of stub_std) groceries (codes "b")) (second_rule ∷ []) ≡ false
unfolding matches has keys mem text_eq
second-silent = refl

abbrev both_rules : List (Compiled stub_std)
both_rules = first_rule ∷ second_rule ∷ []

abbrev new_labels : Dict Text
new_labels = (codes "a", codes "z") ∷ (codes "b", codes "y") ∷ []

-- What `Normalize` leaves as it is may be stored.
canonical : (m : Dict Text) → normalize ascii_case m ≡ m → IsLabelSet ascii_case m
canonical m e =
    subst (IsLabelSet ascii_case) e (normalize-IsLabelSet ascii_case m ascii_case-LowersOnce)

old_labels_canonical : normalize ascii_case old_labels ≡ old_labels
unfolding normalize Labels.normalize_from sort insert_sorted keys text_lt Labels.add_pair text_eq
    Labels.normalize_key trim trim_right trim_left to_lower is_space Labels.is_key_rune lower_rune
    get has mem put Labels.normalize_value value_of
old_labels_canonical = refl

new_labels_canonical : normalize ascii_case new_labels ≡ new_labels
unfolding normalize Labels.normalize_from sort insert_sorted keys text_lt Labels.add_pair text_eq
    Labels.normalize_key trim trim_right trim_left to_lower is_space Labels.is_key_rune lower_rune
    get has mem put Labels.normalize_value value_of
new_labels_canonical = refl

merged_test : merge stub_std (labels_of stub_std) both_rules groceries old_labels ≡ new_labels
unfolding merge set_pairs put matches text_eq
merged_test = refl

-- the second rule says nothing on "b"
apply-last_example :
    (get (codes "b") (apply stub_std both_rules groceries old_labels).0 ≡ some (codes "y"))
    × ((j : Text)
        → any (sets_key stub_std (labels_of stub_std) groceries j) both_rules ≡ false
        → get j (apply stub_std both_rules groceries old_labels).0 ≡ get j old_labels)
apply-last_example =
    apply-last stub_std [] first_rule (second_rule ∷ []) groceries old_labels (codes "b")
      (codes "y") ascii_case-LowersOnce distinct_old
      (subst (IsLabelSet ascii_case) (sym merged_test) (canonical new_labels new_labels_canonical))
      second-silent matched distinct found
  where
    matched : matches stub_std everything groceries ≡ true
    matched = unfold matches in refl

    distinct_old : KeysDistinct old_labels
    distinct_old = unfold has keys mem text_eq in (refl, (refl, tt))

    distinct : KeysDistinct first_rule.rule_labels
    distinct = unfold has keys mem text_eq in (refl, (refl, tt))

    found : get (codes "b") first_rule.rule_labels ≡ some (codes "y")
    found = unfold get text_eq in refl

-- "a" has another value than the rules give it
unapply-get_example : get (codes "a") (unapply stub_std both_rules groceries old_labels).0 ≡ (
    if any
      (sets_pair stub_std
        (labels_of stub_std)
        groceries
        (codes "a")
        (value_of old_labels (codes "a")))
      both_rules
    then none
    else get (codes "a") old_labels)
unapply-get_example =
    unapply-get stub_std both_rules groceries old_labels (codes "a") ascii_case-LowersOnce
      (canonical old_labels old_labels_canonical)

normal_labels : IsLabelSet ascii_case []
normal_labels = record { labels = tt; distinct = tt; bounded = omega arith }

apply-IsLabelSet_example :
    IsLabelSet ascii_case (apply stub_std (first_rule ∷ second_rule ∷ []) groceries []).0
    × IsLabelSet ascii_case (unapply stub_std (first_rule ∷ second_rule ∷ []) groceries []).0
apply-IsLabelSet_example =
    apply-IsLabelSet stub_std (first_rule ∷ second_rule ∷ []) groceries [] ascii_case-LowersOnce
      normal_labels

normal_extensions : IsExtensionSet stub_codec []
normal_extensions = record { entries = tt; distinct = tt; bounded = omega arith }

apply_extensions-IsExtensionSet_example :
    IsExtensionSet stub_codec
      (apply_extensions stub_std stub_codec (first_rule ∷ []) groceries []).0
    × IsExtensionSet stub_codec
        (unapply_extensions stub_std stub_codec (first_rule ∷ []) groceries []).0
apply_extensions-IsExtensionSet_example =
    apply_extensions-IsExtensionSet stub_std stub_codec (first_rule ∷ []) groceries []
      normal_extensions
