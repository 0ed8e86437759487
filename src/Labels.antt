-- ===== src/Labels.antt =====
-- internal/labels/labels.go: the canonical form of a transaction's labels.
-- A set of labels is a dictionary; `Decode` stands in Events/Codec.
pub mod Keys
pub mod Sets
pub mod Stable
use kasas.Prelude.{
  ℕ, ◌≤◌, Bool, ◌&&◌, ◌||◌, not, List, [], ◌∷◌, ◌==◌, ltb, leb, if◌then◌else◌, length, take, keep,
  Option, none, some,
}
use kasas.Prelude.Text.{Text, text_eq, text_lt, CaseTable, to_lower}
use kasas.Prelude.Trim.{trim_space}
use kasas.Prelude.Dict.{Dict, get, put, has, keys}
use kasas.Prelude.Sort.{sort}

abbrev pub max_len : ℕ
max_len = 50

abbrev pub max_count : ℕ
max_count = 50

-- The runes that `NormalizeKey` lets through: no quote, backslash or control character.
unfoldable pub is_key_rune : ℕ → Bool
is_key_rune r = not (r == b'"' || r == b'\\' || ltb r 0x20)

-- `if r := []rune(s); len(r) > MaxLen { s = strings.TrimSpace(string(r[:MaxLen])) }`
unfoldable pub cap_runes : Text → Text
cap_runes s = if ltb max_len (length s) then trim_space (take max_len s) else s

unfoldable pub normalize_key : CaseTable → Text → Text
unfolding cap_runes
normalize_key u s = cap_runes (trim_space (keep is_key_rune (to_lower u (trim_space s))))

unfoldable pub normalize_value : Text → Text
unfolding cap_runes
normalize_value s = cap_runes (trim_space s)

-- in[k], which is "" where the key is missing
unfoldable pub value_of : Dict Text → Text → Text
value_of input k = elim (get k input) [ none ↦ [] | some v ↦ v ]

-- `nk == "" || nv == ""`
abbrev pub is_empty : Text → Bool
is_empty t = text_eq t []

-- One round of the loop of `Normalize`.
unfoldable pub add_pair : Dict Text → Text → Text → Dict Text
add_pair out nk nv =
    if is_empty nk || is_empty nv
    then out
    else if not (has nk out) && leb max_count (length out)
    then out
    else put nk nv out

unfoldable pub normalize_from : CaseTable → Dict Text → Dict Text → List Text → Dict Text
normalize_from u input out [] = out
normalize_from u input out (k ∷ ks) =
    normalize_from u input (add_pair out (normalize_key u k) (normalize_value (value_of input k)))
      ks

unfoldable pub normalize : CaseTable → Dict Text → Dict Text
normalize u input = normalize_from u input [] (sort text_lt (keys input))
