-- ===== src/Extensions.antt =====
-- internal/extensions/extensions.go: the canonical form of a transaction's schema extensions, raw JSON
-- values under namespaced keys. `Decode` and `Values` stand in Events/Codec.
pub mod Sets
use kasas.Labels.{is_key_rune, value_of}
use kasas.Prelude.Sort.{sort}
use kasas.Prelude.{
  Bool, List, Option, [], if◌then◌else◌, keep, leb, length, ltb, none, not, some, take, ℕ, ◌&&◌,
  ◌||◌, ◌∷◌,
}
use kasas.Prelude.Text.{Text, byte_length, codes, cut, has_prefix, text_eq, text_lt}
use kasas.Prelude.Dict.{Dict, has, keys, put}
use kasas.Relationships.{key}
use kasas.Prelude.Trim.{trim_space}
use kasas.Events.Codec.{Codec}

abbrev pub max_key_len : ℕ
max_key_len = 100

abbrev pub max_count : ℕ
max_count = 50

-- 8 << 10
abbrev pub max_value_bytes : ℕ
max_value_bytes = 8192

unfoldable pub cap_key : Text → Text
cap_key s = if ltb max_key_len (length s) then trim_space (take max_key_len s) else s

-- The runes that are let through are those of a label's key; the case is kept.
unfoldable pub normalize_key : Text → Text
unfolding cap_key
normalize_key s = cap_key (trim_space (keep is_key_rune (trim_space s)))

-- The part before the first dot, or all of it.
abbrev pub before_dot : Text → Option (Text × Text) → Text
before_dot key none = key
before_dot key (some (namespace, rest)) = namespace

unfoldable pub namespace_of : Text → Text
namespace_of key = before_dot key (cut (codes ".") key)

module _ (c : Codec) where
  -- `compact`: a value that json.Compact refuses is left as it is
  abbrev pub or_same : Text → Option Text → Text
  or_same v none = v
  or_same v (some compacted) = compacted

  unfoldable pub compact_value : Text → Text
  compact_value v = or_same v (c.compact v)

  -- `len(v) == 0 || !json.Valid(v) || len(v) > MaxValueBytes`
  unfoldable pub is_refused : Text → Bool
  is_refused v = text_eq v [] || not (c.valid v) || ltb max_value_bytes (byte_length v)

  -- One round of the loop of `Normalize`.
  unfoldable pub add_entry : Dict Text → Text → Text → Dict Text
  unfolding is_refused compact_value
  add_entry out nk v =
      if text_eq nk []
      then out
      else if is_refused v
      then out
      else if not (has nk out) && leb max_count (length out)
      then out
      else put nk (compact_value v) out

  unfoldable pub normalize_from : Dict Text → Dict Text → List Text → Dict Text
  unfolding add_entry
  normalize_from input out [] = out
  normalize_from input out (k ∷ ks) =
      normalize_from input (add_entry out (normalize_key k) (trim_space (value_of input k))) ks

  unfoldable pub normalize : Dict Text → Dict Text
  unfolding normalize_from
  normalize input = normalize_from input [] (sort text_lt (keys input))

  -- `StringifyValue`; `unmarshal_string` is json.Unmarshal into a string.
  unfoldable pub stringify_value : (Text → Option Text) → Text → Text
  stringify_value unmarshal_string v =
      let s = trim_space v in
      if has_prefix s (codes "\"") then or_same s (unmarshal_string v) else s
