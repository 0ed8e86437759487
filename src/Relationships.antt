-- ===== src/Relationships.antt =====
-- internal/relationships/relationships.go: the canonical form of a transaction's outbound edges.
-- `Decode` and `Encode` stand in Store/Codec.
pub mod Kinds
pub mod Order
pub mod Sets
pub mod Subsets
use kasas.Prelude.{
  Bool, List, [], false, if◌then◌else◌, leb, length, ltb, not, take, true, ℕ, ◌&&◌, ◌++◌, ◌==◌,
  ◌||◌, ◌∷◌,
}
use kasas.Prelude.Text.{CaseTable, Text, text_eq, text_lt, to_lower}
use kasas.Prelude.Dict.{mem}
use kasas.Prelude.Trim.{trim_right, trim_space}
use kasas.Prelude.Sort.{sort}

pub record Relationship : Type 0 where
  pub kind : Text
  pub target : Text

abbrev pub max_kind_len : ℕ
max_kind_len = 64

abbrev pub max_count : ℕ
max_count = 100

-- r.Kind + "\x00" + r.Target
unfoldable pub key : Relationship → Text
key r = r.kind ++ (0 ∷ r.target)

unfoldable pub is_ident : ℕ → Bool
is_ident r = (leb b'a' r && leb r b'z') || (leb b'0' r && leb r b'9')

unfoldable pub is_separator : ℕ → Bool
is_separator r = r == b' ' || r == b'-' || r == b'.' || r == b'_'

-- `if pendingSep && b.Len() > 0 { b.WriteByte('_') }`, and the rune
abbrev pub write_rune : Text → Bool → ℕ → Text
write_rune [] pending r = r ∷ []
write_rune (c ∷ cs) true r = (c ∷ cs) ++ (b'_' ∷ r ∷ [])
write_rune (c ∷ cs) false r = (c ∷ cs) ++ (r ∷ [])

-- The loop of `NormalizeKind`: the builder and `pendingSep`.
unfoldable pub write_kind : Text → Bool → Text → Text
unfolding is_ident is_separator
write_kind out pending [] = out
write_kind out pending (r ∷ rs) =
    let ident = is_ident r in
    write_kind (if ident then write_rune out pending r else out)
      (if ident then false else if is_separator r then true else pending) rs

abbrev pub is_underscore : ℕ → Bool
is_underscore r = r == b'_'

unfoldable pub cap_kind : Text → Text
cap_kind s =
    if ltb max_kind_len (length s) then trim_right is_underscore (take max_kind_len s) else s

unfoldable pub normalize_kind : CaseTable → Text → Text
unfolding write_kind cap_kind
normalize_kind u s = cap_kind (write_kind [] false (to_lower u (trim_space s)))

-- The `less` that sorts the edges.
unfoldable pub edge_less : Relationship → Relationship → Bool
edge_less a b =
    if not (text_eq a.kind b.kind) then text_lt a.kind b.kind else text_lt a.target b.target

-- `out` and the keys in `seen`
abbrev pub Collected : Type 0
Collected = List Relationship × List Text

abbrev pub canonical : CaseTable → Relationship → Relationship
canonical u r = record { kind = normalize_kind u r.kind; target = trim_space r.target }

unfoldable pub add_edge : Relationship → Collected → Collected
unfolding key mem
add_edge e (out, seen) =
    if text_eq e.kind [] || text_eq e.target []
    then (out, seen)
    else if mem (key e) seen
    then (out, seen)
    else if leb max_count (length out)
    then (out, seen)
    else (out ++ (e ∷ []), key e ∷ seen)

unfoldable pub collect : CaseTable → List Relationship → Collected → Collected
unfolding add_edge
collect u [] c = c
collect u (r ∷ rs) c = collect u rs (add_edge (canonical u r) c)

unfoldable pub normalize : CaseTable → List Relationship → List Relationship
unfolding collect
normalize u input = sort edge_less (collect u input ([], [])).0
