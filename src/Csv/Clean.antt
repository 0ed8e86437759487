-- ===== src/Csv/Clean.antt =====
-- `cleanAmount`.
-- strings.HasSuffix(s, c) for one rune
use kasas.Prelude.{
  Bool, Option, [], any, false, if◌then◌else◌, keep, leb, none, not, some, true, ℕ, ◌&&◌, ◌==◌,
  ◌||◌, ◌∷◌,
}
use kasas.Prelude.Text.{Text, text_eq}
use kasas.Prelude.Trim.{trim_space}

abbrev pub ends_with : ℕ → Text → Bool
ends_with c [] = false
ends_with c (x ∷ []) = x == c
ends_with c (x ∷ y ∷ rest) = ends_with c (y ∷ rest)

abbrev pub starts_with : ℕ → Text → Bool
starts_with c [] = false
starts_with c (x ∷ rest) = x == c

abbrev pub drop_last : Text → Text
drop_last [] = []
drop_last (x ∷ []) = []
drop_last (x ∷ y ∷ rest) = x ∷ drop_last (y ∷ rest)

-- s[1 : len(s)-1]
abbrev pub strip_ends : Text → Text
strip_ends [] = []
strip_ends (x ∷ rest) = drop_last rest

abbrev pub is_digit : ℕ → Bool
is_digit c = leb b'0' c && leb c b'9'

abbrev pub is_amount_rune : ℕ → Bool
is_amount_rune c = is_digit c || c == b'.'

abbrev pub minus : ℕ
minus = b'-'

abbrev pub with_sign : Bool → Text → Option Text
with_sign neg digits =
    if any (λ c. not (c == b'.')) digits
    then some (if neg then minus ∷ digits else digits)
    else none

-- the loop of `cleanAmount`, on the amount without its parentheses
unfoldable pub clean_digits : Bool → Text → Option Text
clean_digits neg s = with_sign (neg || any (λ c. c == minus) s) (keep is_amount_rune s)

unfoldable pub clean_amount : Text → Option Text
unfolding clean_digits
clean_amount s =
    let t = trim_space s in
    if text_eq t []
    then none
    else if starts_with b'(' t && ends_with b')' t
    then clean_digits true (strip_ends t)
    else clean_digits false t
