-- ===== src/Base/Text.antt =====
-- Texts as lists of code points, with the methods of `str` that the code calls.
pub mod Affixes
pub mod Splits
pub mod Sorting
pub mod Joins
use Prim.Native.Char.{code}
use dayshield_core.Base.Tests.{ltb, leb, ◌==◌, within, if◌then◌else◌, Option-cases}
use dayshield_core.Base.Lists.{any, all, drop, length}
use Prim.Native.Nat.{ℕ, zero, suc, ◌+◌, ◌-◌, ◌*◌}
use Prim.Native.String.{String}
use mathlib.Core.Path.{◌≡◌, refl, sym, ap, ap₂, ◌∙◌}
use mathlib.Core.Logic.{◌↔◌, inl, inr}
use mathlib.Core.Bool.{Bool, true, false, not, ◌&&◌, ◌||◌}
use mathlib.Core.Option.{Option, none, some}
use mathlib.Core.List.{List, [], ◌∷◌, ◌++◌, map, reverse, reverse-append, reverse-reverse}
use native.Mathlib.Omega.{arith}

abbrev pub Text : Type 0
Text = List ℕ

abbrev pub codes : String → Text
codes String.[] = []
codes (String.◌∷◌ c s) = code c ∷ codes s

abbrev pub text_eq : Text → Text → Bool
text_eq [] [] = true
text_eq [] (y ∷ ys) = false
text_eq (x ∷ xs) [] = false
text_eq (x ∷ xs) (y ∷ ys) = x == y && text_eq xs ys

pub text_eq_iff : (s t : Text) → (text_eq s t ≡ true) ↔ (s ≡ t)
text_eq_iff [] [] = ground arith
text_eq_iff [] (y ∷ ys) = ground arith
text_eq_iff (x ∷ xs) [] = ground arith
text_eq_iff (x ∷ xs) (y ∷ ys) = ground (arith, text_eq_iff xs ys)

abbrev pub is_empty : Text → Bool
is_empty [] = true
is_empty (c ∷ s) = false

-- `s.len()`, the bytes of a text in UTF-8
abbrev pub utf8_len : ℕ → ℕ
utf8_len c = if ltb c 0x80 then 1 else (if ltb c 0x800 then 2 else (if ltb c 0x10000 then 3 else 4))

abbrev pub byte_len : Text → ℕ
byte_len [] = 0
byte_len (c ∷ s) = utf8_len c + byte_len s

-- `char::is_whitespace`, the property White_Space of Unicode
unfoldable pub is_whitespace : ℕ → Bool
is_whitespace c =
    within 9 13 c
    || c == 32
    || c == 0x85
    || c == 0xa0
    || c == 0x1680
    || within 0x2000 0x200a c
    || c == 0x2028
    || c == 0x2029
    || c == 0x202f
    || c == 0x205f
    || c == 0x3000

-- `u8::is_ascii_whitespace`, which leaves out the vertical tab
unfoldable pub is_ascii_whitespace : ℕ → Bool
is_ascii_whitespace c = c == 32 || c == 9 || c == 10 || c == 12 || c == 13

unfoldable pub is_ascii_digit : ℕ → Bool
is_ascii_digit c = within b'0' b'9' c

unfoldable pub is_ascii_alphanumeric : ℕ → Bool
unfolding is_ascii_digit
is_ascii_alphanumeric c = is_ascii_digit c || within b'a' b'z' c || within b'A' b'Z' c

unfoldable pub is_ascii_hexdigit : ℕ → Bool
unfolding is_ascii_digit
is_ascii_hexdigit c = is_ascii_digit c || within b'a' b'f' c || within b'A' b'F' c

unfoldable pub to_ascii_lowercase : ℕ → ℕ
to_ascii_lowercase c = if within b'A' b'Z' c then c + 32 else c

unfoldable pub to_ascii_uppercase : ℕ → ℕ
to_ascii_uppercase c = if within b'a' b'z' c then c - 32 else c

unfoldable pub eq_ignore_ascii_case : Text → Text → Bool
unfolding to_ascii_lowercase
eq_ignore_ascii_case [] [] = true
eq_ignore_ascii_case [] (y ∷ ys) = false
eq_ignore_ascii_case (x ∷ xs) [] = false
eq_ignore_ascii_case (x ∷ xs) (y ∷ ys) =
    to_ascii_lowercase x == to_ascii_lowercase y && eq_ignore_ascii_case xs ys

unfoldable pub trim_start : Text → Text
trim_start [] = []
trim_start (c ∷ s) = let rest = trim_start s in if is_whitespace c then rest else c ∷ s

unfoldable pub trim : Text → Text
unfolding trim_start is_whitespace
trim s = reverse (trim_start (reverse (trim_start s)))

unfoldable pub strip_prefix : Text → Text → Option Text
strip_prefix [] s = some s
strip_prefix (p ∷ ps) [] = none
strip_prefix (p ∷ ps) (c ∷ s) = if p == c then strip_prefix ps s else none

unfoldable pub starts_with : Text → Text → Bool
starts_with [] s = true
starts_with (p ∷ ps) [] = false
starts_with (p ∷ ps) (c ∷ s) = p == c && starts_with ps s

unfoldable pub strip_suffix : Text → Text → Option Text
unfolding strip_prefix
strip_suffix p s = elim (strip_prefix (reverse p) (reverse s)) [
  | none ↦ none
  | some r ↦ some (reverse r)
]

unfoldable pub ends_with : Text → Text → Bool
unfolding starts_with
ends_with p s = starts_with (reverse p) (reverse s)

-- `s.contains(p)`
unfoldable pub contains : Text → Text → Bool
unfolding starts_with
contains p [] = is_empty p
contains p (c ∷ s) = starts_with p (c ∷ s) || contains p s

-- `s.split(sep)`: one part more than there are separators
abbrev cons_head : ℕ → List Text → List Text
cons_head c [] = (c ∷ []) ∷ []
cons_head c (part ∷ parts) = (c ∷ part) ∷ parts

unfoldable pub split : ℕ → Text → List Text
split sep [] = [] ∷ []
split sep (c ∷ s) = let rest = split sep s in if c == sep then [] ∷ rest else cons_head c rest

-- `s.split_once(sep)`
unfoldable pub split_once : ℕ → Text → Option (Text × Text)
split_once sep [] = none
split_once sep (c ∷ s) = elim (split_once sep s) [
  | none ↦ if c == sep then some ([], s) else none
  | some (l, r) ↦ if c == sep then some ([], s) else some (c ∷ l, r)
]

-- `s.split_whitespace()` and `s.split_ascii_whitespace()`: the parts that are not empty
unfoldable pub non_empty : List Text → List Text
non_empty [] = []
non_empty ([] ∷ parts) = non_empty parts
non_empty ((c ∷ s) ∷ parts) = (c ∷ s) ∷ non_empty parts

unfoldable pub split_where : (ℕ → Bool) → Text → List Text
split_where p [] = [] ∷ []
split_where p (c ∷ s) = let rest = split_where p s in if p c then [] ∷ rest else cons_head c rest

unfoldable pub split_whitespace : Text → List Text
unfolding non_empty split_where is_whitespace
split_whitespace s = non_empty (split_where is_whitespace s)

unfoldable pub split_ascii_whitespace : Text → List Text
unfolding non_empty split_where is_ascii_whitespace
split_ascii_whitespace s = non_empty (split_where is_ascii_whitespace s)

-- the digits of a number, most significant first, or `none` at the first other character
abbrev pub digits_value : ℕ → Text → Option ℕ
digits_value acc [] = some acc
digits_value acc (c ∷ s) =
    let rest = digits_value (acc * 10 + (c - b'0')) s in if within b'0' b'9' c then rest else none

abbrev pub digits_upto : ℕ → Text → Option ℕ
digits_upto limit s =
    if is_empty s
    then none
    else elim (digits_value 0 s) [ none ↦ none | some v ↦ if leb v limit then some v else none ]

-- `s.parse::<uN>().ok()`, for the type whose largest value is `limit`: digits, with one `+` allowed
unfoldable pub parse_uint : ℕ → Text → Option ℕ
parse_uint limit [] = none
parse_uint limit (c ∷ s) = if c == b'+' then digits_upto limit s else digits_upto limit (c ∷ s)

-- `text.lines()`: the parts between newlines, without a last empty one, each less one final `\r`
abbrev drop_last_empty : List Text → List Text
drop_last_empty [] = []
drop_last_empty (l ∷ []) = if is_empty l then [] else l ∷ []
drop_last_empty (l ∷ m ∷ ls) = l ∷ drop_last_empty (m ∷ ls)

abbrev strip_return : Text → Text
strip_return [] = []
strip_return (c ∷ []) = if c == 13 then [] else c ∷ []
strip_return (c ∷ d ∷ s) = c ∷ strip_return (d ∷ s)

unfoldable pub lines : Text → List Text
unfolding split
lines s = map strip_return (drop_last_empty (split 10 s))
