-- ===== src/Net/Parsing.antt =====
-- `str::parse` for `Ipv4Addr` and `Ipv6Addr`, as the standard library reads them. A reader takes
-- its value from the front of a text and gives what is left.
use dayshield_core.Base.{
  ℕ, zero, suc, ◌+◌, ◌-◌, ◌*◌, Bool, true, false, ◌&&◌, ◌||◌, not, Option, none, some, List, [],
  ◌∷◌, ◌++◌, if◌then◌else◌, ltb, ◌==◌, within, length,
}
use dayshield_core.Base.Text.{Text, is_empty}

abbrev pub digit_value : ℕ → Option ℕ
digit_value c =
    if within b'0' b'9' c
    then some (c - b'0')
    else (if within b'a' b'f' c
        then some (c - b'a' + 10)
        else (if within b'A' b'F' c then some (c - b'A' + 10) else none))

-- the digits of a radix at the front, and what is left
abbrev pub digits : ℕ → Text → List ℕ × Text
digits radix [] = ([], [])
digits radix (c ∷ s) =
    let (ds, rest) = digits radix s in
    elim (digit_value c) [
      | none ↦ ([], c ∷ s)
      | some d ↦ if ltb d radix then (d ∷ ds, rest) else ([], c ∷ s)
    ]

abbrev pub value : ℕ → ℕ → List ℕ → ℕ
value radix acc [] = acc
value radix acc (d ∷ ds) = value radix (acc * radix + d) ds

abbrev pub leads_with_zero : List ℕ → Bool
leads_with_zero (zero ∷ d ∷ ds) = true
leads_with_zero ds = false

abbrev pub Reader : Type 0 → Type 0
Reader A = Text → Option (A × Text)

-- `read_number` with its largest value
abbrev pub read_number : ℕ → ℕ → Bool → ℕ → Reader ℕ
read_number radix max_digits allow_zero_prefix limit s =
    let (ds, rest) = digits radix s in
    if (length ds == 0 || ltb max_digits (length ds))
      || (leads_with_zero ds && not allow_zero_prefix)
      || ltb limit (value radix 0 ds)
    then none
    else some (value radix 0 ds, rest)

abbrev pub read_char : ℕ → Text → Option Text
read_char x [] = none
read_char x (c ∷ s) = if c == x then some s else none

-- `read_separator`: the separator first, but for the first value
abbrev pub read_separator : {A : Type 0} → ℕ → ℕ → Reader A → Reader A
read_separator sep zero inner s = inner s
read_separator sep (suc i) inner s = elim (read_char sep s) [ none ↦ none | some r ↦ inner r ]

abbrev pub read_octets : ℕ → ℕ → Reader (List ℕ)
read_octets i zero s = some ([], s)
read_octets i (suc n) s = elim (read_separator b'.' i (read_number 10 3 false 255) s) [
  | none ↦ none
  | some (o, r) ↦ elim (read_octets (suc i) n r) [ none ↦ none | some (os, q) ↦ some (o ∷ os, q) ]
]

abbrev pub read_ipv4 : Reader (List ℕ)
read_ipv4 s = read_octets 0 4 s

-- the octets of an address that is the whole text, which has 15 bytes at most
unfoldable pub parse_ipv4 : Text → Option (List ℕ)
parse_ipv4 s = if ltb 15 (length s) then none else elim (read_ipv4 s) [
  | none ↦ none
  | some (os, rest) ↦ if is_empty rest then some os else none
]

-- the two groups that four octets stand for
abbrev pub as_groups : List ℕ → List ℕ
as_groups (a ∷ b ∷ c ∷ d ∷ []) = (a * 256 + b) ∷ (c * 256 + d) ∷ []
as_groups os = []

-- an embedded IPv4 address, which takes two of the groups left
abbrev pub read_dotted : ℕ → ℕ → Reader (List ℕ)
read_dotted i n s = if ltb 0 n then read_separator b':' i read_ipv4 s else none

-- `read_groups` from the i-th group on, with n more to fill: the groups, whether an embedded IPv4
-- address ended them, and what is left
abbrev pub read_groups : ℕ → ℕ → Text → List ℕ × Bool × Text
read_groups i zero s = ([], false, s)
read_groups i (suc n) s = elim (read_dotted i n s) [
  | some (os, r) ↦ (as_groups os, true, r)
  | none ↦ elim (read_separator b':' i (read_number 16 4 true 0xffff) s) [
    | none ↦ ([], false, s)
    | some (g, r) ↦ let (gs, v4, q) = read_groups (suc i) n r in (g ∷ gs, v4, q)
  ]
]

abbrev pub zeros : ℕ → List ℕ
zeros zero = []
zeros (suc n) = 0 ∷ zeros n

-- the groups after `::`
abbrev pub read_tail : List ℕ → Reader (List ℕ)
read_tail head s = elim (read_char b':' s) [
  | none ↦ none
  | some s' ↦ elim (read_char b':' s') [
    | none ↦ none
    | some s'' ↦
        let (tail, v4, rest) = read_groups 0 (7 - length head) s'' in
        some (head ++ zeros (8 - length head - length tail) ++ tail, rest)
  ]
]

abbrev pub read_ipv6 : Reader (List ℕ)
read_ipv6 s =
    let (head, v4, rest) = read_groups 0 8 s in
    if length head == 8 then some (head, rest) else (if v4 then none else read_tail head rest)

-- the eight groups of an address that is the whole text
unfoldable pub parse_ipv6 : Text → Option (List ℕ)
parse_ipv6 s = elim (read_ipv6 s) [
  | none ↦ none
  | some (gs, rest) ↦ if is_empty rest then some gs else none
]
