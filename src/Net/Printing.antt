-- ===== src/Net/Printing.antt =====
-- The `Display` of `Ipv4Addr` and `Ipv6Addr`, as the standard library prints them.
use dayshield_core.Base.{
  ℕ, zero, suc, ◌+◌, ◌-◌, ◌/◌, ◌%◌, true, false, List, [], ◌∷◌, ◌++◌, if◌then◌else◌, ltb, ◌==◌,
  take, drop, to_text, ◌≡◌, refl,
}
use dayshield_core.Base.Text.{Text, codes}

abbrev hex_digit : ℕ → ℕ
hex_digit d = if ltb d 10 then d + b'0' else d - 10 + b'a'

-- the digits of n in base 16, at most as many as the fuel: four are enough for a group
abbrev hex_digits : ℕ → ℕ → Text
hex_digits zero n = []
hex_digits (suc fuel) n = elim (ltb n 16) [
  | true ↦ hex_digit n ∷ []
  | false ↦ hex_digits fuel (n / 16) ++ hex_digit (n % 16) ∷ []
]

abbrev pub join_shown : (ℕ → Text) → ℕ → List ℕ → Text
join_shown show sep [] = []
join_shown show sep (x ∷ []) = show x
join_shown show sep (x ∷ y ∷ ys) = show x ++ sep ∷ join_shown show sep (y ∷ ys)

unfoldable pub show_ipv4 : List ℕ → Text
unfolding to_text
show_ipv4 octets = join_shown to_text b'.' octets

abbrev pub show_groups : List ℕ → Text
show_groups gs = join_shown (hex_digits 4) b':' gs

-- a run of zero groups: its start and its length
pub record Span : Type 0 where
  pub start : ℕ
  pub len : ℕ

abbrev longest_run : ℕ → Span → Span → List ℕ → Span
longest_run i current longest [] = longest
longest_run i current longest (zero ∷ gs) =
    let start = if current.len == 0 then i else current.start in
    let current' : Span = record { start = start; len = suc current.len } in
    longest_run (suc i) current' (if ltb longest.len current'.len then current' else longest) gs
longest_run i current longest (suc g ∷ gs) =
    longest_run (suc i) (record { start = 0; len = 0 }) longest gs

abbrev no_span : Span
no_span = record { start = 0; len = 0 }

abbrev show_compressed : List ℕ → Text
show_compressed gs =
    let zeroes = longest_run 0 no_span no_span gs in
    if ltb 1 zeroes.len
    then show_groups (take zeroes.start gs)
      ++ codes "::"
      ++ show_groups (drop (zeroes.start + zeroes.len) gs)
    else show_groups gs

-- an IPv4-mapped address shows its IPv4 address
unfoldable pub show_ipv6 : List ℕ → Text
unfolding show_ipv4
show_ipv6 (zero ∷ zero ∷ zero ∷ zero ∷ zero ∷ m ∷ a ∷ b ∷ []) =
    if m == 0xffff
    then codes "::ffff:" ++ show_ipv4 (a / 256 ∷ a % 256 ∷ b / 256 ∷ b % 256 ∷ [])
    else show_compressed (0 ∷ 0 ∷ 0 ∷ 0 ∷ 0 ∷ m ∷ a ∷ b ∷ [])
show_ipv6 gs = show_compressed gs

show_test : show_ipv6 (0x2001 ∷ 0xdb8 ∷ 0 ∷ 3 ∷ 0 ∷ 0 ∷ 0 ∷ 1 ∷ []) ≡ codes "2001:db8:0:3::1"
unfolding show_ipv6
show_test = refl
