-- ===== src/Net/Cidr.antt =====
-- Addresses as numbers, masks and networks: the helpers of dayshield-core/src/config/models.rs on
-- CIDR notation. A `u32` or `u128` is its number.
use dayshield_core.Base.{
  ℕ, zero, suc, ◌+◌, ◌-◌, ◌*◌, ◌/◌, ◌%◌, ◌^◌, Bool, false, ◌&&◌, Option, none, some, List, [], ◌∷◌,
  ◌++◌, if◌then◌else◌, ltb, leb, ◌==◌, to_text,
}
use dayshield_core.Base.Text.{Text, trim, is_empty, split_once, parse_uint}
use dayshield_core.Net.Parsing.{parse_ipv4, parse_ipv6}
use dayshield_core.Net.Printing.{show_ipv4, show_ipv6}
use Prim.Native.Nat.{bit_and}

-- the number of parts in the given base, and its lowest parts again
abbrev to_number : ℕ → ℕ → List ℕ → ℕ
to_number base acc [] = acc
to_number base acc (g ∷ gs) = to_number base (acc * base + g) gs

abbrev last_parts : ℕ → ℕ → ℕ → List ℕ → List ℕ
last_parts base zero x gs = gs
last_parts base (suc n) x gs = last_parts base n (x / base) (x % base ∷ gs)

-- `u32::from(addr)` and `u128::from(addr)`, and the ways back
unfoldable pub to_u32 : List ℕ → ℕ
to_u32 octets = to_number 256 0 octets

unfoldable pub from_u32 : ℕ → List ℕ
from_u32 x = last_parts 256 4 x []

unfoldable pub to_u128 : List ℕ → ℕ
to_u128 groups = to_number 65536 0 groups

unfoldable pub from_u128 : ℕ → List ℕ
from_u128 x = last_parts 65536 8 x []

unfoldable pub ipv4_prefix_mask : ℕ → Option ℕ
ipv4_prefix_mask prefix =
    if ltb 32 prefix
    then none
    else some (if prefix == 0 then 0 else (2 ^ 32 - 1) * 2 ^ (32 - prefix) % 2 ^ 32)

unfoldable pub ipv6_prefix_mask : ℕ → Option ℕ
ipv6_prefix_mask prefix =
    if ltb 128 prefix
    then none
    else some (if prefix == 0 then 0 else (2 ^ 128 - 1) * 2 ^ (128 - prefix) % 2 ^ 128)

-- the address and the prefix of a text, with the prefix of a plain address
unfoldable pub cidr_parts : ℕ → Text → Option (Text × ℕ)
unfolding split_once parse_uint
cidr_parts plain value = elim (split_once b'/' value) [
  | none ↦ some (value, plain)
  | some (addr, prefix) ↦ elim (parse_uint 255 prefix) [ none ↦ none | some p ↦ some (addr, p) ]
]

abbrev show_network : (List ℕ → Text) → List ℕ → ℕ → Text
show_network show network prefix = show network ++ b'/' ∷ to_text prefix

module _ (parse : Text → Option (List ℕ)) (show : List ℕ → Text) (to_bits : List ℕ → ℕ)
    (from_bits : ℕ → List ℕ) (mask : ℕ → Option ℕ) (plain : ℕ) where
  -- `normalize_ipv4_cidr` and `normalize_ipv6_cidr` are this, each with its own functions
  unfoldable pub normalize_cidr : Text → Option Text
  unfolding trim cidr_parts to_text
  normalize_cidr value =
      if is_empty (trim value) then none else elim (cidr_parts plain (trim value)) [
        | none ↦ none
        | some (addr_text, prefix) ↦ elim (parse addr_text) [
          | none ↦ none
          | some addr ↦ elim (mask prefix) [
            | none ↦ none
            | some m ↦ some (show_network show (from_bits (bit_and (to_bits addr) m)) prefix)
          ]
        ]
      ]

  -- the network and the prefix that are read from a normalised text
  unfoldable pub read_network : Text → Option (List ℕ × ℕ)
  unfolding split_once parse_uint
  read_network normalized = elim (split_once b'/' normalized) [
    | none ↦ none
    | some (network_text, prefix_text) ↦ elim (parse network_text) [
      | none ↦ none
      | some network ↦ elim (parse_uint 255 prefix_text) [
        | none ↦ none
        | some prefix ↦ some (network, prefix)
      ]
    ]
  ]

  abbrev pub same_network : List ℕ → List ℕ × ℕ → Bool
  same_network addr (network, prefix) = elim (mask prefix) [
    | none ↦ false
    | some m ↦ bit_and (to_bits addr) m == bit_and (to_bits network) m
  ]

  unfoldable pub addr_in_cidr : Text → Text → Bool
  unfolding normalize_cidr read_network
  addr_in_cidr addr cidr = elim (parse addr) [
    | none ↦ false
    | some a ↦ elim (normalize_cidr cidr) [
      | none ↦ false
      | some normalized ↦ elim (read_network normalized) [
        | none ↦ false
        | some network ↦ same_network a network
      ]
    ]
  ]

unfoldable pub normalize_ipv4_cidr : Text → Option Text
unfolding normalize_cidr parse_ipv4 show_ipv4 to_u32 from_u32 ipv4_prefix_mask
normalize_ipv4_cidr value =
    normalize_cidr parse_ipv4 show_ipv4 to_u32 from_u32 ipv4_prefix_mask 24 value

unfoldable pub normalize_ipv6_cidr : Text → Option Text
unfolding normalize_cidr parse_ipv6 show_ipv6 to_u128 from_u128 ipv6_prefix_mask
normalize_ipv6_cidr value =
    normalize_cidr parse_ipv6 show_ipv6 to_u128 from_u128 ipv6_prefix_mask 64 value

unfoldable pub ipv4_addr_in_cidr : Text → Text → Bool
unfolding addr_in_cidr parse_ipv4 show_ipv4 to_u32 from_u32 ipv4_prefix_mask
ipv4_addr_in_cidr addr cidr =
    addr_in_cidr parse_ipv4 show_ipv4 to_u32 from_u32 ipv4_prefix_mask 24 addr cidr

unfoldable pub ipv6_addr_in_cidr : Text → Text → Bool
unfolding addr_in_cidr parse_ipv6 show_ipv6 to_u128 from_u128 ipv6_prefix_mask
ipv6_addr_in_cidr addr cidr =
    addr_in_cidr parse_ipv6 show_ipv6 to_u128 from_u128 ipv6_prefix_mask 64 addr cidr

-- the first segment of `fe80::/10`
abbrev is_link_local : List ℕ → Bool
is_link_local [] = false
is_link_local (g ∷ gs) = bit_and g 0xffc0 == 0xfe80

unfoldable pub is_ipv6_link_local_addr : Text → Bool
unfolding trim parse_ipv6
is_ipv6_link_local_addr addr = elim (parse_ipv6 (trim addr)) [
  | none ↦ false
  | some groups ↦ is_link_local groups
]

unfoldable pub is_ipv6_link_local_cidr_or_addr : Text → Bool
unfolding is_ipv6_link_local_addr split_once trim parse_uint
is_ipv6_link_local_cidr_or_addr value = elim (split_once b'/' (trim value)) [
  | none ↦ is_ipv6_link_local_addr (trim value)
  | some (addr, prefix) ↦ elim (parse_uint 255 prefix) [
    | none ↦ false
    | some p ↦ leb p 128 && is_ipv6_link_local_addr addr
  ]
]

unfoldable pub is_valid_ipv4_range : Text → Text → Bool
unfolding parse_ipv4 to_u32
is_valid_ipv4_range start end = elim (parse_ipv4 start) [
  | none ↦ false
  | some s ↦ elim (parse_ipv4 end) [ none ↦ false | some e ↦ leb (to_u32 s) (to_u32 e) ]
]

unfoldable pub is_valid_mtu : ℕ → Bool
is_valid_mtu mtu = leb 68 mtu

unfoldable pub is_valid_mss : ℕ → Bool
is_valid_mss mss = leb 536 mss
