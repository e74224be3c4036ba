-- ===== src/PrefixDelegation.antt =====
-- The address of an interface that tracks a delegated prefix:
-- dayshield-core/src/engine/prefix_delegation/mod.rs. A `u128` is its number.
pub mod Address
mod Tests
use dayshield_core.Base.{
  ℕ, zero, suc, ◌+◌, ◌-◌, ◌*◌, ◌/◌, ◌%◌, ◌^◌, Bool, true, false, ◌&&◌, ◌||◌, not, Option, none,
  some, List, [], ◌∷◌, ◌++◌, if◌then◌else◌, ltb, leb, ◌==◌, to_text,
}
use dayshield_core.Base.Text.{Text, codes, trim, is_empty, contains, split_once, parse_uint}
use dayshield_core.Net.Cidr.{to_u128, from_u128}
use dayshield_core.Net.Parsing.{parse_ipv6}
use dayshield_core.Net.Printing.{show_ipv6}
use Prim.Native.Nat.{bit_and, bit_or}

unfoldable pub pd_prefix_path : Text → Text
pd_prefix_path iface_name = codes "/run/dayshield-pd-" ++ iface_name ++ codes ".prefix"

unfoldable pub pd_conf_path : Text → Text
pd_conf_path iface_name = codes "/etc/dhcp/dhclient6-pd-" ++ iface_name ++ codes ".conf"

-- the prefix in the state file, which may be missing
unfoldable pub read_delegated_prefix : Option Text → Option Text
unfolding trim contains
read_delegated_prefix none = none
read_delegated_prefix (some content) =
    let s = trim content in if not (is_empty s) && contains (codes "/") s then some s else none

-- the groups of the address, and the length
unfoldable pub parse_prefix : Text → Option (List ℕ × ℕ)
unfolding split_once trim parse_ipv6 parse_uint
parse_prefix prefix = elim (split_once b'/' prefix) [
  | none ↦ none
  | some (addr, len) ↦ elim (parse_ipv6 (trim addr)) [
    | none ↦ none
    | some groups ↦ elim (parse_uint 255 (trim len)) [
      | none ↦ none
      | some l ↦ if ltb 128 l then none else some (groups, l)
    ]
  ]
]

-- `x << shift`, where a release build takes the shift modulo 128
unfoldable pub shift_left : ℕ → ℕ → ℕ
shift_left x shift = x * 2 ^ (shift % 128) % 2 ^ 128

unfoldable pub prefix_mask : ℕ → ℕ
unfolding shift_left
prefix_mask del_len = if del_len == 0 then 0 else shift_left (2 ^ 128 - 1) (128 - del_len)

-- network, subnet and host in one number
unfoldable pub compose_address : ℕ → ℕ → ℕ → ℕ → ℕ → ℕ
unfolding prefix_mask shift_left
compose_address base del_len prefix_id target_prefix_len host_part =
    let base_network = bit_and base (prefix_mask del_len) in
    let prefix_part = shift_left prefix_id (128 - target_prefix_len) in
    bit_or (bit_or base_network prefix_part) host_part

unfoldable pub does_not_fit : ℕ → ℕ → Bool
does_not_fit available_bits prefix_id = ltb available_bits 8 && leb (2 ^ available_bits) prefix_id

unfoldable pub compute_track_address : Text → ℕ → ℕ → ℕ → Option Text
unfolding parse_prefix to_u128 from_u128 compose_address does_not_fit show_ipv6 to_text
compute_track_address delegated_prefix prefix_id target_prefix_len host_part =
    elim (parse_prefix delegated_prefix) [
      | none ↦ none
      | some (groups, del_len) ↦
          if ltb target_prefix_len del_len
            || ltb 128 target_prefix_len
            || does_not_fit (target_prefix_len - del_len) prefix_id
          then none
          else some (
              show_ipv6 (
                from_u128
                  (compose_address (to_u128 groups) del_len prefix_id target_prefix_len host_part))
              ++ b'/' ∷ to_text target_prefix_len)
    ]
