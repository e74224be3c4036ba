-- ===== src/Net/Validation.antt =====
-- The validation helpers of dayshield-core/src/config/models.rs.
use dayshield_core.Base.{
  ℕ, Bool, true, false, not, ◌&&◌, ◌||◌, Option, none, some, String, if◌then◌else◌, ltb, leb, ◌==◌,
  within, length, any, all, Outcome, ok, err,
}
use dayshield_core.Base.Text.{
  Text, codes, byte_len, is_empty, is_ascii_alphanumeric, is_ascii_hexdigit, trim, split,
  split_once, strip_prefix, strip_suffix, starts_with, ends_with, parse_uint,
}
use dayshield_core.Net.Parsing.{parse_ipv4, parse_ipv6}

abbrev pub is_some : {A : Type 0} → Option A → Bool
is_some none = false
is_some (some x) = true

unfoldable pub is_valid_interface_name : Text → Bool
unfolding is_ascii_alphanumeric
is_valid_interface_name name =
    not (is_empty name)
    && leb (byte_len name) 15
    && all (λ c. is_ascii_alphanumeric c || c == b'-' || c == b'_' || c == b'.') name

unfoldable pub is_valid_ipv4_addr : Text → Bool
unfolding parse_ipv4
is_valid_ipv4_addr addr = is_some (parse_ipv4 addr)

unfoldable pub is_valid_ipv6_addr : Text → Bool
unfolding parse_ipv6
is_valid_ipv6_addr addr = is_some (parse_ipv6 addr)

-- `IpAddr` is either kind of address.
unfoldable pub is_valid_ip : Text → Bool
unfolding is_valid_ipv4_addr is_valid_ipv6_addr
is_valid_ip addr = is_valid_ipv4_addr addr || is_valid_ipv6_addr addr

abbrev pub has_char : ℕ → Text → Bool
has_char x s = any (λ c. c == x) s

abbrev pub is_hex_pair : Text → Bool
is_hex_pair p = byte_len p == 2 && all is_ascii_hexdigit p

unfoldable pub mac_parts : ℕ → Text → Bool
unfolding split is_ascii_hexdigit
mac_parts sep mac = length (split sep mac) == 6 && all is_hex_pair (split sep mac)

unfoldable pub is_valid_mac : Text → Bool
unfolding mac_parts
is_valid_mac mac =
    if has_char b':' mac
    then mac_parts b':' mac
    else (if has_char b'-' mac then mac_parts b'-' mac else false)

unfoldable pub is_valid_duid : Text → Bool
unfolding split is_ascii_hexdigit
is_valid_duid duid = leb 3 (length (split b':' duid)) && all is_hex_pair (split b':' duid)

unfoldable pub is_label : Text → Bool
unfolding is_ascii_alphanumeric starts_with ends_with
is_label label =
    not (is_empty label)
    && leb (byte_len label) 63
    && all (λ c. is_ascii_alphanumeric c || c == b'-') label
    && not (starts_with (codes "-") label)
    && not (ends_with (codes "-") label)

abbrev unwrap_or : Option Text → Text → Text
unwrap_or none d = d
unwrap_or (some s) d = s

unfoldable pub is_valid_domain : Text → Bool
unfolding is_label split strip_suffix
is_valid_domain whole =
    let domain = unwrap_or (strip_suffix (codes ".") whole) whole in
    if is_empty domain || ltb 253 (byte_len domain) then false else all is_label (split b'.' domain)

pub data AcmeChallengeType : Type 0 where
  http01 dns01 : AcmeChallengeType

abbrev is_dns01 : AcmeChallengeType → Bool
is_dns01 dns01 = true
is_dns01 http01 = false

unfoldable pub is_valid_acme_domain : Text → AcmeChallengeType → Bool
unfolding is_valid_domain strip_prefix
is_valid_acme_domain domain challenge_type = elim (strip_prefix (codes "*.") domain) [
  | some stripped ↦ is_dns01 challenge_type && is_valid_domain stripped
  | none ↦ is_valid_domain domain
]

unfoldable pub is_valid_cidr : Text → Bool
unfolding parse_ipv4 parse_ipv6 split_once parse_uint
is_valid_cidr cidr = elim (split_once b'/' cidr) [
  | none ↦ false
  | some (addr_str, prefix_str) ↦ elim (parse_uint 255 prefix_str) [
    | none ↦ false
    | some prefix_len ↦
        if is_some (parse_ipv4 addr_str)
        then leb prefix_len 32
        else (if is_some (parse_ipv6 addr_str) then leb prefix_len 128 else false)
  ]
]

unfoldable pub is_valid_cidr_or_addr : Text → Bool
unfolding is_valid_ip is_valid_cidr
is_valid_cidr_or_addr value = is_valid_ip value || is_valid_cidr value

unfoldable pub is_valid_ipv6_cidr : Text → Bool
unfolding parse_ipv6 split_once parse_uint
is_valid_ipv6_cidr value = elim (split_once b'/' value) [
  | none ↦ false
  | some (ip_str, prefix_str) ↦ elim (parse_uint 255 prefix_str) [
    | none ↦ false
    | some prefix ↦ is_some (parse_ipv6 ip_str) && leb prefix 128
  ]
]

unfoldable pub is_valid_ipv6_cidr_or_addr : Text → Bool
unfolding is_valid_ipv6_addr is_valid_ipv6_cidr
is_valid_ipv6_cidr_or_addr value = is_valid_ipv6_addr value || is_valid_ipv6_cidr value

unfoldable pub value_uses_ipv6 : Text → Bool
unfolding is_valid_ipv6_cidr_or_addr is_valid_ipv6_addr trim strip_prefix split_once
value_uses_ipv6 whole =
    let value = trim whole in
    if is_valid_ipv6_cidr_or_addr value then true else elim (strip_prefix (codes "[") value) [
      | none ↦ false
      | some rest ↦ elim (split_once b']' rest) [
        | none ↦ false
        | some (addr, tail) ↦ is_valid_ipv6_addr addr
      ]
    ]

-- the value and the context of the message
pub record Ipv6Disabled : Type 0 where
  pub context : String
  pub value : Text

unfoldable pub ensure_ipv6_allowed : Text → Bool → String → Outcome Ipv6Disabled (Unit {0})
unfolding value_uses_ipv6
ensure_ipv6_allowed value ipv6_enabled context =
    if not ipv6_enabled && value_uses_ipv6 value
    then err (record { context = context; value = value })
    else ok tt

unfoldable pub is_valid_vlan_id : ℕ → Bool
is_valid_vlan_id vlan_id = within 1 4094 vlan_id

unfoldable pub is_valid_port : ℕ → Bool
is_valid_port port = ltb 0 port
