-- ===== src/Net/Tests.antt =====
-- Runs and instances of the validation helpers at concrete inputs.
use dayshield_core.Base.{true, false, none, some, [], ◌∷◌, ◌++◌, ◌≡◌, refl, ◌↔◌, ◌⊎◌}
use dayshield_core.Base.Text.{
  Text, codes, is_ascii_hexdigit, is_ascii_digit, is_ascii_alphanumeric, split, strip_suffix,
  strip_prefix, starts_with, ends_with,
}
use dayshield_core.Net.Cidr.{
  normalize_ipv4_cidr, normalize_ipv6_cidr, ipv4_addr_in_cidr, ipv6_addr_in_cidr,
  is_ipv6_link_local_cidr_or_addr,
}
use dayshield_core.Net.Validation.{is_valid_mac, mac_parts, is_valid_domain, is_label}
use dayshield_core.Net.Names.{IsJoined, SixPairs, is_valid_mac_iff, IsName, is_valid_domain_iff}
use dayshield_core.Net.Parsing.{parse_ipv4, parse_ipv6}

plain_ipv4 : parse_ipv4 (codes "192.168.1.254") ≡ some (192 ∷ 168 ∷ 1 ∷ 254 ∷ [])
unfolding parse_ipv4
plain_ipv4 = refl

octal_ipv4 : parse_ipv4 (codes "192.168.01.254") ≡ none
unfolding parse_ipv4
octal_ipv4 = refl

short_ipv6 : parse_ipv6 (codes "2001:db8::1") ≡ some (0x2001 ∷ 0xdb8 ∷ 0 ∷ 0 ∷ 0 ∷ 0 ∷ 0 ∷ 1 ∷ [])
unfolding parse_ipv6
short_ipv6 = refl

mapped_ipv6 :
    parse_ipv6 (codes "::ffff:10.0.0.1") ≡ some (0 ∷ 0 ∷ 0 ∷ 0 ∷ 0 ∷ 0xffff ∷ 0xa00 ∷ 1 ∷ [])
unfolding parse_ipv6
mapped_ipv6 = refl

full_ipv6 : parse_ipv6 (codes "1:2:3:4:5:6:7:8") ≡ some (1 ∷ 2 ∷ 3 ∷ 4 ∷ 5 ∷ 6 ∷ 7 ∷ 8 ∷ [])
unfolding parse_ipv6
full_ipv6 = refl

two_gaps_ipv6 : parse_ipv6 (codes "1::2::3") ≡ none
unfolding parse_ipv6
two_gaps_ipv6 = refl

is_valid_mac_iff_example : (is_valid_mac (codes "aa:bb:cc:dd:ee:0f") ≡ true) ↔ (
    IsJoined b':' SixPairs (codes "aa:bb:cc:dd:ee:0f")
    ⊎ IsJoined b'-' SixPairs (codes "aa:bb:cc:dd:ee:0f"))
is_valid_mac_iff_example = is_valid_mac_iff (codes "aa:bb:cc:dd:ee:0f")

colon_mac : is_valid_mac (codes "aa:bb:cc:dd:ee:0f") ≡ true
unfolding is_valid_mac mac_parts split is_ascii_hexdigit is_ascii_digit
colon_mac = refl

mixed_mac : is_valid_mac (codes "aa:bb-cc:dd:ee:0f") ≡ false
unfolding is_valid_mac mac_parts split is_ascii_hexdigit is_ascii_digit
mixed_mac = refl

is_valid_domain_iff_example : (is_valid_domain (codes "fw.example.org.") ≡ true) ↔ (
    IsName (codes "fw.example.org.")
    ⊎ ((name : Text) × IsName name × (codes "fw.example.org." ≡ name ++ codes ".")))
is_valid_domain_iff_example = is_valid_domain_iff (codes "fw.example.org.")

rooted_domain : is_valid_domain (codes "fw.example.org.") ≡ true
unfolding is_valid_domain is_label split strip_suffix strip_prefix starts_with ends_with
    is_ascii_alphanumeric is_ascii_digit
rooted_domain = refl

hyphen_domain : is_valid_domain (codes "-fw.example.org") ≡ false
unfolding is_valid_domain is_label split strip_suffix strip_prefix starts_with ends_with
    is_ascii_alphanumeric is_ascii_digit
hyphen_domain = refl

normalize_test : normalize_ipv4_cidr (codes " 192.168.7.9/20 ") ≡ some (codes "192.168.0.0/20")
unfolding normalize_ipv4_cidr
normalize_test = refl

normalize6_test : normalize_ipv6_cidr (codes "2001:db8::1") ≡ some (codes "2001:db8::/64")
unfolding normalize_ipv6_cidr
normalize6_test = refl

in_cidr_test : ipv4_addr_in_cidr (codes "10.1.2.3") (codes "10.1.0.0/16") ≡ true
unfolding ipv4_addr_in_cidr
in_cidr_test = refl

in_cidr6_test : ipv6_addr_in_cidr (codes "2001:db8:1::3") (codes "2001:db8::/48") ≡ false
unfolding ipv6_addr_in_cidr
in_cidr6_test = refl

link_local_test : is_ipv6_link_local_cidr_or_addr (codes "febf::1/64") ≡ true
unfolding is_ipv6_link_local_cidr_or_addr
link_local_test = refl
