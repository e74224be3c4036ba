-- ===== src/Firewall/Nat.antt =====
-- NAT rules and their validation in dayshield-core/src/config/models.rs.
pub mod Format
pub mod Table
use dayshield_core.Base.{
  ℕ, ℤ, Bool, true, false, not, ◌&&◌, ◌||◌, Option, none, some, List, [], ◌∷◌, ltb, leb, ◌==◌, any,
  Outcome, ok, err, ◌>>◌, ◌>>=◌, reject_if, if◌then◌else◌,
}
use dayshield_core.Base.Text.{Text, text_eq, split_once, parse_uint}
use dayshield_core.Net.Parsing.{parse_ipv4}
use dayshield_core.Net.Validation.{
  is_valid_ipv4_addr, is_valid_ipv6_addr, is_valid_ipv6_cidr_or_addr, is_valid_interface_name,
  is_some,
}

pub data OutboundMode : Type 0 where
  automatic hybrid manual : OutboundMode

pub data NatRuleType : Type 0 where
  masquerade snat dnat one_to_one : NatRuleType

pub data NatProtocol : Type 0 where
  nat_tcp nat_udp tcp_udp any_nat : NatProtocol

pub data AddressFamily : Type 0 where
  family4 family6 : AddressFamily

pub record NatTranslation : Type 0 where
  pub address : Option Text
  pub port : Option ℕ
  pub port_end : Option ℕ

pub record NatRule : Type 0 where
  pub id : Text
  pub enabled : Bool
  pub description : Option Text
  pub rule_type : NatRuleType
  pub interface : Option Text
  pub source : Option Text
  pub destination : Option Text
  pub protocol : NatProtocol
  pub source_port : Option ℕ
  pub destination_port : Option ℕ
  pub translation : Option NatTranslation
  pub nat_reflection : Bool
  pub address_family : AddressFamily
  pub priority : ℤ
  pub log : Bool
  pub auto_firewall_rule : Bool

pub record NatConfig : Type 0 where
  pub outbound_mode : OutboundMode
  pub wan_interfaces : List Text
  pub rules : List NatRule
  pub nat_reflection : Bool

abbrev default_nat_config : NatConfig
default_nat_config = record {
  outbound_mode = automatic;
  wan_interfaces = [];
  rules = [];
  nat_reflection = false;
}

pub data NatError : Type 0 where
  ipv6_needs_mode : NatError
  invalid_source invalid_destination invalid_interface : Text → NatError
  ports_need_transport zero_source_port zero_destination_port : NatError
  needs_source needs_translation needs_address : NatError
  invalid_translation : Text → NatError
  no_port_translation port_needs_transport zero_port zero_port_end end_needs_port : NatError
  ports_reversed : ℕ → ℕ → NatError
  no_translation : NatError
  duplicate_interface : Text → NatError
  duplicate_id : Text → NatError
  in_rule : Text → NatError → NatError

abbrev pub is_family6 : AddressFamily → Bool
is_family6 family6 = true
is_family6 family4 = false

abbrev pub same_family : AddressFamily → AddressFamily → Bool
same_family family4 f = not (is_family6 f)
same_family family6 f = is_family6 f

abbrev pub is_any_nat : NatProtocol → Bool
is_any_nat any_nat = true
is_any_nat p = false

unfoldable pub is_valid_ipv4_cidr_or_addr : Text → Bool
unfolding parse_ipv4 split_once parse_uint
is_valid_ipv4_cidr_or_addr value =
    if is_some (parse_ipv4 value) then true else elim (split_once b'/' value) [
      | none ↦ false
      | some (ip_str, prefix_str) ↦ elim (parse_uint 255 prefix_str) [
        | none ↦ false
        | some prefix ↦ is_some (parse_ipv4 ip_str) && leb prefix 32
      ]
    ]

unfoldable pub is_valid_nat_addr_for_family : Text → AddressFamily → Bool
unfolding is_valid_ipv4_addr is_valid_ipv6_addr
is_valid_nat_addr_for_family value family4 = is_valid_ipv4_addr value
is_valid_nat_addr_for_family value family6 = is_valid_ipv6_addr value

unfoldable pub is_valid_nat_cidr_or_addr_for_family : Text → AddressFamily → Bool
unfolding is_valid_ipv4_cidr_or_addr is_valid_ipv6_cidr_or_addr
is_valid_nat_cidr_or_addr_for_family value family4 = is_valid_ipv4_cidr_or_addr value
is_valid_nat_cidr_or_addr_for_family value family6 = is_valid_ipv6_cidr_or_addr value

-- an optional value that must pass a test
abbrev pub check_optional :
    {A : Type 0} → (A → Bool) → (A → NatError) → Option A → Outcome NatError (Unit {0})
check_optional p e none = ok tt
check_optional p e (some a) = reject_if (not (p a)) (e a)

abbrev nonzero : ℕ → Bool
nonzero n = not (n == 0)

abbrev check_port_end : Option ℕ → Option ℕ → Outcome NatError (Unit {0})
check_port_end port none = ok tt
check_port_end port (some port_end) = reject_if (port_end == 0) zero_port_end >> elim port [
  | none ↦ err end_needs_port
  | some p ↦ reject_if (ltb port_end p) (ports_reversed port_end p)
]

-- the ports of the translation of an SNAT or DNAT rule
abbrev check_translated_ports : NatProtocol → NatTranslation → Outcome NatError (Unit {0})
check_translated_ports protocol t =
    reject_if ((is_some t.port || is_some t.port_end) && is_any_nat protocol) port_needs_transport
    >> check_optional nonzero (λ p. zero_port) t.port
    >> check_port_end t.port t.port_end

unfoldable pub check_translated_address :
    AddressFamily → Option NatTranslation → Outcome NatError NatTranslation
unfolding is_valid_nat_addr_for_family
check_translated_address family none = err needs_translation
check_translated_address family (some t) = elim t.address [
  | none ↦ err needs_address
  | some addr ↦
      reject_if (not (is_valid_nat_addr_for_family addr family)) (invalid_translation addr) >> ok t
]

unfoldable pub check_translation : NatRule → NatRuleType → Outcome NatError (Unit {0})
unfolding is_valid_nat_addr_for_family
check_translation rule masquerade = reject_if (is_some rule.translation) no_translation
check_translation rule one_to_one =
    reject_if (not (is_some rule.source)) needs_source
    >> check_translated_address rule.address_family rule.translation
    >>= (λ t. reject_if (is_some t.port || is_some t.port_end) no_port_translation)
check_translation rule snat =
    check_translated_address rule.address_family rule.translation
    >>= check_translated_ports rule.protocol
check_translation rule dnat =
    check_translated_address rule.address_family rule.translation
    >>= check_translated_ports rule.protocol

unfoldable pub validate_nat_rule_with_ipv6 : NatRule → Bool → Outcome NatError (Unit {0})
unfolding is_valid_nat_cidr_or_addr_for_family is_valid_interface_name check_translation
validate_nat_rule_with_ipv6 rule ipv6_enabled =
    reject_if (is_family6 rule.address_family && not ipv6_enabled) ipv6_needs_mode
    >> check_optional (λ a. is_valid_nat_cidr_or_addr_for_family a rule.address_family)
        invalid_source rule.source
    >> check_optional (λ a. is_valid_nat_cidr_or_addr_for_family a rule.address_family)
        invalid_destination rule.destination
    >> check_optional is_valid_interface_name invalid_interface rule.interface
    >> reject_if
        ((is_some rule.source_port || is_some rule.destination_port) && is_any_nat rule.protocol)
        ports_need_transport
    >> check_optional nonzero (λ p. zero_source_port) rule.source_port
    >> check_optional nonzero (λ p. zero_destination_port) rule.destination_port
    >> check_translation rule rule.rule_type

-- the loops, with the names and the ids that they have seen
unfoldable pub check_interfaces : List Text → List Text → Outcome NatError (Unit {0})
unfolding is_valid_interface_name
check_interfaces seen [] = ok tt
check_interfaces seen (iface ∷ ifaces) =
    reject_if (not (is_valid_interface_name iface)) (invalid_interface iface)
    >> reject_if (any (text_eq iface) seen) (duplicate_interface iface)
    >> check_interfaces (iface ∷ seen) ifaces

abbrev pub name_rule : Text → Outcome NatError (Unit {0}) → Outcome NatError (Unit {0})
name_rule id (ok u) = ok u
name_rule id (err e) = err (in_rule id e)

unfoldable pub check_rules : Bool → List Text → List NatRule → Outcome NatError (Unit {0})
unfolding validate_nat_rule_with_ipv6
check_rules ipv6_enabled seen [] = ok tt
check_rules ipv6_enabled seen (rule ∷ rules) =
    reject_if (any (text_eq rule.id) seen) (duplicate_id rule.id)
    >> name_rule rule.id (validate_nat_rule_with_ipv6 rule ipv6_enabled)
    >> check_rules ipv6_enabled (rule.id ∷ seen) rules

unfoldable pub validate_nat_config_with_ipv6 : NatConfig → Bool → Outcome NatError (Unit {0})
validate_nat_config_with_ipv6 config ipv6_enabled =
    check_interfaces [] config.wan_interfaces >> check_rules ipv6_enabled [] config.rules
