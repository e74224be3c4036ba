-- ===== src/Firewall/Validity.antt =====
-- What the checks of the addresses, the family and the ports accept, of validate_firewall_rule in
-- dayshield-core/src/config/models.rs.
pub mod Rules
use dayshield_core.Base.{
  ℕ, ◌<◌, ◌≤◌, ℤ, is_negative, Bool, true, false, not, ◌&&◌, ◌||◌, Option, none, some, String, List,
  [], ◌∷◌, ◌≡◌, ◌↔◌, ◌⊎◌, inl, inr, refl, ltb, leb, ◌==◌, within, if◌then◌else◌, all, All, Outcome,
  ok, err, ◌>>◌, ◌>>=◌, reject_if, then_iff, reject_if_iff, both_iff, arith, Bool-cases,
  Option-cases,
}
use dayshield_core.Base.Text.{
  Text, codes, trim, strip_prefix, is_whitespace, is_ascii_hexdigit, is_ascii_digit,
}
use dayshield_core.Base.Text.Splits.{trim-all}
use dayshield_core.Net.Validation.{
  is_valid_ipv6_addr, is_valid_ipv6_cidr, is_valid_ipv6_cidr_or_addr, is_valid_cidr_or_addr,
  value_uses_ipv6, ensure_ipv6_allowed, Ipv6Disabled, is_valid_port, is_valid_interface_name,
  is_some,
}
use dayshield_core.Net.Characters.{is_address_char}
use dayshield_core.Net.Characters.Cidr.{is_cidr_char, is_valid_cidr_or_addr_chars}
use dayshield_core.Firewall.{
  FirewallRule, FirewallAddressFamily, FirewallStateLimits, FirewallSchedule, is_jump, is_icmp,
  is_icmpv6, has_transport, is_ipv4_only, is_ipv6_only,
}
use dayshield_core.Firewall.Validation.{
  Calendar, FirewallError, ipv6_disabled, ipv6_value_on_ipv4, ipv4_value_on_ipv6,
  firewall_value_is_ipv6, check_address, check_family, check_ports, check_port, check_interface,
  check_limit, check_limits, check_schedule, map_error, validate_firewall_schedule,
  validate_firewall_rule,
}

-- such a character is between '+' and 'f', and no space is
in_range : (c : ℕ) → is_cidr_char c ≡ true → within b'+' b'f' c ≡ true
unfolding is_cidr_char is_address_char is_ascii_hexdigit is_ascii_digit
in_range c h = ground arith

range_not_space : (c : ℕ) → within b'+' b'f' c ≡ true → not (is_whitespace c) ≡ true
unfolding is_whitespace
range_not_space c h = ground arith

not_space : (s : Text) → all is_cidr_char s ≡ true → all (λ c. not (is_whitespace c)) s ≡ true
not_space [] h = refl
not_space (c ∷ s) h = ground (arith, not_space s, range_not_space c, in_range c)

no_bracket : (s : Text) → all is_cidr_char s ≡ true → strip_prefix (codes "[") s ≡ none
unfolding is_cidr_char is_address_char is_ascii_hexdigit is_ascii_digit strip_prefix
no_bracket [] h = refl
no_bracket (c ∷ s) h = ground arith

if_self : (b : Bool) → (if b then true else false) ≡ b
if_self true = refl
if_self false = refl

-- the two tests for IPv6 agree on what is an address or a CIDR at all
value_uses_ipv6-valid :
    (a : Text) → is_valid_cidr_or_addr a ≡ true → value_uses_ipv6 a ≡ firewall_value_is_ipv6 a
unfolding value_uses_ipv6 firewall_value_is_ipv6 is_valid_ipv6_cidr_or_addr
value_uses_ipv6-valid a h =
    let chars = is_valid_cidr_or_addr_chars a h in
    rw (trim-all a (not_space a chars), no_bracket a chars) (if_self (firewall_value_is_ipv6 a))

-- an address or a CIDR that fits the family and the IPv6 mode, or none
abbrev pub AddressFits : FirewallAddressFamily → Bool → Option Text → Type 0
AddressFits family ipv6_enabled none = Unit
AddressFits family ipv6_enabled (some a) =
    (is_valid_cidr_or_addr a ≡ true)
    × (((firewall_value_is_ipv6 a ≡ true) × (is_ipv4_only family ≡ false) × (ipv6_enabled ≡ true))
        ⊎ ((firewall_value_is_ipv6 a ≡ false) × (is_ipv6_only family ≡ false)))

-- the tests that follow the one of the form, on their Boolean values
checks_iff :
    (e : Ipv6Disabled) (label : String) (enabled uses4 uses6 is6 : Bool)
    → ((map_error ipv6_disabled (if not enabled && is6 then err e else ok tt)
          >> reject_if (is6 && uses4) (ipv6_value_on_ipv4 label)
          >> reject_if (not is6 && uses6) (ipv4_value_on_ipv6 label))
        ≡ ok tt)
      ↔ (((is6 ≡ true) × (uses4 ≡ false) × (enabled ≡ true)) ⊎ ((is6 ≡ false) × (uses6 ≡ false)))
checks_iff e label true true uses6 true = ground arith
checks_iff e label true false uses6 true = ground arith
checks_iff e label false uses4 uses6 true = ground arith
checks_iff e label enabled uses4 true false = ground arith
checks_iff e label enabled uses4 false false = ground arith

pub check_address_iff :
    (family : FirewallAddressFamily) (ipv6_enabled : Bool) (label : String) (o : Option Text)
    → (check_address family ipv6_enabled label o ≡ ok tt) ↔ AddressFits family ipv6_enabled o
unfolding check_address ensure_ipv6_allowed
check_address_iff family ipv6_enabled label none = (λ h. tt, λ h. refl)
check_address_iff family ipv6_enabled label (some a) = elim (Bool-cases (is_valid_cidr_or_addr a)) [
  | inr e ↦ rw e (ground arith)
  | inl e ↦
      let iff =
        checks_iff (record { context = label; value = a }) label ipv6_enabled (is_ipv4_only family)
          (is_ipv6_only family) (firewall_value_is_ipv6 a) in
      rw (e, value_uses_ipv6-valid a e) (λ h. (refl, iff.0 h), λ h. iff.1 h.1)
]

-- a family and a protocol that fit the IPv6 mode and each other
pub record FamilyFits (rule : FirewallRule) (ipv6_enabled : Bool) : Type 0 where
  pub natural_priority : is_negative rule.priority ≡ false
  pub no_jump : is_jump rule.action ≡ false
  pub ipv6_mode :
      (is_ipv6_only rule.ip_family || is_icmpv6 rule.protocol ≡ true) → ipv6_enabled ≡ true
  pub icmpv6_family : is_icmpv6 rule.protocol ≡ true → is_ipv4_only rule.ip_family ≡ false
  pub icmp_family : is_icmp rule.protocol ≡ true → is_ipv6_only rule.ip_family ≡ false

and_false : (a b : Bool) → a ≡ true → a && b ≡ false → b ≡ false
and_false true b u h = h
and_false false b u h = absurd (ground arith)

and_not : (a b : Bool) → a ≡ true → a && not b ≡ false → b ≡ true
and_not a b u h = ground arith

false_and : (a b : Bool) → (a ≡ true → b ≡ true) → a && not b ≡ false
false_and true b f = ground (arith, f refl)
false_and false b f = refl

implies_and : (a b : Bool) → (a ≡ true → b ≡ false) → a && b ≡ false
implies_and true b f = f refl
implies_and false b f = refl

mode_fits : (a b m : Bool) → a || b ≡ true → a && not m ≡ false → b && not m ≡ false → m ≡ true
mode_fits a b m u h k = ground arith

or_left : (a b : Bool) → a ≡ true → a || b ≡ true
or_left a b u = ground arith

or_right : (a b : Bool) → b ≡ true → a || b ≡ true
or_right a b u = ground arith

pub check_family_iff :
    (rule : FirewallRule) (ipv6_enabled : Bool)
    → (check_family rule ipv6_enabled ≡ ok tt) ↔ FamilyFits rule ipv6_enabled
unfolding check_family
check_family_iff rule ipv6_enabled =
    let iff =
      both_iff _ _
        (both_iff _ _
          (both_iff _ _
            (both_iff _ _
              (both_iff _ _ (reject_if_iff (is_negative rule.priority) _)
                (reject_if_iff (is_jump rule.action) _))
              (reject_if_iff (is_ipv6_only rule.ip_family && not ipv6_enabled) _))
            (reject_if_iff (is_icmpv6 rule.protocol && not ipv6_enabled) _))
          (reject_if_iff (is_icmpv6 rule.protocol && is_ipv4_only rule.ip_family) _))
        (reject_if_iff (is_icmp rule.protocol && is_ipv6_only rule.ip_family) _) in
    (
      λ h.
          let (((((p, j), a), b), c), d) = iff.0 h in
          record {
            natural_priority = p;
            no_jump = j;
            ipv6_mode = λ u. mode_fits _ _ _ u a b;
            icmpv6_family = λ u. and_false _ _ u c;
            icmp_family = λ u. and_false _ _ u d;
          },
      λ fits. iff.1 (
        (
          (
            (
              (fits.natural_priority, fits.no_jump),
              false_and (is_ipv6_only rule.ip_family) _ (λ u. fits.ipv6_mode (or_left _ _ u)),
            ),
            false_and (is_icmpv6 rule.protocol) _ (λ u. fits.ipv6_mode (or_right _ _ u)),
          ),
          implies_and _ _ fits.icmpv6_family,
        ),
        implies_and _ _ fits.icmp_family,
      ),
    )

-- ports only with TCP or UDP, and none of them 0
pub record PortsFit (rule : FirewallRule) : Type 0 where
  pub transport :
      is_some rule.source_port || is_some rule.destination_port ≡ true
      → has_transport rule.protocol ≡ true
  pub source_positive : (p : ℕ) → rule.source_port ≡ some p → 0 < p
  pub destination_positive : (p : ℕ) → rule.destination_port ≡ some p → 0 < p

check_port_iff :
    (label : String) (o : Option ℕ) → (check_port label o ≡ ok tt) ↔ ((p : ℕ) → o ≡ some p → 0 < p)
unfolding is_valid_port check_port
check_port_iff label none = (λ h p e. absurd (ground arith), λ h. refl)
check_port_iff label (some q) = (λ h p e. ground arith, λ h. ground (arith, h q refl))

pub check_ports_iff : (rule : FirewallRule) → (check_ports rule ≡ ok tt) ↔ PortsFit rule
unfolding check_ports
check_ports_iff rule =
    let iff =
      both_iff _ _
        (both_iff _ _
          (reject_if_iff
            ((is_some rule.source_port || is_some rule.destination_port)
              && not (has_transport rule.protocol))
            _)
          (check_port_iff "source_port" rule.source_port))
        (check_port_iff "destination_port" rule.destination_port) in
    (
      λ h.
          let ((t, s), d) = iff.0 h in
          record {
            transport = λ u. and_not _ _ u t;
            source_positive = s;
            destination_positive = d;
          },
      λ fits.
          iff.1 ((false_and _ _ fits.transport, fits.source_positive), fits.destination_positive),
    )
