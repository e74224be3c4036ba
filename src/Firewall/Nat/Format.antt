-- ===== src/Firewall/Nat/Format.antt =====
-- The text of one NAT rule: the format_nat_* functions of
-- dayshield-core/src/engine/nftables/mod.rs.
use dayshield_core.Base.{ℕ, Option, none, some, List, [], ◌∷◌, ◌++◌, if◌then◌else◌, to_text}
use dayshield_core.Base.Text.{Text, codes}
use dayshield_core.Net.Validation.{has_char}
use dayshield_core.Firewall.Format.{join_parts, part}
use dayshield_core.Firewall.Nat.{
  NatRule, masquerade, snat, dnat, one_to_one, NatProtocol, nat_tcp, nat_udp, tcp_udp, any_nat,
  AddressFamily, family4, family6, NatTranslation,
}

abbrev pub nft_ip_keyword : AddressFamily → Text
nft_ip_keyword family4 = codes "ip"
nft_ip_keyword family6 = codes "ip6"

abbrev pub nft_table_family : AddressFamily → Text
nft_table_family family4 = codes "ip"
nft_table_family family6 = codes "ip6"

unfoldable pub matched_ports : Text → Option ℕ → Option ℕ → List Text
unfolding to_text
matched_ports key source_port destination_port =
    part source_port (λ p. key ++ codes " sport " ++ to_text p)
    ++ part destination_port (λ p. key ++ codes " dport " ++ to_text p)

abbrev or_transport : Text → List Text → List Text
or_transport name [] = (codes "meta l4proto " ++ name) ∷ []
or_transport name (p ∷ ps) = p ∷ ps

-- `push_nat_protocol_and_ports`: the parts that it adds
unfoldable pub nat_protocol_and_ports : NatProtocol → Option ℕ → Option ℕ → List Text
unfolding to_text
nat_protocol_and_ports nat_tcp s d = or_transport (codes "tcp") (matched_ports (codes "tcp") s d)
nat_protocol_and_ports nat_udp s d = or_transport (codes "udp") (matched_ports (codes "udp") s d)
nat_protocol_and_ports tcp_udp s d =
    codes "meta l4proto { tcp, udp }" ∷ matched_ports (codes "th") s d
nat_protocol_and_ports any_nat s d = []

unfoldable pub format_nat_target : Text → Text → Option ℕ → Option ℕ → Text
unfolding to_text
format_nat_target action addr port port_end =
    let addr_for_port = if has_char b':' addr then codes "[" ++ addr ++ codes "]" else addr in
    elim port [
      | none ↦ action ++ codes " to " ++ addr
      | some p ↦ elim port_end [
        | none ↦ action ++ codes " to " ++ addr_for_port ++ codes ":" ++ to_text p
        | some pe ↦
            action
            ++ codes " to "
            ++ addr_for_port
            ++ codes ":"
            ++ to_text p
            ++ codes "-"
            ++ to_text pe
      ]
    ]

abbrev pub saddr : NatRule → List Text
saddr nat = part nat.source (λ a. nft_ip_keyword nat.address_family ++ codes " saddr " ++ a)

abbrev pub daddr : NatRule → List Text
daddr nat = part nat.destination (λ a. nft_ip_keyword nat.address_family ++ codes " daddr " ++ a)

abbrev pub iifname : NatRule → List Text
iifname nat = part nat.interface (λ i. codes "iifname \"" ++ i ++ codes "\"")

abbrev pub oifname : NatRule → List Text
oifname nat = part nat.interface (λ i. codes "oifname \"" ++ i ++ codes "\"")

unfoldable pub ports : NatRule → List Text
unfolding nat_protocol_and_ports
ports nat = nat_protocol_and_ports nat.protocol nat.source_port nat.destination_port

-- the parts, then what the address of the translation makes, if it has one
abbrev pub with_address :
    Option NatTranslation → List Text → (Text → NatTranslation → Text) → Option Text
with_address none parts f = none
with_address (some t) parts f = elim t.address [
  | none ↦ none
  | some addr ↦ some (join_parts (codes " ") (parts ++ f addr t ∷ []))
]

unfoldable pub target : Text → Text → NatTranslation → Text
unfolding format_nat_target
target action addr t = format_nat_target action addr t.port t.port_end

abbrev pub or_port : Option ℕ → Option ℕ → Option ℕ
or_port none d = d
or_port (some p) d = some p

unfoldable pub format_dnat_forward_accept : NatRule → Option Text
unfolding nat_protocol_and_ports
format_dnat_forward_accept nat = elim nat.translation [
  | none ↦ none
  | some t ↦ elim t.address [
    | none ↦ none
    | some addr ↦ some (
        join_parts (codes " ") (
          iifname nat
          ++ (nft_ip_keyword nat.address_family ++ codes " daddr " ++ addr)
            ∷ nat_protocol_and_ports nat.protocol none (or_port t.port nat.destination_port)
          ++ codes "accept" ∷ []))
  ]
]

unfoldable pub format_nat_prerouting : NatRule → Option Text
unfolding nat_protocol_and_ports format_nat_target
format_nat_prerouting nat = elim nat.rule_type [
  | dnat ↦
      with_address nat.translation (iifname nat ++ saddr nat ++ daddr nat ++ ports nat)
        (target (codes "dnat"))
  | _ ↦ none
]

unfoldable pub format_nat_postrouting : NatRule → Option Text
unfolding nat_protocol_and_ports format_nat_target
format_nat_postrouting nat = elim nat.rule_type [
  | masquerade ↦ some (
      join_parts (codes " ")
        (saddr nat ++ daddr nat ++ oifname nat ++ ports nat ++ codes "masquerade" ∷ []))
  | snat ↦
      with_address nat.translation (saddr nat ++ daddr nat ++ oifname nat ++ ports nat)
        (target (codes "snat"))
  | one_to_one ↦
      with_address nat.translation (saddr nat ++ oifname nat ++ daddr nat ++ ports nat)
        (λ addr t. format_nat_target (codes "snat") addr none none)
  | dnat ↦ none
]

unfoldable pub format_nat_output : NatRule → Option Text
unfolding nat_protocol_and_ports format_nat_target
format_nat_output nat = elim nat.rule_type [
  | dnat ↦
      with_address nat.translation (saddr nat ++ daddr nat ++ ports nat) (target (codes "dnat"))
  | _ ↦ none
]
