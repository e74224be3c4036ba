-- ===== src/Firewall/Captive.antt =====
-- The parts of the ruleset for the captive portal: generate_captive_* of
-- dayshield-core/src/engine/nftables/mod.rs, as the pieces of text that are pushed.
use dayshield_core.Base.{
  Bool, true, false, not, ◌&&◌, Option, none, some, List, [], ◌∷◌, ◌++◌, map, filter, if◌then◌else◌,
  to_text, String, isnt_empty,
}
use dayshield_core.Base.Text.{Text, codes, text_eq}
use dayshield_core.Base.Text.Sorting.{sort}
use dayshield_core.Net.Parsing.{parse_ipv4, parse_ipv6}
use dayshield_core.Net.Printing.{show_ipv4, show_ipv6}
use dayshield_core.Net.Validation.{has_char}
use dayshield_core.CaptivePortal.{CaptivePortalConfig, CaptivePortalSession}
use dayshield_core.Firewall.Format.{join_parts}

unfoldable pub active_captive_portal : Option CaptivePortalConfig → Option CaptivePortalConfig
active_captive_portal none = none
active_captive_portal (some portal) =
    if portal.enabled && isnt_empty portal.interfaces then some portal else none

-- `Vec::dedup`, which keeps the first of equal neighbours
abbrev pub dedup : List Text → List Text
dedup [] = []
dedup (x ∷ []) = x ∷ []
dedup (x ∷ y ∷ ys) = let rest = dedup (y ∷ ys) in if text_eq x y then rest else x ∷ rest

-- the address of a session, printed, where it is of the family
unfoldable pub session_ip : Bool → Text → List Text
unfolding parse_ipv4 parse_ipv6 show_ipv4 show_ipv6
session_ip v6 client_ip = elim (parse_ipv4 client_ip) [
  | some octets ↦ if v6 then [] else show_ipv4 octets ∷ []
  | none ↦ elim (parse_ipv6 client_ip) [
    | some groups ↦ if v6 then show_ipv6 groups ∷ [] else []
    | none ↦ []
  ]
]

unfoldable pub session_ips : Bool → List CaptivePortalSession → List Text
unfolding session_ip
session_ips v6 [] = []
session_ips v6 (s ∷ sessions) = session_ip v6 s.client_ip ++ session_ips v6 sessions

unfoldable pub captive_session_ips : List CaptivePortalSession → Bool → List Text
unfolding session_ips
captive_session_ips sessions v6 = dedup (sort (session_ips v6 sessions))

abbrev same_bool : Bool → Bool → Bool
same_bool true b = b
same_bool false b = not b

unfoldable pub captive_destinations : CaptivePortalConfig → Bool → List Text
captive_destinations portal v6 =
    dedup (sort (filter (λ v. same_bool (has_char b':' v) v6) portal.walled_garden_ips))

abbrev quoted : Text → Text
quoted value = codes "\"" ++ value ++ codes "\""

unfoldable pub nft_string_set : List Text → Text
nft_string_set (v ∷ []) = quoted v
nft_string_set values = codes "{ " ++ join_parts (codes ", ") (map quoted values) ++ codes " }"

-- a set with its elements, where it has any
abbrev pub named_set : String → List Text → List Text → List Text
named_set header [] types = []
named_set header (v ∷ vs) types =
    (codes "    set " ++ codes header ++ codes " {\n") ∷ types
    ++ (codes "        elements = { " ++ join_parts (codes ", ") (v ∷ vs) ++ codes " }\n")
      ∷ codes "    }\n\n"
      ∷ []

abbrev v4_type : List Text
v4_type = codes "        type ipv4_addr\n" ∷ []

abbrev v6_type : List Text
v6_type = codes "        type ipv6_addr\n" ∷ []

abbrev interval : List Text
interval = codes "        flags interval\n" ∷ []

unfoldable pub generate_captive_filter_sets :
    CaptivePortalConfig → List CaptivePortalSession → Bool → List Text
unfolding captive_session_ips captive_destinations
generate_captive_filter_sets portal sessions ipv6_enabled =
    named_set "captive_portal_v4_clients" (captive_session_ips sessions false) v4_type
    ++ named_set "captive_portal_v4_walled_garden" (captive_destinations portal false)
        (v4_type ++ interval)
    ++ (if ipv6_enabled
        then named_set "captive_portal_v6_clients" (captive_session_ips sessions true) v6_type
          ++ named_set "captive_portal_v6_walled_garden" (captive_destinations portal true)
              (v6_type ++ interval)
        else [])
    ++ named_set "captive_portal_bypass_macs" portal.bypass_macs
        (codes "        type ether_addr\n" ∷ [])

unfoldable pub generate_captive_input_rules : CaptivePortalConfig → List Text
unfolding nft_string_set to_text
generate_captive_input_rules portal =
    let interfaces = nft_string_set portal.interfaces in
    codes "        # Captive portal local services\n"
    ∷ (codes "        iifname "
        ++ interfaces
        ++ codes " tcp dport "
        ++ to_text portal.listen_port
        ++ codes " accept\n")
    ∷ (codes "        iifname " ++ interfaces ++ codes " udp dport { 53, 67, 68 } accept\n")
    ∷ (codes "        iifname " ++ interfaces ++ codes " tcp dport 53 accept\n")
    ∷ []

-- a line for the portal's interfaces, where there is something that it lets through
abbrev gate_line : Text → String → List Text → List Text
gate_line interfaces what [] = []
gate_line interfaces what (v ∷ vs) =
    (codes "        iifname " ++ interfaces ++ codes what ++ codes " accept\n") ∷ []

unfoldable pub generate_captive_forward_rules :
    CaptivePortalConfig → List CaptivePortalSession → Bool → List Text
unfolding nft_string_set captive_session_ips captive_destinations
generate_captive_forward_rules portal sessions ipv6_enabled =
    let interfaces = nft_string_set portal.interfaces in
    codes "        # Captive portal client gate\n"
      ∷ gate_line interfaces " ether saddr @captive_portal_bypass_macs" portal.bypass_macs
    ++ gate_line interfaces " ip saddr @captive_portal_v4_clients"
        (captive_session_ips sessions false)
    ++ gate_line interfaces " ip daddr @captive_portal_v4_walled_garden"
        (captive_destinations portal false)
    ++ (if ipv6_enabled
        then gate_line interfaces " ip6 saddr @captive_portal_v6_clients"
            (captive_session_ips sessions true)
          ++ gate_line interfaces " ip6 daddr @captive_portal_v6_walled_garden"
              (captive_destinations portal true)
        else [])
    ++ (codes "        iifname " ++ interfaces ++ codes " drop\n") ∷ []

abbrev return_line : Text → Text → List Text → List Text
return_line interfaces key [] = []
return_line interfaces key (v ∷ vs) =
    (codes "        iifname "
      ++ interfaces
      ++ key
      ++ codes " { "
      ++ join_parts (codes ", ") (v ∷ vs)
      ++ codes " } return\n")
    ∷ []

unfoldable pub generate_captive_nat_table_for_family :
    CaptivePortalConfig → List CaptivePortalSession → Bool → List Text
unfolding nft_string_set captive_session_ips captive_destinations to_text
generate_captive_nat_table_for_family portal sessions v6 =
    let interfaces = nft_string_set portal.interfaces in
    let family = (if v6 then codes "ip6" else codes "ip") in
    (codes "\ntable " ++ family ++ codes " captive_portal {\n")
      ∷ codes "    chain prerouting {\n"
      ∷ codes "        type nat hook prerouting priority -110; policy accept;\n"
      ∷ return_line interfaces (codes " ether saddr") portal.bypass_macs
    ++ return_line interfaces (codes " " ++ family ++ codes " saddr")
        (captive_session_ips sessions v6)
    ++ return_line interfaces (codes " " ++ family ++ codes " daddr")
        (captive_destinations portal v6)
    ++ (codes "        iifname "
        ++ interfaces
        ++ codes " tcp dport 80 redirect to :"
        ++ to_text portal.listen_port
        ++ codes "\n")
      ∷ codes "    }\n"
      ∷ codes "}\n"
      ∷ []

unfoldable pub generate_captive_nat_tables :
    CaptivePortalConfig → List CaptivePortalSession → Bool → List Text
unfolding generate_captive_nat_table_for_family
generate_captive_nat_tables portal sessions ipv6_enabled =
    if not portal.redirect_http
    then []
    else generate_captive_nat_table_for_family portal sessions false
      ++ (if ipv6_enabled then generate_captive_nat_table_for_family portal sessions true else [])
