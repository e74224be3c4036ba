-- ===== src/Firewall/Ruleset.antt =====
-- The whole ruleset: generate_ruleset_with_captive_and_interfaces of
-- dayshield-core/src/engine/nftables/mod.rs, as the pieces of text that are pushed. URL tables are
-- resolved by the caller.
pub mod Chains
pub mod DefaultDeny
pub mod AntiLockout
pub mod Injection
pub mod Statements
use dayshield_core.Base.{
  ℕ, Bool, true, false, not, ◌&&◌, ◌||◌, Option, none, some, List, [], ◌∷◌, ◌++◌, map, filter, any,
  if◌then◌else◌, String, to_text, isnt_empty,
}
use dayshield_core.Base.Text.{Text, codes, is_empty}
use dayshield_core.Net.Validation.{has_char}
use dayshield_core.Interfaces.{Interface, SystemSettings, DotConfig}
use dayshield_core.CaptivePortal.{CaptivePortalConfig, CaptivePortalSession}
use dayshield_core.Firewall.{
  FirewallRule, FirewallSettings, LogPosition, default_settings, is_drop_policy, is_before,
}
use dayshield_core.Firewall.System.{RuleKey, concat, effective_management_ports}
use dayshield_core.Firewall.Format.{
  FilterChain, input_chain, forward_chain, output_chain, chain_policy_str, counter_name,
  rule_targets_chain, format_rule, join_parts, default_block_log_rate_per_second,
  default_block_log_burst_packets,
}
use dayshield_core.Firewall.Captive.{
  active_captive_portal, generate_captive_filter_sets, generate_captive_input_rules,
  generate_captive_forward_rules, generate_captive_nat_tables,
}
use dayshield_core.Firewall.Nat.{NatConfig, NatRule, is_family6}
use dayshield_core.Firewall.Nat.Format.{format_dnat_forward_accept}
use dayshield_core.Firewall.Nat.Table.{is_dnat, is_auto, formatted, generate_nat_table}

pub data AliasType : Type 0 where
  host network port url_table : AliasType

pub record FirewallAlias : Type 0 where
  pub name : Text
  pub description : Option Text
  pub alias_type : AliasType
  pub values : List Text
  pub ttl : Option ℕ
  pub enabled : Bool

abbrev pub is_port : AliasType → Bool
is_port port = true
is_port t = false

abbrev first_has_colon : List Text → Bool
first_has_colon [] = false
first_has_colon (v ∷ vs) = has_char b':' v

abbrev address_type : List Text → Text
address_type values =
    if first_has_colon values
    then codes "        type ipv6_addr\n"
    else codes "        type ipv4_addr\n"

abbrev set_header : AliasType → List Text → List Text
set_header host values = address_type values ∷ []
set_header network values = address_type values ∷ codes "        flags interval\n" ∷ []
set_header url_table values = address_type values ∷ codes "        flags interval\n" ∷ []
set_header port values = codes "        type inet_service\n" ∷ []

-- the values of an alias: those of a URL table are the resolved ones
unfoldable pub alias_values : (Text → List Text) → Bool → FirewallAlias → List Text
alias_values resolved ipv6_enabled alias =
    let values : List Text = elim alias.alias_type [
      | url_table ↦ resolved alias.name
      | _ ↦ alias.values
    ] in
    if not ipv6_enabled && not (is_port alias.alias_type)
    then filter (λ v. not (has_char b':' v)) values
    else values

unfoldable pub alias_set_body : (Text → List Text) → Bool → FirewallAlias → Option (List Text)
unfolding alias_values
alias_set_body resolved ipv6_enabled alias =
    let values = alias_values resolved ipv6_enabled alias in
    if not (isnt_empty values)
    then none
    else some (
        set_header alias.alias_type values
        ++ (codes "        elements = { " ++ join_parts (codes ", ") values ++ codes " }\n") ∷ [])

unfoldable pub alias_set : (Text → List Text) → Bool → FirewallAlias → List Text
unfolding alias_set_body
alias_set resolved ipv6_enabled alias = elim (alias_set_body resolved ipv6_enabled alias) [
  | none ↦ []
  | some body ↦ (codes "    set " ++ alias.name ++ codes " {\n") ∷ body ++ codes "    }\n\n" ∷ []
]

unfoldable pub counter_lines : List FirewallRule → List Text
unfolding counter_name
counter_lines rules =
    map (λ r. codes "    counter " ++ counter_name r.id ++ codes " {}\n") rules
    ++ (if isnt_empty rules then codes "\n" ∷ [] else [])

-- the part for the portal, where it is active
unfoldable pub for_portal :
    Option CaptivePortalConfig → (CaptivePortalConfig → List Text) → List Text
unfolding active_captive_portal
for_portal portal f = elim (active_captive_portal portal) [ none ↦ [] | some p ↦ f p ]

abbrev pub chain_head : String → Text → Bool → List Text
chain_head name policy drop_invalid =
    (codes "    chain " ++ codes name ++ codes " {\n")
    ∷ (codes "        type filter hook "
        ++ codes name
        ++ codes " priority 0; policy "
        ++ policy
        ++ codes ";\n")
    ∷ codes "        ct state established,related accept\n"
    ∷ (if drop_invalid then codes "        ct state invalid drop\n" ∷ [] else [])

-- the lines of the rules of a chain
unfoldable pub chain_rules : List FirewallRule → FilterChain → LogPosition → List Text
unfolding rule_targets_chain format_rule
chain_rules rules chain log_position =
    map (λ r. codes "        " ++ format_rule r chain log_position ++ codes "\n")
      (filter (λ r. rule_targets_chain r chain) rules)

unfoldable pub default_drop : Bool → LogPosition → String → List Text
unfolding to_text
default_drop drops log_position label =
    if drops
    then (if is_before log_position
        then (codes "        limit rate "
            ++ to_text default_block_log_rate_per_second
            ++ codes "/second burst "
            ++ to_text default_block_log_burst_packets
            ++ codes " packets log prefix \"DEFAULT-BLOCK "
            ++ codes label
            ++ codes " \"\n")
          ∷ []
        else [])
      ++ codes "        drop\n" ∷ []
    else []

-- the line of the management ports for one kind of sources
abbrev management_line : FirewallSettings → List Text → Text → Text
management_line settings source_part ports_part =
    let base : List Text = elim settings.management_interface [
      | none ↦ []
      | some iface ↦ if is_empty iface then [] else (codes "iifname \"" ++ iface ++ codes "\"") ∷ []
    ] in
    codes "        "
    ++ join_parts (codes " ") (base ++ source_part ++ ports_part ∷ codes "accept" ∷ [])
    ++ codes "\n"

abbrev sources_part : String → List Text → List Text
sources_part key sources =
    (codes key ++ codes " saddr { " ++ join_parts (codes ", ") sources ++ codes " }") ∷ []

unfoldable pub management_lines : FirewallSettings → Option SystemSettings → Bool → List Text
unfolding effective_management_ports to_text
management_lines settings system ipv6_enabled =
    let ports = effective_management_ports settings system in
    let ports_part =
      codes "tcp dport { " ++ join_parts (codes ", ") (map to_text ports) ++ codes " }" in
    let v4_sources = filter (λ s. not (has_char b':' s)) settings.management_allowed_sources in
    let v6_sources = filter (has_char b':') settings.management_allowed_sources in
    if not (settings.management_anti_lockout && isnt_empty ports)
    then []
    else (if not (isnt_empty settings.management_allowed_sources)
        then management_line settings [] ports_part ∷ []
        else (if isnt_empty v4_sources
            then management_line settings (sources_part "ip" v4_sources) ports_part ∷ []
            else [])
          ++ (if ipv6_enabled && isnt_empty v6_sources
              then management_line settings (sources_part "ip6" v6_sources) ports_part ∷ []
              else []))
