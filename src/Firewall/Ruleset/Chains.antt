-- ===== src/Firewall/Ruleset/Chains.antt =====
-- The chains of the filter table and the whole text: the second part of
-- generate_ruleset_with_captive_and_interfaces of dayshield-core/src/engine/nftables/mod.rs, and
-- the shorter generate_ruleset functions.
use dayshield_core.Base.{
  ℕ, Bool, true, false, ◌&&◌, ◌||◌, Option, none, some, List, [], ◌∷◌, ◌++◌, map, filter,
  if◌then◌else◌, to_text,
}
use dayshield_core.Base.Text.{Text, codes}
use dayshield_core.Interfaces.{Interface, SystemSettings, DotConfig}
use dayshield_core.CaptivePortal.{CaptivePortalConfig, CaptivePortalSession}
use dayshield_core.Firewall.{
  FirewallRule, FirewallSettings, LogPosition, default_settings, is_drop_policy,
}
use dayshield_core.Firewall.Validation.{Calendar}
use dayshield_core.Firewall.Schedule.{Now}
use dayshield_core.Firewall.System.{RuleKey, concat}
use dayshield_core.Firewall.System.Rules.{system_firewall_rules}
use dayshield_core.Firewall.Selection.{emitted_rules}
use dayshield_core.Firewall.Format.{input_chain, forward_chain, output_chain, chain_policy_str}
use dayshield_core.Firewall.Captive.{
  generate_captive_filter_sets, generate_captive_input_rules, generate_captive_forward_rules,
  generate_captive_nat_tables,
}
use dayshield_core.Firewall.Nat.{NatConfig, is_family6}
use dayshield_core.Firewall.Nat.Format.{format_dnat_forward_accept}
use dayshield_core.Firewall.Nat.Table.{is_dnat, is_auto, formatted, generate_nat_table}
use dayshield_core.Firewall.Ruleset.{
  FirewallAlias, alias_set, counter_lines, for_portal, chain_head, chain_rules, default_drop,
  management_lines,
}

-- what the ruleset is generated from, with the ports of the DNS service
pub record RulesetInput : Type 0 where
  pub rules : List FirewallRule
  pub nat_config : Option NatConfig
  pub aliases : List FirewallAlias
  pub firewall_settings : Option FirewallSettings
  pub system_settings : Option SystemSettings
  pub resolved_url_tables : Text → List Text
  pub ipv6_enabled : Bool
  pub captive_portal : Option CaptivePortalConfig
  pub captive_sessions : List CaptivePortalSession
  pub interfaces : List Interface
  pub dns_port : Option ℕ
  pub dot_config : Option DotConfig

abbrev pub settings_of : Option FirewallSettings → FirewallSettings
settings_of none = default_settings
settings_of (some s) = s

unfoldable pub syn_line : FirewallSettings → List Text
unfolding to_text
syn_line settings =
    if settings.syn_flood_protection
    then (codes "        tcp flags syn ct state new limit rate over "
        ++ to_text settings.syn_flood_rate
        ++ codes "/second burst "
        ++ to_text settings.syn_flood_burst
        ++ codes " packets drop\n")
      ∷ []
    else []

abbrev pub icmp_lines : Bool → List Text
icmp_lines ipv6_enabled =
    codes
      "        icmp type { echo-request, destination-unreachable, time-exceeded } limit rate 20/second accept\n"
    ∷ (if ipv6_enabled
        then codes
            "        icmpv6 type { echo-request, destination-unreachable, time-exceeded, nd-neighbor-solicit, nd-neighbor-advert, mld-listener-query } accept\n"
          ∷ []
        else [])

-- the input chain before and from its rules on
unfoldable pub input_head : RulesetInput → FirewallSettings → List Text
unfolding management_lines generate_captive_input_rules
input_head i settings =
    chain_head "input" (chain_policy_str settings.input_policy) settings.drop_invalid_state
    ++ codes "        iif lo accept\n" ∷ syn_line settings
    ++ management_lines settings i.system_settings i.ipv6_enabled
    ++ icmp_lines i.ipv6_enabled
    ++ for_portal i.captive_portal generate_captive_input_rules

unfoldable pub input_lines : RulesetInput → FirewallSettings → List FirewallRule → List Text
unfolding input_head chain_rules
input_lines i settings sorted =
    input_head i settings
    ++ chain_rules sorted input_chain settings.log_position
    ++ default_drop (is_drop_policy settings.input_policy) settings.log_position "INPUT"
    ++ codes "    }\n\n" ∷ []

-- the companion rules of the port forwards
unfoldable pub dnat_lines : Bool → Option NatConfig → List Text
unfolding format_dnat_forward_accept
dnat_lines ipv6_enabled none = []
dnat_lines ipv6_enabled (some nat) = concat (
    map (λ r. formatted (format_dnat_forward_accept r))
      (filter
        (λ r.
          r.enabled
          && r.auto_firewall_rule
          && is_dnat r
          && (ipv6_enabled || (if is_family6 r.address_family then false else true)))
        nat.rules))

unfoldable pub append_automatic_outbound_forward_rules : Option NatConfig → List Text
append_automatic_outbound_forward_rules none = []
append_automatic_outbound_forward_rules (some nat) =
    if is_auto nat.outbound_mode
    then map (λ iface. codes "        oifname \"" ++ iface ++ codes "\" accept\n")
        nat.wan_interfaces
    else []

unfoldable pub forward_lines : RulesetInput → FirewallSettings → List FirewallRule → List Text
unfolding generate_captive_forward_rules chain_rules append_automatic_outbound_forward_rules
forward_lines i settings sorted =
    chain_head "forward" (chain_policy_str settings.forward_policy) settings.drop_invalid_state
    ++ for_portal i.captive_portal
        (λ p. generate_captive_forward_rules p i.captive_sessions i.ipv6_enabled)
    ++ dnat_lines i.ipv6_enabled i.nat_config
    ++ chain_rules sorted forward_chain settings.log_position
    ++ append_automatic_outbound_forward_rules i.nat_config
    ++ default_drop (is_drop_policy settings.forward_policy) settings.log_position "FORWARD"
    ++ codes "    }\n\n" ∷ []

unfoldable pub output_lines : FirewallSettings → List FirewallRule → List Text
unfolding chain_rules
output_lines settings sorted =
    chain_head "output" (chain_policy_str settings.output_policy) settings.drop_invalid_state
    ++ chain_rules sorted output_chain settings.log_position
    ++ codes "    }\n" ∷ []

unfoldable pub nat_lines : Option NatConfig → LogPosition → Bool → List Text
unfolding generate_nat_table
nat_lines none log_position ipv6_enabled = []
nat_lines (some nat) log_position ipv6_enabled = generate_nat_table nat log_position ipv6_enabled

module _ (calendar : Calendar) (now : Now) (rule_id : RuleKey → Text) where
  -- the rules of the system and of the user that are emitted
  unfoldable pub sorted_rules : RulesetInput → List FirewallRule
  unfolding emitted_rules system_firewall_rules
  sorted_rules i =
      emitted_rules calendar now i.ipv6_enabled
        (system_firewall_rules rule_id i.interfaces (settings_of i.firewall_settings)
          i.system_settings i.dns_port i.dot_config i.ipv6_enabled)
        i.rules

  unfoldable pub generate_ruleset_with_captive_and_interfaces : RulesetInput → Text
  unfolding sorted_rules input_lines forward_lines output_lines generate_captive_filter_sets
      generate_captive_nat_tables
  generate_ruleset_with_captive_and_interfaces i =
      let settings = settings_of i.firewall_settings in
      let sorted = sorted_rules i in
      concat (
        codes "flush ruleset\n\n" ∷ codes "table inet filter {\n" ∷ counter_lines sorted
        ++ concat (
            map (alias_set i.resolved_url_tables i.ipv6_enabled)
              (filter (λ a. a.enabled) i.aliases))
        ++ for_portal i.captive_portal
            (λ p. generate_captive_filter_sets p i.captive_sessions i.ipv6_enabled)
        ++ input_lines i settings sorted
        ++ forward_lines i settings sorted
        ++ output_lines settings sorted
        ++ codes "}\n" ∷ nat_lines i.nat_config settings.log_position i.ipv6_enabled
        ++ for_portal i.captive_portal
            (λ p. generate_captive_nat_tables p i.captive_sessions i.ipv6_enabled))

  unfoldable pub generate_ruleset_with_ipv6_and_system_settings :
      List FirewallRule
      → Option NatConfig
      → List FirewallAlias
      → Option FirewallSettings
      → Option SystemSettings
      → (Text → List Text)
      → Bool
      → Text
  unfolding generate_ruleset_with_captive_and_interfaces
  generate_ruleset_with_ipv6_and_system_settings rules nat aliases settings system resolved
        ipv6_enabled =
      generate_ruleset_with_captive_and_interfaces (record {
        rules = rules;
        nat_config = nat;
        aliases = aliases;
        firewall_settings = settings;
        system_settings = system;
        resolved_url_tables = resolved;
        ipv6_enabled = ipv6_enabled;
        captive_portal = none;
        captive_sessions = [];
        interfaces = [];
        dns_port = some 53;
        dot_config = none;
      })
