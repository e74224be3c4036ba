-- ===== src/Firewall/System/Access.antt =====
-- Who may reach the management ports: the anti-lockout rules of
-- dayshield-core/src/engine/nftables/mod.rs.
use dayshield_core.Base.{
  ℕ, Bool, true, not, ◌&&◌, Option, none, some, List, [], ◌∷◌, ◌++◌, ◌≡◌, refl, IsIn, isnt_empty,
  IsIn-map, IsIn-append_right,
}
use dayshield_core.Base.Text.{Text}
use dayshield_core.Interfaces.{Interface, SystemSettings, DotConfig}
use dayshield_core.Firewall.{FirewallRule, FirewallSettings, input, tcp, accept}
use dayshield_core.Firewall.System.{
  RuleKey, effective_management_ports, management_family, filter_dot,
}
use dayshield_core.Firewall.System.Rules.{
  system_management_rule, system_firewall_rules, wan_rules, default_rules, lan_rules,
  public_dot_rules, management_rules,
}

-- an input rule that accepts a TCP port from every source, on the management interface if there is
-- one, in the address family that the settings give
pub record IsOpen (settings : FirewallSettings) (ipv6_enabled : Bool) (port : ℕ)
    (rule : FirewallRule) : Type 0 where
  pub accepts : rule.action ≡ accept
  pub any_source : rule.source ≡ none
  pub any_destination : rule.destination ≡ none
  pub any_source_port : rule.source_port ≡ none
  pub the_port : rule.destination_port ≡ some port
  pub by_tcp : rule.protocol ≡ some tcp
  pub enters : rule.direction ≡ input
  pub is_enabled : rule.enabled ≡ true
  pub at_any_time : rule.schedule ≡ none
  pub on_interface : rule.interface ≡ settings.management_interface
  pub family : rule.ip_family ≡ management_family settings ipv6_enabled

isnt_empty-IsIn : (p : ℕ) (ps : List ℕ) → IsIn p ps → isnt_empty ps ≡ true
isnt_empty-IsIn p [] i = absurd i
isnt_empty-IsIn p (q ∷ qs) i = refl

management_rule-IsIn :
    (rule_id : RuleKey → Text) (settings : FirewallSettings) (system : Option SystemSettings)
    (ipv6_enabled : Bool) (port : ℕ)
    → settings.management_anti_lockout ≡ true
    → IsIn port (effective_management_ports settings system)
    → IsIn
        (system_management_rule rule_id settings ipv6_enabled port)
        (management_rules rule_id settings system ipv6_enabled)
unfolding management_rules
management_rule-IsIn rule_id settings system ipv6_enabled port on i =
    rw (on, isnt_empty-IsIn port (effective_management_ports settings system) i)
      (IsIn-map (system_management_rule rule_id settings ipv6_enabled) port
        (effective_management_ports settings system) i)

pub management_rule-IsSystem :
    (rule_id : RuleKey → Text) (interfaces : List Interface) (settings : FirewallSettings)
    (system : Option SystemSettings) (dns_port : Option ℕ) (dot_config : Option DotConfig)
    (ipv6_enabled : Bool) (port : ℕ)
    → settings.management_anti_lockout ≡ true
    → IsIn port (effective_management_ports settings system)
    → IsIn
        (system_management_rule rule_id settings ipv6_enabled port)
        (system_firewall_rules rule_id interfaces settings system dns_port dot_config ipv6_enabled)
unfolding system_firewall_rules
management_rule-IsSystem rule_id interfaces settings system dns_port dot_config ipv6_enabled port on
      i =
    IsIn-append_right (system_management_rule rule_id settings ipv6_enabled port)
      (wan_rules rule_id interfaces ipv6_enabled
        ++ default_rules rule_id settings
        ++ lan_rules rule_id interfaces dns_port dot_config ipv6_enabled
        ++ public_dot_rules rule_id (filter_dot (λ dot. dot.enabled && not dot.lan_only) dot_config)
            ipv6_enabled)
      (management_rules rule_id settings system ipv6_enabled)
      (management_rule-IsIn rule_id settings system ipv6_enabled port on i)

pub management_rule-IsOpen :
    (rule_id : RuleKey → Text) (settings : FirewallSettings) (ipv6_enabled : Bool) (port : ℕ)
    → IsOpen settings ipv6_enabled port (system_management_rule rule_id settings ipv6_enabled port)
unfolding system_management_rule
management_rule-IsOpen rule_id settings ipv6_enabled port = record {
  accepts = refl;
  any_source = refl;
  any_destination = refl;
  any_source_port = refl;
  the_port = refl;
  by_tcp = refl;
  enters = refl;
  is_enabled = refl;
  at_any_time = refl;
  on_interface = refl;
  family = refl;
}
