-- ===== src/Firewall/System/Rules.antt =====
-- The rules that the system adds: system_firewall_rules of
-- dayshield-core/src/engine/nftables/mod.rs.
use dayshield_core.Base.{
  ℕ, negsuc, Bool, true, false, not, ◌&&◌, Option, none, some, List, [], ◌∷◌, ◌++◌, map,
  if◌then◌else◌, filter, to_text, isnt_empty,
}
use dayshield_core.Base.Text.{Text, codes}
use dayshield_core.Interfaces.{Interface, SystemSettings, DotConfig, is_wan_interface}
use dayshield_core.Firewall.{
  Protocol, tcp, udp, accept, input, FirewallAddressFamily, ipv4, ipv6, ipv4_ipv6, FirewallRule,
  FirewallSettings, no_limits, is_drop_policy,
}
use dayshield_core.Firewall.System.{
  RuleKey, effective_management_ports, management_family, filter_dot, concat, wan_block_rules,
  system_default_block_rule,
}

-- `stable_system_rule_id` hashes the key to a `Uuid`
module _ (rule_id : RuleKey → Text) where
  unfoldable pub system_lan_service_rule :
      Interface
      → Text
      → Text
      → Option Protocol
      → Option ℕ
      → Option ℕ
      → FirewallAddressFamily
      → FirewallRule
  system_lan_service_rule iface service description protocol source_port destination_port family =
      record {
        id = rule_id (record {
          iface = iface.name;
          rule_kind = codes "lan-service";
          service = service;
          direction = input;
        });
        description = some (description ++ codes " on " ++ iface.name);
        priority = negsuc 174;
        source = none;
        destination = none;
        protocol = protocol;
        source_port = source_port;
        destination_port = destination_port;
        ip_family = family;
        action = accept;
        direction = input;
        interface = some iface.name;
        log = false;
        enabled = true;
        schedule = none;
        state_limits = no_limits;
      }

  unfoldable pub dns_rules : Interface → Option ℕ → List FirewallRule
  unfolding system_lan_service_rule
  dns_rules iface none = []
  dns_rules iface (some port) =
      system_lan_service_rule iface (codes "dns-udp") (codes "Allow DNS over UDP from LAN clients")
        (some udp) none (some port) ipv4_ipv6
      ∷ system_lan_service_rule iface (codes "dns-tcp")
          (codes "Allow DNS over TCP from LAN clients") (some tcp) none (some port) ipv4_ipv6
      ∷ []

  unfoldable pub lan_dot_rules : Interface → Option DotConfig → List FirewallRule
  unfolding system_lan_service_rule
  lan_dot_rules iface none = []
  lan_dot_rules iface (some dot) =
      system_lan_service_rule iface (codes "dot") (codes "Allow DNS-over-TLS from LAN clients")
        (some tcp) none (some dot.port) ipv4_ipv6
      ∷ []

  unfoldable pub system_lan_service_rules :
      Interface → Option ℕ → Option DotConfig → Bool → List FirewallRule
  unfolding system_lan_service_rule
  system_lan_service_rules iface dns_port dot_config ipv6_enabled =
      system_lan_service_rule iface (codes "dhcp4-server")
          (codes "Allow DHCPv4 requests from LAN clients") (some udp) (some 68) (some 67) ipv4
        ∷ dns_rules iface dns_port
      ++ lan_dot_rules iface dot_config
      ++ (if ipv6_enabled
          then system_lan_service_rule iface (codes "dhcp6-server")
              (codes "Allow DHCPv6 requests from LAN clients") (some udp) (some 546) (some 547) ipv6
            ∷ []
          else [])

  unfoldable pub system_public_dot_rule : ℕ → Bool → FirewallRule
  unfolding to_text
  system_public_dot_rule port ipv6_enabled = record {
    id = rule_id (record {
      iface = codes "system";
      rule_kind = codes "public-service";
      service = codes "dot-" ++ to_text port;
      direction = input;
    });
    description = some (codes "Allow public DNS-over-TLS (port " ++ to_text port ++ codes ")");
    priority = negsuc 173;
    source = none;
    destination = none;
    protocol = some tcp;
    source_port = none;
    destination_port = some port;
    ip_family = if ipv6_enabled then ipv4_ipv6 else ipv4;
    action = accept;
    direction = input;
    interface = none;
    log = false;
    enabled = true;
    schedule = none;
    state_limits = no_limits;
  }

  unfoldable pub system_management_rule : FirewallSettings → Bool → ℕ → FirewallRule
  unfolding management_family to_text
  system_management_rule settings ipv6_enabled port = record {
    id = rule_id (record {
      iface = codes "system";
      rule_kind = codes "management";
      service = codes "anti-lockout-" ++ to_text port;
      direction = input;
    });
    description = some (codes "Management Anti-lockout (port " ++ to_text port ++ codes ")");
    priority = negsuc 149;
    source = none;
    destination = none;
    protocol = some tcp;
    source_port = none;
    destination_port = some port;
    ip_family = management_family settings ipv6_enabled;
    action = accept;
    direction = input;
    interface = settings.management_interface;
    log = false;
    enabled = true;
    schedule = none;
    state_limits = no_limits;
  }

  unfoldable pub public_dot_rules : Option DotConfig → Bool → List FirewallRule
  unfolding system_public_dot_rule
  public_dot_rules none ipv6_enabled = []
  public_dot_rules (some dot) ipv6_enabled = system_public_dot_rule dot.port ipv6_enabled ∷ []

  -- the rules of the uplinks, of the default policies, and of the other interfaces
  unfoldable pub wan_rules : List Interface → Bool → List FirewallRule
  unfolding wan_block_rules is_wan_interface
  wan_rules interfaces ipv6_enabled = concat (
      map (wan_block_rules rule_id ipv6_enabled)
        (filter (λ iface. iface.enabled && is_wan_interface iface) interfaces))

  unfoldable pub default_rules : FirewallSettings → List FirewallRule
  unfolding system_default_block_rule
  default_rules settings =
      (if is_drop_policy settings.input_policy
        then system_default_block_rule rule_id (codes "input") ∷ []
        else [])
      ++ (if is_drop_policy settings.forward_policy
          then system_default_block_rule rule_id (codes "forward") ∷ []
          else [])

  unfoldable pub lan_rules : List Interface → Option ℕ → Option DotConfig → Bool → List FirewallRule
  unfolding system_lan_service_rules is_wan_interface
  lan_rules interfaces dns_port dot_config ipv6_enabled = concat (
      map
        (λ iface.
          system_lan_service_rules iface dns_port
            (filter_dot (λ dot. dot.enabled && dot.lan_only) dot_config) ipv6_enabled)
        (filter (λ iface. iface.enabled && not (is_wan_interface iface)) interfaces))

  unfoldable pub management_rules :
      FirewallSettings → Option SystemSettings → Bool → List FirewallRule
  unfolding system_management_rule effective_management_ports
  management_rules settings system ipv6_enabled =
      let ports = effective_management_ports settings system in
      if settings.management_anti_lockout && isnt_empty ports
      then map (system_management_rule settings ipv6_enabled) ports
      else []

  unfoldable pub system_firewall_rules :
      List Interface
      → FirewallSettings
      → Option SystemSettings
      → Option ℕ
      → Option DotConfig
      → Bool
      → List FirewallRule
  unfolding wan_rules default_rules lan_rules public_dot_rules management_rules
  system_firewall_rules interfaces settings system dns_port dot_config ipv6_enabled =
      wan_rules interfaces ipv6_enabled
      ++ default_rules settings
      ++ lan_rules interfaces dns_port dot_config ipv6_enabled
      ++ public_dot_rules (filter_dot (λ dot. dot.enabled && not dot.lan_only) dot_config)
          ipv6_enabled
      ++ management_rules settings system ipv6_enabled
