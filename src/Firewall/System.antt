-- ===== src/Firewall/System.antt =====
-- What the rules of the system are built of: the management ports, the blocked networks and the
-- default rules of dayshield-core/src/engine/nftables/mod.rs, with effective_management_ports of
-- config/models.rs.
pub mod Rules
pub mod Management
pub mod Access
use dayshield_core.Base.{
  ℕ, ℤ, pos, negsuc, Bool, true, false, not, ◌&&◌, ◌||◌, Option, none, some, List, [], ◌∷◌, ◌++◌,
  map, if◌then◌else◌, ltb, ◌==◌, any, filter, String, to_text,
}
use dayshield_core.Base.Text.{Text, codes, text_eq, to_ascii_uppercase}
use dayshield_core.Net.Validation.{has_char, is_valid_port}
use dayshield_core.Interfaces.{Interface, SystemSettings, DotConfig, is_wan_interface}
use dayshield_core.Firewall.{
  Protocol, tcp, udp, Action, accept, drop_packet, FirewallDirection, input, forward,
  FirewallAddressFamily, ipv4, ipv6, ipv4_ipv6, FirewallRule, FirewallSettings, no_limits,
  is_drop_policy,
}

-- the four parts of the key that a system rule's id is the hash of
pub record RuleKey : Type 0 where
  pub iface : Text
  pub rule_kind : Text
  pub service : Text
  pub direction : FirewallDirection

-- `ports.insert(port)` into a `BTreeSet`
abbrev pub insert_port : ℕ → List ℕ → List ℕ
insert_port p [] = p ∷ []
insert_port p (q ∷ qs) =
    let rest = insert_port p qs in
    if ltb p q then p ∷ q ∷ qs else (if p == q then q ∷ qs else q ∷ rest)

unfoldable pub insert_valid : ℕ → List ℕ → List ℕ
unfolding is_valid_port
insert_valid p ports = if is_valid_port p then insert_port p ports else ports

abbrev pub insert_all : List ℕ → List ℕ → List ℕ
insert_all [] ports = ports
insert_all (p ∷ ps) ports = insert_all ps (insert_valid p ports)

abbrev pub insert_settings : Option SystemSettings → List ℕ → List ℕ
insert_settings none ports = ports
insert_settings (some s) ports =
    let web = insert_valid s.web_port ports in
    if s.ssh_enabled then insert_valid s.ssh_port web else web

unfoldable pub effective_management_ports : FirewallSettings → Option SystemSettings → List ℕ
effective_management_ports settings system =
    insert_settings system (insert_all settings.management_ports [])

abbrev pub private_ipv4_networks : List Text
private_ipv4_networks = codes "10.0.0.0/8" ∷ codes "172.16.0.0/12" ∷ codes "192.168.0.0/16" ∷ []

abbrev pub private_ipv6_networks : List Text
private_ipv6_networks = codes "fc00::/7" ∷ []

abbrev pub bogon_ipv4_networks : List Text
bogon_ipv4_networks =
    codes "0.0.0.0/8"
    ∷ codes "127.0.0.0/8"
    ∷ codes "169.254.0.0/16"
    ∷ codes "192.0.2.0/24"
    ∷ codes "198.51.100.0/24"
    ∷ codes "203.0.113.0/24"
    ∷ codes "224.0.0.0/4"
    ∷ codes "240.0.0.0/4"
    ∷ []

abbrev pub bogon_ipv6_networks : List Text
bogon_ipv6_networks =
    codes "::/128" ∷ codes "::1/128" ∷ codes "::ffff:0:0/96" ∷ codes "2001:db8::/32" ∷ []

-- `.filter(…)` of an optional configuration
abbrev pub filter_dot : (DotConfig → Bool) → Option DotConfig → Option DotConfig
filter_dot p none = none
filter_dot p (some d) = if p d then some d else none

abbrev pub concat : {A : Type 0} → List (List A) → List A
concat [] = []
concat (xs ∷ xss) = xs ++ concat xss

-- the address family of the management rules, from the sources that are allowed
unfoldable pub management_family : FirewallSettings → Bool → FirewallAddressFamily
management_family settings ipv6_enabled = elim settings.management_allowed_sources [
  | [] ↦ ipv4_ipv6
  | src ∷ srcs ↦
      let has_ipv4 = any (λ s. not (has_char b':' s)) (src ∷ srcs) in
      let has_ipv6 = any (has_char b':') (src ∷ srcs) in
      if has_ipv6 && ipv6_enabled then (if has_ipv4 then ipv4_ipv6 else ipv6) else ipv4
]

-- `stable_system_rule_id` hashes the key to a `Uuid`
module _ (rule_id : RuleKey → Text) where
  unfoldable pub system_block_rule :
      Interface → Text → Text → Text → FirewallDirection → FirewallRule
  system_block_rule iface rule_kind cidr description direction = record {
    id = rule_id (record {
      iface = iface.name;
      rule_kind = rule_kind;
      service = cidr;
      direction = direction;
    });
    description = some (description ++ codes " on " ++ iface.name);
    priority = negsuc 199;
    source = some cidr;
    destination = none;
    protocol = none;
    source_port = none;
    destination_port = none;
    ip_family = if has_char b':' cidr then ipv6 else ipv4;
    action = drop_packet;
    direction = direction;
    interface = some iface.name;
    log = true;
    enabled = true;
    schedule = none;
    state_limits = no_limits;
  }

  unfoldable pub system_block_rules : Interface → Text → Text → Text → List FirewallRule
  unfolding system_block_rule
  system_block_rules iface rule_kind description cidr =
      system_block_rule iface rule_kind cidr description input
      ∷ system_block_rule iface rule_kind cidr description forward
      ∷ []

  -- one kind of networks on an interface
  abbrev pub block_networks :
      Interface → Text → Text → Bool → List Text → List Text → List FirewallRule
  block_networks iface rule_kind description ipv6_enabled v4 v6 =
      concat (map (system_block_rules iface rule_kind description) v4)
      ++ (if ipv6_enabled
          then concat (map (system_block_rules iface rule_kind description) v6)
          else [])

  -- the body of the loop over the uplinks
  unfoldable pub wan_block_rules : Bool → Interface → List FirewallRule
  unfolding system_block_rule
  wan_block_rules ipv6_enabled iface =
      (if iface.block_private_networks
        then block_networks iface (codes "private") (codes "Block private networks") ipv6_enabled
            private_ipv4_networks private_ipv6_networks
        else [])
      ++ (if iface.block_bogon_networks
          then block_networks iface (codes "bogon") (codes "Block bogon networks") ipv6_enabled
              bogon_ipv4_networks bogon_ipv6_networks
          else [])

  unfoldable pub system_default_block_rule : Text → FirewallRule
  unfolding to_ascii_uppercase
  system_default_block_rule direction =
      let chain_direction = if text_eq direction (codes "forward") then forward else input in
      record {
        id = rule_id (record {
          iface = codes "system";
          rule_kind = codes "default-block";
          service = direction;
          direction = chain_direction;
        });
        description = some (
            codes "Default drop policy for " ++ map to_ascii_uppercase direction ++ codes " chain");
        priority = pos 1000000;
        source = none;
        destination = none;
        protocol = none;
        source_port = none;
        destination_port = none;
        ip_family = ipv4_ipv6;
        action = drop_packet;
        direction = chain_direction;
        interface = none;
        log = true;
        enabled = true;
        schedule = none;
        state_limits = no_limits;
      }
