-- ===== src/Firewall.antt =====
-- The firewall model of dayshield-core/src/config/models.rs. A rule's `Uuid` is the text it is
-- printed as; its `i32` priority is an integer.
pub mod Validation
pub mod Validity
pub mod Schedule
pub mod System
pub mod Format
pub mod Selection
pub mod Captive
pub mod Nat
pub mod Ruleset
pub mod Aliases
mod Tests
use dayshield_core.Base.{ℕ, ℤ, Bool, true, false, ◌&&◌, Option, none, some, List, [], ◌∷◌}
use dayshield_core.Base.Text.{Text}

pub data Protocol : Type 0 where
  tcp udp icmp icmpv6 any_protocol : Protocol

pub data Action : Type 0 where
  accept drop_packet reject jump log_packet : Action

pub data FirewallChainPolicy : Type 0 where
  policy_drop policy_accept : FirewallChainPolicy

pub data LogPosition : Type 0 where
  before_action after_action : LogPosition

pub data FirewallDirection : Type 0 where
  input forward output both : FirewallDirection

pub data FirewallAddressFamily : Type 0 where
  ipv4 ipv6 ipv4_ipv6 : FirewallAddressFamily

abbrev pub default_log_position : LogPosition
default_log_position = before_action

pub record FirewallSettings : Type 0 where
  pub input_policy : FirewallChainPolicy
  pub forward_policy : FirewallChainPolicy
  pub output_policy : FirewallChainPolicy
  pub drop_invalid_state : Bool
  pub syn_flood_protection : Bool
  pub syn_flood_rate : ℕ
  pub syn_flood_burst : ℕ
  pub management_anti_lockout : Bool
  pub management_interface : Option Text
  pub management_allowed_sources : List Text
  pub management_ports : List ℕ
  pub management_tls_acme_domain : Option Text
  pub log_position : LogPosition

abbrev pub default_settings : FirewallSettings
default_settings = record {
  input_policy = policy_drop;
  forward_policy = policy_drop;
  output_policy = policy_accept;
  drop_invalid_state = true;
  syn_flood_protection = true;
  syn_flood_rate = 120;
  syn_flood_burst = 240;
  management_anti_lockout = true;
  management_interface = none;
  management_allowed_sources = [];
  management_ports = 8443 ∷ [];
  management_tls_acme_domain = none;
  log_position = default_log_position;
}

pub record FirewallSchedule : Type 0 where
  pub days : List ℕ
  pub time_start : Option Text
  pub time_end : Option Text
  pub date_start : Option Text
  pub date_end : Option Text

pub record FirewallStateLimits : Type 0 where
  pub max_states : Option ℕ
  pub max_source_nodes : Option ℕ
  pub max_source_states : Option ℕ
  pub max_source_connections : Option ℕ
  pub max_new_connections : Option ℕ
  pub max_new_connections_seconds : Option ℕ
  pub max_new_connections_per_source : Option ℕ
  pub max_new_connections_per_source_seconds : Option ℕ

abbrev pub no_limits : FirewallStateLimits
no_limits = record {
  max_states = none;
  max_source_nodes = none;
  max_source_states = none;
  max_source_connections = none;
  max_new_connections = none;
  max_new_connections_seconds = none;
  max_new_connections_per_source = none;
  max_new_connections_per_source_seconds = none;
}

pub record FirewallRule : Type 0 where
  pub id : Text
  pub description : Option Text
  pub priority : ℤ
  pub source : Option Text
  pub destination : Option Text
  pub protocol : Option Protocol
  pub source_port : Option ℕ
  pub destination_port : Option ℕ
  pub ip_family : FirewallAddressFamily
  pub action : Action
  pub direction : FirewallDirection
  pub interface : Option Text
  pub log : Bool
  pub enabled : Bool
  pub schedule : Option FirewallSchedule
  pub state_limits : FirewallStateLimits

-- the `matches!` tests of the variants
abbrev pub is_icmp : Option Protocol → Bool
is_icmp (some icmp) = true
is_icmp p = false

abbrev pub is_icmpv6 : Option Protocol → Bool
is_icmpv6 (some icmpv6) = true
is_icmpv6 p = false

abbrev pub has_transport : Option Protocol → Bool
has_transport (some tcp) = true
has_transport (some udp) = true
has_transport p = false

abbrev pub is_jump : Action → Bool
is_jump jump = true
is_jump a = false

abbrev pub is_ipv4_only : FirewallAddressFamily → Bool
is_ipv4_only ipv4 = true
is_ipv4_only f = false

abbrev pub is_ipv6_only : FirewallAddressFamily → Bool
is_ipv6_only ipv6 = true
is_ipv6_only f = false

abbrev pub is_drop_policy : FirewallChainPolicy → Bool
is_drop_policy policy_drop = true
is_drop_policy policy_accept = false

abbrev pub is_before : LogPosition → Bool
is_before before_action = true
is_before after_action = false
