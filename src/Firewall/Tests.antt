-- ===== src/Firewall/Tests.antt =====
-- Runs of the firewall model and the witnesses of its theorems.
use dayshield_core.Base.{
  ℕ, pos, true, false, err, none, some, [], ◌∷◌, ◌++◌, ◌≡◌, ◌↔◌, refl, if◌then◌else◌, ok, map, IsIn,
  ◌<◌, ◌⊎◌,
}
use dayshield_core.Base.Text.{Text, codes, text_eq, is_ascii_alphanumeric}
use dayshield_core.Net.Urls.{validate_url}
use dayshield_core.Net.Validation.{is_valid_cidr_or_addr, ensure_ipv6_allowed}
use dayshield_core.Firewall.Aliases.{
  invalid_value, validate_alias_name, validate_port_or_range, validate_alias_values,
}
use dayshield_core.Firewall.Ruleset.{FirewallAlias, port}
use dayshield_core.Firewall.{
  FirewallRule, FirewallSchedule, FirewallSettings, default_settings, no_limits, tcp, drop_packet,
  input, ipv4, before_action,
}
use dayshield_core.Firewall.Validation.{
  Calendar, validate_firewall_rule, validate_firewall_schedule, check_family, check_address,
  check_ports, check_port, check_interface, check_limits, check_schedule,
}
use dayshield_core.Firewall.Validity.Rules.{RuleFits, validate_firewall_rule_iff}
use dayshield_core.Firewall.Schedule.{Now, is_schedule_active, is_schedule_active_iff, IsActive}
use dayshield_core.Firewall.Selection.{
  emitted_rules, emitted_rules-IsSelection, IsSelection, IsWanted,
}
use dayshield_core.Firewall.Format.{input_chain, format_rule, rule_lines, join_parts, port_part}
use dayshield_core.Firewall.System.{RuleKey, effective_management_ports}
use dayshield_core.Firewall.System.Management.{
  effective_management_ports_lem, IsIncreasing, IsSystemPort,
}
use dayshield_core.Firewall.Ruleset.Injection.{is_word_char}
use dayshield_core.Firewall.Ruleset.Statements.{IsStatement, format_rule-IsStatement}
use dayshield_core.Firewall.Ruleset.Chains.{RulesetInput, sorted_rules}
use dayshield_core.Firewall.Ruleset.DefaultDeny.{sorted_rules-IsDenied, IsDenied}
use dayshield_core.Firewall.Nat.{
  NatRule, dnat, nat_tcp, family4, validate_nat_rule_with_ipv6, check_translated_address,
}

-- times and dates by a small table
abbrev calendar : Calendar
calendar = record {
  parse_time = λ s.
      if text_eq s (codes "22:00")
      then some 79200
      else (if text_eq s (codes "06:00") then some 21600 else none);
  parse_date = λ s. if text_eq s (codes "2026-01-01") then some 739617 else none;
}

-- a Saturday night
abbrev now : Now
now = record { today = 739700; weekday = 6; hour = 23; minute = 30 }

abbrev nights : FirewallSchedule
nights = record {
  days = 5 ∷ 6 ∷ [];
  time_start = some (codes "22:00");
  time_end = some (codes "06:00");
  date_start = some (codes "2026-01-01");
  date_end = none;
}

abbrev block_web : FirewallRule
block_web = record {
  id = codes "1b4e28ba-2fa1";
  description = none;
  priority = pos 10;
  source = some (codes "10.0.0.0/8");
  destination = none;
  protocol = some tcp;
  source_port = none;
  destination_port = some 80;
  ip_family = ipv4;
  action = drop_packet;
  direction = input;
  interface = some (codes "eth0");
  log = true;
  enabled = true;
  schedule = some nights;
  state_limits = no_limits;
}

abbrev rule_id : RuleKey → Text
rule_id key = key.rule_kind

nights_active : is_schedule_active calendar now (some nights) ≡ true
unfolding is_schedule_active
nights_active = refl

block_web_valid : validate_firewall_rule calendar block_web false ≡ ok tt
unfolding validate_firewall_rule validate_firewall_schedule check_family check_address check_ports
    check_port check_interface check_limits check_schedule is_valid_cidr_or_addr ensure_ipv6_allowed
block_web_valid = refl

block_web_text :
    format_rule block_web input_chain before_action
    ≡ codes
        "iifname \"eth0\" meta nfproto ipv4 ip saddr 10.0.0.0/8 tcp dport 80 limit rate 10/second burst 20 packets log prefix \"DROP dayshield[1b4e28ba-2fa1]: \"\n        iifname \"eth0\" meta nfproto ipv4 ip saddr 10.0.0.0/8 tcp dport 80 counter name \"ds_1b4e28ba_2fa1\" drop"
unfolding format_rule port_part
block_web_text = refl

is_schedule_active_iff_example :
    (is_schedule_active calendar now (some nights) ≡ true) ↔ IsActive calendar now nights
is_schedule_active_iff_example = is_schedule_active_iff calendar now nights

validate_firewall_rule_iff_example :
    (validate_firewall_rule calendar block_web false ≡ ok tt) ↔ RuleFits calendar block_web false
validate_firewall_rule_iff_example = validate_firewall_rule_iff calendar block_web false

abbrev later : FirewallRule
later = record block_web { priority = pos 5; schedule = none }

emitted_rules-IsSelection_example :
    IsSelection calendar now false
      (block_web ∷ [] ++ later ∷ [])
      (emitted_rules calendar now false (block_web ∷ []) (later ∷ []))
emitted_rules-IsSelection_example =
    emitted_rules-IsSelection calendar now false (block_web ∷ []) (later ∷ [])

format_rule-IsStatement_example :
    IsStatement block_web
      (format_rule block_web input_chain before_action)
      (map (join_parts (codes " ")) (rule_lines block_web input_chain before_action))
unfolding is_word_char is_ascii_alphanumeric
format_rule-IsStatement_example =
    format_rule-IsStatement calendar block_web false input_chain before_action block_web_valid refl

effective_management_ports_lem_example :
    IsIncreasing (effective_management_ports default_settings none)
    × ((p : ℕ)
        → IsIn p (effective_management_ports default_settings none)
          ↔ ((0 < p) × (IsSystemPort none p ⊎ IsIn p (8443 ∷ []))))
effective_management_ports_lem_example = effective_management_ports_lem default_settings none

-- only one address may manage, and yet
abbrev restricted : FirewallSettings
restricted = record default_settings { management_allowed_sources = codes "192.0.2.7" ∷ [] }

abbrev ruleset_input : RulesetInput
ruleset_input = record {
  rules = block_web ∷ [];
  nat_config = none;
  aliases = [];
  firewall_settings = some default_settings;
  system_settings = none;
  resolved_url_tables = λ name. [];
  ipv6_enabled = false;
  captive_portal = none;
  captive_sessions = [];
  interfaces = [];
  dns_port = some 53;
  dot_config = none;
}

sorted_rules-IsDenied_example :
    IsDenied
      (IsWanted calendar now false)
      (block_web ∷ [])
      (sorted_rules calendar now rule_id ruleset_input)
sorted_rules-IsDenied_example = sorted_rules-IsDenied calendar now rule_id ruleset_input refl

abbrev restricted_input : RulesetInput
restricted_input = record ruleset_input { firewall_settings = some restricted }

abbrev port_forward : NatRule
port_forward = record {
  id = codes "5c1d";
  enabled = true;
  description = none;
  rule_type = dnat;
  interface = some (codes "eth0");
  source = none;
  destination = some (codes "203.0.113.5");
  protocol = nat_tcp;
  source_port = none;
  destination_port = some 443;
  translation =
      some (record { address = some (codes "192.168.1.10"); port = some 8443; port_end = none });
  nat_reflection = false;
  address_family = family4;
  priority = pos 0;
  log = false;
  auto_firewall_rule = true;
}

port_forward_valid : validate_nat_rule_with_ipv6 port_forward false ≡ ok tt
unfolding validate_nat_rule_with_ipv6 check_translated_address
port_forward_valid = refl

alias_name_test : validate_alias_name (codes "_web1") ≡ true
unfolding validate_alias_name
alias_name_test = refl

url_test : validate_url (codes "https://?x") ≡ false
unfolding validate_url
url_test = refl

range_test : validate_port_or_range (codes "8080:8000") ≡ false
unfolding validate_port_or_range
range_test = refl

abbrev web_ports : FirewallAlias
web_ports = record {
  name = codes "web";
  description = none;
  alias_type = port;
  values = codes "80" ∷ codes "8000:8080" ∷ codes "0" ∷ [];
  ttl = none;
  enabled = true;
}

alias_test : validate_alias_values web_ports ≡ err (invalid_value (codes "web") (codes "0") port)
unfolding validate_alias_values
alias_test = refl
