-- ===== src/Firewall/Validation.antt =====
-- The validation of firewall schedules, rules and settings in
-- dayshield-core/src/config/models.rs. An error keeps what its message names.
use dayshield_core.Base.{
  ℕ, ℤ, is_negative, Bool, false, not, ◌&&◌, ◌||◌, Option, none, some, String, List, [], ◌∷◌, ltb,
  ◌==◌, Outcome, ok, err, ◌>>◌, ◌>>=◌, reject_if,
}
use dayshield_core.Base.Text.{Text, is_empty, trim}
use dayshield_core.Net.Validation.{
  is_valid_ipv6_addr, is_valid_ipv6_cidr, is_valid_cidr_or_addr, is_valid_port,
  is_valid_interface_name, is_valid_domain, ensure_ipv6_allowed, Ipv6Disabled, is_some,
}
use dayshield_core.Firewall.{
  FirewallRule, FirewallSchedule, FirewallSettings, FirewallStateLimits, FirewallAddressFamily,
  is_jump, is_icmp, is_icmpv6, has_transport, is_ipv4_only, is_ipv6_only,
}

-- `parse_from_str` of chrono for times of the day ("%H:%M", in seconds) and for dates
-- ("%Y-%m-%d", in days from the earliest date), `none` where the text has another form
pub record Calendar : Type 0 where
  pub parse_time : Text → Option ℕ
  pub parse_date : Text → Option ℕ

pub data ScheduleError : Type 0 where
  day_out_of_range : ℕ → ScheduleError
  bad_time_start bad_time_end bad_date_start bad_date_end : Text → ScheduleError
  dates_reversed : ScheduleError

pub data FirewallError : Type 0 where
  negative_priority : ℤ → FirewallError
  jump_unsupported ipv6_family_disabled icmpv6_disabled icmpv6_on_ipv4 icmp_on_ipv6 : FirewallError
  invalid_address : String → Text → FirewallError
  ipv6_disabled : Ipv6Disabled → FirewallError
  ipv6_value_on_ipv4 ipv4_value_on_ipv6 : String → FirewallError
  ports_without_transport : FirewallError
  invalid_port : String → ℕ → FirewallError
  invalid_interface : Text → FirewallError
  zero_limit : String → FirewallError
  invalid_schedule : ScheduleError → FirewallError
  zero_syn_flood_rate zero_syn_flood_burst : FirewallError
  invalid_domain : Text → FirewallError

abbrev pub check_days : List ℕ → Outcome ScheduleError (Unit {0})
check_days [] = ok tt
check_days (day ∷ days) = reject_if (ltb 6 day) (day_out_of_range day) >> check_days days

-- an optional text that a parser of chrono must read
abbrev pub parse_optional :
    (Text → Option ℕ) → (Text → ScheduleError) → Option Text → Outcome ScheduleError (Option ℕ)
parse_optional parse e none = ok none
parse_optional parse e (some s) = elim (parse s) [ none ↦ err (e s) | some v ↦ ok (some v) ]

abbrev pub reversed : Option ℕ → Option ℕ → Bool
reversed (some start) (some end) = ltb end start
reversed start end = false

unfoldable pub validate_firewall_schedule :
    Calendar → FirewallSchedule → Outcome ScheduleError (Unit {0})
validate_firewall_schedule calendar schedule =
    check_days schedule.days
    >> (parse_optional calendar.parse_time bad_time_start schedule.time_start >>= (λ time_start.
        parse_optional calendar.parse_time bad_time_end schedule.time_end >>= (λ time_end.
          parse_optional calendar.parse_date bad_date_start schedule.date_start >>= (λ date_start.
            parse_optional calendar.parse_date bad_date_end schedule.date_end
            >>= (λ date_end. reject_if (reversed date_start date_end) dates_reversed)))))

unfoldable pub firewall_value_is_ipv6 : Text → Bool
unfolding is_valid_ipv6_addr is_valid_ipv6_cidr
firewall_value_is_ipv6 value = is_valid_ipv6_addr value || is_valid_ipv6_cidr value

abbrev pub map_error : {E F A : Type 0} → (E → F) → Outcome E A → Outcome F A
map_error f (ok a) = ok a
map_error f (err e) = err (f e)

-- the body of the loop over the source and the destination
unfoldable pub check_address :
    FirewallAddressFamily → Bool → String → Option Text → Outcome FirewallError (Unit {0})
unfolding is_valid_cidr_or_addr ensure_ipv6_allowed firewall_value_is_ipv6
check_address ip_family ipv6_enabled label none = ok tt
check_address ip_family ipv6_enabled label (some addr) =
    reject_if (not (is_valid_cidr_or_addr addr)) (invalid_address label addr)
    >> map_error ipv6_disabled (ensure_ipv6_allowed addr ipv6_enabled label)
    >> reject_if (firewall_value_is_ipv6 addr && is_ipv4_only ip_family) (ipv6_value_on_ipv4 label)
    >> reject_if (not (firewall_value_is_ipv6 addr) && is_ipv6_only ip_family)
        (ipv4_value_on_ipv6 label)

unfoldable pub check_port : String → Option ℕ → Outcome FirewallError (Unit {0})
unfolding is_valid_port
check_port label none = ok tt
check_port label (some port) = reject_if (not (is_valid_port port)) (invalid_port label port)

unfoldable pub check_interface : Option Text → Outcome FirewallError (Unit {0})
unfolding is_valid_interface_name
check_interface none = ok tt
check_interface (some iface) =
    reject_if (not (is_valid_interface_name iface)) (invalid_interface iface)

abbrev pub check_limit : String → Option ℕ → Outcome FirewallError (Unit {0})
check_limit label none = ok tt
check_limit label (some n) = reject_if (n == 0) (zero_limit label)

unfoldable pub check_limits : FirewallStateLimits → Outcome FirewallError (Unit {0})
check_limits limits =
    check_limit "max_states" limits.max_states
    >> check_limit "max_source_nodes" limits.max_source_nodes
    >> check_limit "max_source_states" limits.max_source_states
    >> check_limit "max_source_connections" limits.max_source_connections
    >> check_limit "max_new_connections" limits.max_new_connections
    >> check_limit "max_new_connections_seconds" limits.max_new_connections_seconds
    >> check_limit "max_new_connections_per_source" limits.max_new_connections_per_source
    >> check_limit "max_new_connections_per_source_seconds"
        limits.max_new_connections_per_source_seconds

unfoldable pub check_schedule :
    Calendar → Option FirewallSchedule → Outcome FirewallError (Unit {0})
unfolding validate_firewall_schedule
check_schedule calendar none = ok tt
check_schedule calendar (some s) =
    map_error invalid_schedule (validate_firewall_schedule calendar s)

-- the tests of the family and the protocol before the loop over the addresses
unfoldable pub check_family : FirewallRule → Bool → Outcome FirewallError (Unit {0})
check_family rule ipv6_enabled =
    reject_if (is_negative rule.priority) (negative_priority rule.priority)
    >> reject_if (is_jump rule.action) jump_unsupported
    >> reject_if (is_ipv6_only rule.ip_family && not ipv6_enabled) ipv6_family_disabled
    >> reject_if (is_icmpv6 rule.protocol && not ipv6_enabled) icmpv6_disabled
    >> reject_if (is_icmpv6 rule.protocol && is_ipv4_only rule.ip_family) icmpv6_on_ipv4
    >> reject_if (is_icmp rule.protocol && is_ipv6_only rule.ip_family) icmp_on_ipv6

unfoldable pub check_ports : FirewallRule → Outcome FirewallError (Unit {0})
unfolding is_valid_port
check_ports rule =
    reject_if
      ((is_some rule.source_port || is_some rule.destination_port)
        && not (has_transport rule.protocol))
      ports_without_transport
    >> check_port "source_port" rule.source_port
    >> check_port "destination_port" rule.destination_port

unfoldable pub validate_firewall_rule :
    Calendar → FirewallRule → Bool → Outcome FirewallError (Unit {0})
unfolding check_family check_address check_ports check_limits validate_firewall_schedule
validate_firewall_rule calendar rule ipv6_enabled =
    check_family rule ipv6_enabled
    >> check_address rule.ip_family ipv6_enabled "source" rule.source
    >> check_address rule.ip_family ipv6_enabled "destination" rule.destination
    >> check_ports rule
    >> check_interface rule.interface
    >> check_limits rule.state_limits
    >> check_schedule calendar rule.schedule

unfoldable pub check_management_ports : List ℕ → Outcome FirewallError (Unit {0})
unfolding is_valid_port
check_management_ports [] = ok tt
check_management_ports (port ∷ ports) =
    reject_if (not (is_valid_port port)) (invalid_port "management_ports" port)
    >> check_management_ports ports

unfoldable pub check_sources : Bool → List Text → Outcome FirewallError (Unit {0})
unfolding is_valid_cidr_or_addr ensure_ipv6_allowed
check_sources ipv6_enabled [] = ok tt
check_sources ipv6_enabled (src ∷ srcs) =
    reject_if (not (is_valid_cidr_or_addr src)) (invalid_address "management_allowed_sources" src)
    >> map_error ipv6_disabled
        (ensure_ipv6_allowed src ipv6_enabled "Firewall management_allowed_sources")
    >> check_sources ipv6_enabled srcs

unfoldable pub check_management_interface : Option Text → Outcome FirewallError (Unit {0})
unfolding is_valid_interface_name
check_management_interface none = ok tt
check_management_interface (some iface) =
    reject_if (is_empty iface || not (is_valid_interface_name iface)) (invalid_interface iface)

unfoldable pub check_tls_domain : Option Text → Outcome FirewallError (Unit {0})
unfolding is_valid_domain trim
check_tls_domain none = ok tt
check_tls_domain (some domain) =
    reject_if (not (is_empty (trim domain)) && not (is_valid_domain domain)) (invalid_domain domain)

unfoldable pub validate_firewall_settings :
    FirewallSettings → Bool → Outcome FirewallError (Unit {0})
validate_firewall_settings settings ipv6_enabled =
    reject_if (settings.syn_flood_rate == 0) zero_syn_flood_rate
    >> reject_if (settings.syn_flood_burst == 0) zero_syn_flood_burst
    >> check_management_ports settings.management_ports
    >> check_sources ipv6_enabled settings.management_allowed_sources
    >> check_management_interface settings.management_interface
    >> check_tls_domain settings.management_tls_acme_domain
