-- ===== src/Firewall/Validity/Rules.antt =====
-- What validate_firewall_schedule and validate_firewall_rule of
-- dayshield-core/src/config/models.rs accept.
use dayshield_core.Base.{
  ℕ, ◌<◌, ◌≤◌, Bool, true, false, not, Option, none, some, String, List, [], ◌∷◌, ◌≡◌, ap, ◌↔◌, inl,
  inr, refl, ltb, All, Outcome, ok, err, ◌>>=◌, reject_if, reject_if_iff, both_iff, arith,
  Option-cases,
}
use mathlib.Core.Path.{subst}
use dayshield_core.Base.Text.{Text}
use dayshield_core.Net.Validation.{is_valid_interface_name, is_some}
use dayshield_core.Firewall.{FirewallRule, FirewallStateLimits, FirewallSchedule}
use dayshield_core.Firewall.Validation.{
  Calendar, ScheduleError, bad_time_start, bad_time_end, bad_date_start, bad_date_end, check_days,
  parse_optional, reversed, check_interface, check_limit, check_limits, check_schedule, map_error,
  invalid_schedule, validate_firewall_schedule, validate_firewall_rule, dates_reversed,
}
use dayshield_core.Firewall.Schedule.{read_by}
use dayshield_core.Firewall.Validity.{
  AddressFits, FamilyFits, PortsFit, check_address_iff, check_family_iff, check_ports_iff,
}

-- an optional text that a parser reads, if it is there
abbrev pub readable : (Text → Option ℕ) → Option Text → Bool
readable parse none = true
readable parse (some s) = is_some (parse s)

pub record ScheduleFits (calendar : Calendar) (schedule : FirewallSchedule) : Type 0 where
  pub days : All (λ d. d ≤ 6) schedule.days
  pub time_start : readable calendar.parse_time schedule.time_start ≡ true
  pub time_end : readable calendar.parse_time schedule.time_end ≡ true
  pub date_start : readable calendar.parse_date schedule.date_start ≡ true
  pub date_end : readable calendar.parse_date schedule.date_end ≡ true
  pub in_order :
      (a b : ℕ)
      → read_by calendar.parse_date schedule.date_start ≡ some a
      → read_by calendar.parse_date schedule.date_end ≡ some b
      → a ≤ b

check_days_iff : (days : List ℕ) → (check_days days ≡ ok tt) ↔ All (λ d. d ≤ 6) days
check_days_iff [] = (λ h. tt, λ h. refl)
check_days_iff (d ∷ ds) =
    let iff = both_iff _ _ (reject_if_iff (ltb 6 d) _) (check_days_iff ds) in
    (λ h. (ground (arith, (iff.0 h).0), (iff.0 h).1), λ h. iff.1 (ground (arith, h.0), h.1))

-- an optional text that is read, and what follows
read_iff :
    (parse : Text → Option ℕ) (e : Text → ScheduleError) (o : Option Text)
    (k : Option ℕ → Outcome ScheduleError (Unit {0}))
    → ((parse_optional parse e o >>= k) ≡ ok tt)
      ↔ ((readable parse o ≡ true) × (k (read_by parse o) ≡ ok tt))
read_iff parse e none k = (λ h. (refl, h), λ h. h.1)
read_iff parse e (some s) k = elim (Option-cases (parse s)) [
  | inl f ↦
      rw (f, parse_optional) (λ h. absurd (ground (arith, h)), λ h. absurd (ground (arith, h.0)))
  | inr (v, f) ↦ rw (f, parse_optional) (λ h. (refl, h), λ h. h.1)
]

ordered_iff :
    (o p : Option ℕ)
    → (reject_if (reversed o p) dates_reversed ≡ ok tt)
      ↔ ((a b : ℕ) → o ≡ some a → p ≡ some b → a ≤ b)
ordered_iff none p = (λ h a b e f. absurd (ground (arith, e)), λ h. refl)
ordered_iff (some a) none = (λ h b c e f. absurd (ground (arith, f)), λ h. refl)
ordered_iff (some a) (some b) =
    (λ h c d e f. ground (arith, h, e, f), λ h. ground (arith, h a b refl refl))

validate_firewall_schedule_iff :
    (calendar : Calendar) (schedule : FirewallSchedule)
    → (validate_firewall_schedule calendar schedule ≡ ok tt) ↔ ScheduleFits calendar schedule
unfolding validate_firewall_schedule
validate_firewall_schedule_iff calendar schedule =
    let dates : Option ℕ → Outcome ScheduleError (Unit {0}) = λ date_start.
      parse_optional calendar.parse_date bad_date_end schedule.date_end
      >>= (λ date_end. reject_if (reversed date_start date_end) dates_reversed) in
    let from_date_start : Outcome ScheduleError (Unit {0}) =
      parse_optional calendar.parse_date bad_date_start schedule.date_start >>= dates in
    let from_time_end : Outcome ScheduleError (Unit {0}) =
      parse_optional calendar.parse_time bad_time_end schedule.time_end
      >>= (λ t. from_date_start) in
    let start =
      read_iff calendar.parse_time bad_time_start schedule.time_start (λ t. from_time_end) in
    let end = read_iff calendar.parse_time bad_time_end schedule.time_end (λ t. from_date_start) in
    let first = read_iff calendar.parse_date bad_date_start schedule.date_start dates in
    let last = read_iff calendar.parse_date bad_date_end schedule.date_end (λ d.
      reject_if (reversed (read_by calendar.parse_date schedule.date_start) d) dates_reversed) in
    let order =
      ordered_iff (read_by calendar.parse_date schedule.date_start)
        (read_by calendar.parse_date schedule.date_end) in
    let iff = both_iff _ _ (check_days_iff schedule.days) start in
    (
      λ h.
          let (days, (s, rest)) = iff.0 h in
          let (e, rest') = end.0 rest in
          let (f, rest'') = first.0 rest' in
          let (l, o) = last.0 rest'' in
          record {
            days = days;
            time_start = s;
            time_end = e;
            date_start = f;
            date_end = l;
            in_order = order.0 o;
          },
      λ fits. iff.1 (
        fits.days,
        (
          fits.time_start,
          end.1 (
            fits.time_end,
            first.1 (fits.date_start, last.1 (fits.date_end, order.1 fits.in_order)),
          ),
        ),
      ),
    )

abbrev all_limits : FirewallStateLimits → List (Option ℕ)
all_limits limits =
    limits.max_states ∷ limits.max_source_nodes ∷ limits.max_source_states
    ∷ limits.max_source_connections ∷ limits.max_new_connections
    ∷ limits.max_new_connections_seconds ∷ limits.max_new_connections_per_source
    ∷ limits.max_new_connections_per_source_seconds ∷ []

abbrev pub NotZero : Option ℕ → Type 0
NotZero o = (n : ℕ) → o ≡ some n → 0 < n

check_limit_iff : (label : String) (o : Option ℕ) → (check_limit label o ≡ ok tt) ↔ NotZero o
check_limit_iff label none = (λ h n e. absurd (ground (arith, e)), λ h. refl)
check_limit_iff label (some m) = (λ h n e. ground (arith, h, e), λ h. ground (arith, h m refl))

check_limits_iff :
    (limits : FirewallStateLimits) → (check_limits limits ≡ ok tt) ↔ All NotZero (all_limits limits)
unfolding check_limits
check_limits_iff limits =
    let one = λ (o : Option ℕ) (label : String). check_limit_iff label o in
    let iff =
      both_iff _ _
        (both_iff _ _
          (both_iff _ _
            (both_iff _ _
              (both_iff _ _
                (both_iff _ _
                  (both_iff _ _ (one limits.max_states _) (one limits.max_source_nodes _))
                  (one limits.max_source_states _))
                (one limits.max_source_connections _))
              (one limits.max_new_connections _))
            (one limits.max_new_connections_seconds _))
          (one limits.max_new_connections_per_source _))
        (one limits.max_new_connections_per_source_seconds _) in
    (
      λ h.
          let (((((((a, b), c), d), e), f), g), i) = iff.0 h in
          (a, (b, (c, (d, (e, (f, (g, (i, tt)))))))),
      λ h.
          let (a, (b, (c, (d, (e, (f, (g, (i, u)))))))) = h in
          iff.1 (((((((a, b), c), d), e), f), g), i),
    )

abbrev pub InterfaceFits : Option Text → Type 0
InterfaceFits o = (iface : Text) → o ≡ some iface → is_valid_interface_name iface ≡ true

not-true : (b : Bool) → b ≡ true → not b ≡ false
not-true b h = ground arith

valid_as :
    (iface i : Text)
    → ◌≡◌ {A = Option Text} (some iface) (some i)
    → not (is_valid_interface_name iface) ≡ false
    → is_valid_interface_name i ≡ true
valid_as iface i e h = ground (arith, e, h)

check_interface_iff : (o : Option Text) → (check_interface o ≡ ok tt) ↔ InterfaceFits o
unfolding check_interface
check_interface_iff none = (λ h i e. absurd (ground (arith, e)), λ h. refl)
check_interface_iff (some iface) =
    let iff = reject_if_iff (not (is_valid_interface_name iface)) _ in
    (
      λ h i e. valid_as iface i e (iff.0 h),
      λ h. iff.1 (not-true (is_valid_interface_name iface) (h iface refl)),
    )

map_error_iff :
    (r : Outcome ScheduleError (Unit {0})) → map_error invalid_schedule r ≡ ok tt → r ≡ ok tt
map_error_iff (ok a) h = refl
map_error_iff (err e) h = absurd (ground (arith, h))

some_injective :
    {s t : FirewallSchedule} → ◌≡◌ {A = Option FirewallSchedule} (some s) (some t) → s ≡ t
some_injective {s} e = ap (λ o. elim o [ none ↦ s | some x ↦ x ]) e

check_schedule_iff :
    (calendar : Calendar) (o : Option FirewallSchedule)
    → (check_schedule calendar o ≡ ok tt)
      ↔ ((s : FirewallSchedule) → o ≡ some s → ScheduleFits calendar s)
unfolding check_schedule
check_schedule_iff calendar none = (λ h s e. absurd (ground (arith, e)), λ h. refl)
check_schedule_iff calendar (some s) =
    let iff = validate_firewall_schedule_iff calendar s in
    (
      λ h t e.
          subst (ScheduleFits calendar) (some_injective e)
            (iff.0 (map_error_iff (validate_firewall_schedule calendar s) h)),
      λ h. rw (iff.1 (h s refl)) refl,
    )

pub record RuleFits (calendar : Calendar) (rule : FirewallRule) (ipv6_enabled : Bool) : Type 0 where
  pub family : FamilyFits rule ipv6_enabled
  pub source : AddressFits rule.ip_family ipv6_enabled rule.source
  pub destination : AddressFits rule.ip_family ipv6_enabled rule.destination
  pub ports : PortsFit rule
  pub interface : InterfaceFits rule.interface
  pub limits : All NotZero (all_limits rule.state_limits)
  pub schedule : (s : FirewallSchedule) → rule.schedule ≡ some s → ScheduleFits calendar s

-- A rule is accepted exactly when its priority is not negative and its action is no jump, its
-- family, its protocol and its addresses fit each other and the IPv6 mode, it has ports only with
-- TCP or UDP, its interface has a valid name, no port and no limit is 0, and its schedule has days
-- from 0 to 6 and times and dates that chrono reads, the first date not after the last.
pub validate_firewall_rule_iff :
    (calendar : Calendar) (rule : FirewallRule) (ipv6_enabled : Bool)
    → (validate_firewall_rule calendar rule ipv6_enabled ≡ ok tt)
      ↔ RuleFits calendar rule ipv6_enabled
unfolding validate_firewall_rule
validate_firewall_rule_iff calendar rule ipv6_enabled =
    let iff =
      both_iff _ _
        (both_iff _ _
          (both_iff _ _
            (both_iff _ _
              (both_iff _ _
                (both_iff _ _ (check_family_iff rule ipv6_enabled)
                  (check_address_iff rule.ip_family ipv6_enabled "source" rule.source))
                (check_address_iff rule.ip_family ipv6_enabled "destination" rule.destination))
              (check_ports_iff rule))
            (check_interface_iff rule.interface))
          (check_limits_iff rule.state_limits))
        (check_schedule_iff calendar rule.schedule) in
    (
      λ h.
          let ((((((family, source), destination), ports), interface), limits), schedule) =
            iff.0 h in
          record {
            family = family;
            source = source;
            destination = destination;
            ports = ports;
            interface = interface;
            limits = limits;
            schedule = schedule;
          },
      λ fits. iff.1 (
        (
          ((((fits.family, fits.source), fits.destination), fits.ports), fits.interface),
          fits.limits,
        ),
        fits.schedule,
      ),
    )
