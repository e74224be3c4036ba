-- ===== src/Firewall/Selection.antt =====
-- Which rules are emitted, and in which order: the first part of
-- generate_ruleset_with_captive_and_interfaces of dayshield-core/src/engine/nftables/mod.rs.
use dayshield_core.Base.{
  ℤ, int_leb, int_leb_total, int_leb_trans, Bool, true, false, not, ◌&&◌, ◌||◌, Option, none, some,
  List, [], ◌∷◌, ◌++◌, ◌≡◌, ◌↔◌, ◌⊎◌, inl, inr, refl, ap, sym, ◌∙◌, filter, arith, sort_by,
  IsOrdered, sort_by-IsOrdered, sort_by-Perm, filter-sort_by, Bool-cases,
}
use mathlib.Core.List.{Perm}
use mathlib.Core.Path.{subst}
use dayshield_core.Base.Text.{Text}
use dayshield_core.Net.Validation.{has_char}
use dayshield_core.Firewall.{
  FirewallRule, FirewallSchedule, FirewallAddressFamily, ipv4, ipv6, ipv4_ipv6, Protocol, tcp, udp,
  icmp, icmpv6, any_protocol, is_ipv6_only, is_icmpv6,
}
use dayshield_core.Firewall.Validation.{Calendar}
use dayshield_core.Firewall.Schedule.{Now, is_schedule_active, IsActive, is_schedule_active_iff}

abbrev pub has_colon : Option Text → Bool
has_colon none = false
has_colon (some value) = has_char b':' value

-- both branches test the addresses and the protocol, the first one the family as well
unfoldable pub firewall_rule_uses_ipv6 : FirewallRule → Bool
firewall_rule_uses_ipv6 rule =
    is_ipv6_only rule.ip_family
    || has_colon rule.source
    || has_colon rule.destination
    || is_icmpv6 rule.protocol

unfoldable pub is_emitted : Calendar → Now → Bool → FirewallRule → Bool
unfolding is_schedule_active firewall_rule_uses_ipv6
is_emitted calendar now ipv6_enabled rule =
    rule.enabled
    && is_schedule_active calendar now rule.schedule
    && (ipv6_enabled || not (firewall_rule_uses_ipv6 rule))

abbrev pub priority_leb : FirewallRule → FirewallRule → Bool
priority_leb r s = int_leb r.priority s.priority

unfoldable pub emitted_rules :
    Calendar → Now → Bool → List FirewallRule → List FirewallRule → List FirewallRule
unfolding is_emitted
emitted_rules calendar now ipv6_enabled system_rules rules =
    sort_by priority_leb (filter (is_emitted calendar now ipv6_enabled) (system_rules ++ rules))

-- Nothing in the rule needs IPv6: neither its family, nor an address, nor its protocol.
pub record IsIpv4 (rule : FirewallRule) : Type 0 where
  pub family : ¬ (rule.ip_family ≡ ipv6)
  pub source : (a : Text) → rule.source ≡ some a → has_char b':' a ≡ false
  pub destination : (a : Text) → rule.destination ≡ some a → has_char b':' a ≡ false
  pub protocol : ¬ (rule.protocol ≡ some icmpv6)

-- The rule is to be in force: it is enabled, its schedule is active if it has one, and it fits the
-- IPv6 mode.
pub record IsWanted (calendar : Calendar) (now : Now) (ipv6_enabled : Bool) (rule : FirewallRule)
    : Type 0 where
  pub is_enabled : rule.enabled ≡ true
  pub in_time : (s : FirewallSchedule) → rule.schedule ≡ some s → IsActive calendar now s
  pub fits_ipv6 : (ipv6_enabled ≡ true) ⊎ IsIpv4 rule

-- The second list is what is left of the first without the elements that do not have P.
pub data Picks {A : Type 0} (P : A → Type 0) : List A → List A → Type 0 where
  none_left : Picks P [] []
  kept : (x : A) {xs ys : List A} → P x → Picks P xs ys → Picks P (x ∷ xs) (x ∷ ys)
  dropped : (x : A) {xs ys : List A} → ¬ P x → Picks P xs ys → Picks P (x ∷ xs) ys

filter-Picks :
    {A : Type 0} (p : A → Bool) (P : A → Type 0)
    → ((x : A) → (p x ≡ true) ↔ P x)
    → (xs : List A) → Picks P xs (filter p xs)
filter-Picks p P iff [] = none_left
filter-Picks p P iff (x ∷ xs) = elim (Bool-cases (p x)) [
  | inl e ↦ rw e (kept x ((iff x).0 e) (filter-Picks p P iff xs))
  | inr e ↦ rw e (dropped x (λ h. ground (arith, e, (iff x).1 h)) (filter-Picks p P iff xs))
]

some_injective : {A : Type 0} {a b : A} → ◌≡◌ {A = Option A} (some a) (some b) → a ≡ b
some_injective {a} e = ap (λ o. elim o [ some x ↦ x | none ↦ a ]) e

has_colon_iff :
    (o : Option Text) → (has_colon o ≡ false) ↔ ((a : Text) → o ≡ some a → has_char b':' a ≡ false)
has_colon_iff none = (λ h a e. absurd (ground (arith, e)), λ h. refl)
has_colon_iff (some t) = (λ h a e. ap (has_char b':') (sym (some_injective e)) ∙ h, λ h. h t refl)

family_iff : (f : FirewallAddressFamily) → (is_ipv6_only f ≡ false) ↔ ¬ (f ≡ ipv6)
family_iff ipv4 = (λ h e. ground (arith, e), λ h. refl)
family_iff ipv6 = (λ h. absurd (ground (arith, h)), λ h. absurd (h refl))
family_iff ipv4_ipv6 = (λ h e. ground (arith, e), λ h. refl)

protocol_iff : (o : Option Protocol) → (is_icmpv6 o ≡ false) ↔ ¬ (o ≡ some icmpv6)
protocol_iff none = (λ h e. ground (arith, e), λ h. refl)
protocol_iff (some tcp) = (λ h e. ground (arith, e), λ h. refl)
protocol_iff (some udp) = (λ h e. ground (arith, e), λ h. refl)
protocol_iff (some icmp) = (λ h e. ground (arith, e), λ h. refl)
protocol_iff (some icmpv6) = (λ h. absurd (ground (arith, h)), λ h. absurd (h refl))
protocol_iff (some any_protocol) = (λ h e. ground (arith, e), λ h. refl)

uses_ipv6_iff : (rule : FirewallRule) → (firewall_rule_uses_ipv6 rule ≡ false) ↔ IsIpv4 rule
unfolding firewall_rule_uses_ipv6
uses_ipv6_iff rule = (
  λ h. record {
    family = (family_iff rule.ip_family).0 (ground (arith, h));
    source = (has_colon_iff rule.source).0 (ground (arith, h));
    destination = (has_colon_iff rule.destination).0 (ground (arith, h));
    protocol = (protocol_iff rule.protocol).0 (ground (arith, h));
  },
  λ h. ground (
    arith,
    (family_iff rule.ip_family).1 h.family,
    (has_colon_iff rule.source).1 h.source,
    (has_colon_iff rule.destination).1 h.destination,
    (protocol_iff rule.protocol).1 h.protocol,
  ),
)

schedule_iff :
    (calendar : Calendar) (now : Now) (o : Option FirewallSchedule)
    → (is_schedule_active calendar now o ≡ true)
      ↔ ((s : FirewallSchedule) → o ≡ some s → IsActive calendar now s)
unfolding is_schedule_active
schedule_iff calendar now none = (λ h s e. absurd (ground (arith, e)), λ h. refl)
schedule_iff calendar now (some t) = (
  λ h s e.
      subst (IsActive calendar now) (some_injective e)
        ((is_schedule_active_iff calendar now t).0 h),
  λ h. (is_schedule_active_iff calendar now t).1 (h t refl),
)

pub is_emitted_iff :
    (calendar : Calendar) (now : Now) (ipv6_enabled : Bool) (rule : FirewallRule)
    → (is_emitted calendar now ipv6_enabled rule ≡ true) ↔ IsWanted calendar now ipv6_enabled rule
unfolding is_emitted
is_emitted_iff calendar now ipv6_enabled rule = (
  λ h. record {
    is_enabled = ground (arith, h);
    in_time = (schedule_iff calendar now rule.schedule).0 (ground (arith, h));
    fits_ipv6 = elim (Bool-cases ipv6_enabled) [
      | inl e ↦ inl e
      | inr e ↦ inr ((uses_ipv6_iff rule).0 (ground (arith, h, e)))
    ];
  },
  λ h. elim h.fits_ipv6 [
    | inl e ↦ ground (arith, h.is_enabled, (schedule_iff calendar now rule.schedule).1 h.in_time, e)
    | inr k ↦ ground (
      arith,
      h.is_enabled,
      (schedule_iff calendar now rule.schedule).1 h.in_time,
      (uses_ipv6_iff rule).1 k,
    )
  ],
)

-- The rules of a list that are to be in force, each as often as it is given, in ascending priority,
-- and in the given order where the priorities are equal.
pub record IsSelection (calendar : Calendar) (now : Now) (ipv6_enabled : Bool)
    (given chosen : List FirewallRule) : Type 0 where
  pub wanted : List FirewallRule
  pub picks : Picks (IsWanted calendar now ipv6_enabled) given wanted
  pub same_rules : Perm chosen wanted
  pub by_priority : IsOrdered (λ r s. int_leb r.priority s.priority) chosen
  pub keeps_ties :
      (p : ℤ)
      → filter (λ r. int_leb r.priority p && int_leb p r.priority) chosen
        ≡ filter (λ r. int_leb r.priority p && int_leb p r.priority) wanted

-- two priorities that equal a third may stand in either order
equal_leb :
    (p a b : ℤ)
    → int_leb a p && int_leb p a ≡ true
    → int_leb b p && int_leb p b ≡ true
    → int_leb a b ≡ true
equal_leb p a b h k = int_leb_trans a p b (ground (arith, h)) (ground (arith, k))

-- The rules that are emitted are those that are enabled, whose schedule is active and that need no
-- IPv6 unless it is enabled, of the rules of the system and then of the user: each exactly as often
-- as it is given, in ascending priority, and in the given order where the priorities are equal.
pub emitted_rules-IsSelection :
    (calendar : Calendar) (now : Now) (ipv6_enabled : Bool) (system_rules rules : List FirewallRule)
    → IsSelection calendar now ipv6_enabled
        (system_rules ++ rules)
        (emitted_rules calendar now ipv6_enabled system_rules rules)
unfolding emitted_rules
emitted_rules-IsSelection calendar now ipv6_enabled system_rules rules =
    let kept = filter (is_emitted calendar now ipv6_enabled) (system_rules ++ rules) in
    record {
      wanted = kept;
      picks =
          filter-Picks (is_emitted calendar now ipv6_enabled) (IsWanted calendar now ipv6_enabled)
            (is_emitted_iff calendar now ipv6_enabled) (system_rules ++ rules);
      same_rules = sort_by-Perm priority_leb kept;
      by_priority =
          sort_by-IsOrdered priority_leb (λ a b. int_leb_total a.priority b.priority)
            (λ a b c. int_leb_trans a.priority b.priority c.priority) kept;
      keeps_ties = λ p.
          filter-sort_by priority_leb (λ r. int_leb r.priority p && int_leb p r.priority)
            (λ a b. equal_leb p a.priority b.priority) kept;
    }
