-- ===== src/Firewall/Ruleset/DefaultDeny.antt =====
-- Where the default rule of the input chain stands among the rules that
-- dayshield-core/src/engine/nftables/mod.rs emits.
use dayshield_core.Base.{
  pos, int_leb, int_leb_refl, Bool, true, false, not, ◌&&◌, ◌||◌, none, List, [], ◌∷◌, ◌++◌, ◌≡◌,
  refl, ap, sym, ◌∙◌, inl, inr, ◌⊎◌, All, All-IsIn, arith, IsIn, IsIn-append_left,
  IsIn-append_right, IsIn-filter, IsIn-sort_by, IsPlaced, IsIn-IsPlaced, filter,
}
use dayshield_core.Base.Text.{Text, codes}
use dayshield_core.Firewall.{
  FirewallRule, FirewallSettings, is_drop_policy, drop_packet, input, ipv4_ipv6,
}
use mathlib.Core.Path.{subst}
use dayshield_core.Firewall.Validation.{Calendar}
use dayshield_core.Firewall.Schedule.{Now, is_schedule_active}
use dayshield_core.Firewall.System.{RuleKey, system_default_block_rule, filter_dot}
use dayshield_core.Firewall.System.Rules.{
  system_firewall_rules, wan_rules, default_rules, lan_rules, public_dot_rules, management_rules,
}
use dayshield_core.Firewall.Selection.{
  is_emitted, emitted_rules, priority_leb, firewall_rule_uses_ipv6, emitted_rules-IsSelection,
  IsWanted, is_emitted_iff,
}
use dayshield_core.Firewall.Ruleset.Chains.{RulesetInput, settings_of, sorted_rules}

default_rule-IsIn :
    (rule_id : RuleKey → Text) (settings : FirewallSettings)
    → is_drop_policy settings.input_policy ≡ true
    → IsIn (system_default_block_rule rule_id (codes "input")) (default_rules rule_id settings)
unfolding default_rules
default_rule-IsIn rule_id settings h = rw h (inl refl)

or_true : (b : Bool) → b || true ≡ true
or_true true = refl
or_true false = refl

default_rule-is_emitted :
    (rule_id : RuleKey → Text) (calendar : Calendar) (now : Now) (ipv6_enabled : Bool)
    → is_emitted calendar now ipv6_enabled (system_default_block_rule rule_id (codes "input"))
      ≡ true
unfolding is_emitted is_schedule_active firewall_rule_uses_ipv6 system_default_block_rule
default_rule-is_emitted rule_id calendar now ipv6_enabled = or_true ipv6_enabled

-- every packet of the input chain is dropped, whatever its addresses, ports and interface
pub record DropsAll (rule : FirewallRule) : Type 0 where
  pub drops : rule.action ≡ drop_packet
  pub enters : rule.direction ≡ input
  pub any_source : rule.source ≡ none
  pub any_destination : rule.destination ≡ none
  pub any_protocol : rule.protocol ≡ none
  pub any_source_port : rule.source_port ≡ none
  pub any_destination_port : rule.destination_port ≡ none
  pub any_family : rule.ip_family ≡ ipv4_ipv6
  pub any_interface : rule.interface ≡ none
  pub at_any_time : rule.schedule ≡ none
  pub is_enabled : rule.enabled ≡ true

-- A rule that drops everything stands among the rules in the order of the priorities, with 1000000
-- for its own: the user's rules that are to be in force stand ahead of it if their priority is
-- lower, and behind it if it is higher.
pub record IsDenied (wanted : FirewallRule → Type 0) (rules sorted : List FirewallRule)
    : Type 0 where
  pub rule : FirewallRule
  pub drops_all : DropsAll rule
  pub own_priority : rule.priority ≡ pos 1000000
  pub ahead : List FirewallRule
  pub behind : List FirewallRule
  pub whole : sorted ≡ ahead ++ rule ∷ behind
  pub ahead_before : All (λ r. int_leb r.priority (pos 1000000) ≡ true) ahead
  pub behind_after : All (λ r. int_leb (pos 1000000) r.priority ≡ true) behind
  pub lower_ahead :
      (r : FirewallRule)
      → IsIn r rules
      → wanted r
      → int_leb (pos 1000000) r.priority ≡ false
      → IsIn r ahead
  pub higher_behind :
      (r : FirewallRule)
      → IsIn r rules
      → wanted r
      → int_leb r.priority (pos 1000000) ≡ false
      → IsIn r behind

default_rule-DropsAll :
    (rule_id : RuleKey → Text) → DropsAll (system_default_block_rule rule_id (codes "input"))
unfolding system_default_block_rule
default_rule-DropsAll rule_id = record {
  drops = refl;
  enters = refl;
  any_source = refl;
  any_destination = refl;
  any_protocol = refl;
  any_source_port = refl;
  any_destination_port = refl;
  any_family = refl;
  any_interface = refl;
  at_any_time = refl;
  is_enabled = refl;
}

default_rule-priority :
    (rule_id : RuleKey → Text)
    → (system_default_block_rule rule_id (codes "input")).priority ≡ pos 1000000
unfolding system_default_block_rule
default_rule-priority rule_id = refl

-- where a member of a list stands, if it is not in a part of it
not_behind :
    (P : FirewallRule → Type 0) (r x : FirewallRule) (ahead behind : List FirewallRule)
    → All P behind
    → ¬ P r
    → ¬ (r ≡ x)
    → IsIn r (ahead ++ x ∷ behind)
    → IsIn r ahead
not_behind P r x [] behind a n d (inl e) = absurd (d e)
not_behind P r x [] behind a n d (inr i) = absurd (n (All-IsIn P r behind a i))
not_behind P r x (y ∷ ahead) behind a n d (inl e) = inl e
not_behind P r x (y ∷ ahead) behind a n d (inr i) = inr (not_behind P r x ahead behind a n d i)

pub not_ahead :
    (P : FirewallRule → Type 0) (r x : FirewallRule) (ahead behind : List FirewallRule)
    → All P ahead
    → ¬ P r
    → ¬ (r ≡ x)
    → IsIn r (ahead ++ x ∷ behind)
    → IsIn r behind
not_ahead P r x [] behind a n d (inl e) = absurd (d e)
not_ahead P r x [] behind a n d (inr i) = i
not_ahead P r x (y ∷ ahead) behind a n d (inl e) = absurd (n (subst P (sym e) a.0))
not_ahead P r x (y ∷ ahead) behind a n d (inr i) = not_ahead P r x ahead behind a.1 n d i

-- a rule of another priority
pub other_priority :
    (r x : FirewallRule)
    → (int_leb r.priority x.priority ≡ false) ⊎ (int_leb x.priority r.priority ≡ false)
    → ¬ (r ≡ x)
other_priority r x (inl h) e =
    ground (arith, h, ap (λ y. int_leb y.priority x.priority) e, int_leb_refl x.priority)
other_priority r x (inr h) e =
    ground (arith, h, ap (λ y. int_leb x.priority y.priority) e, int_leb_refl x.priority)

placed-IsDenied :
    (wanted : FirewallRule → Type 0) (rules sorted : List FirewallRule) (x : FirewallRule)
    → DropsAll x
    → x.priority ≡ pos 1000000
    → IsPlaced priority_leb x sorted
    → ((r : FirewallRule) → IsIn r rules → wanted r → IsIn r sorted)
    → IsDenied wanted rules sorted
placed-IsDenied wanted rules sorted x drops p placed all_in =
    let Lower : FirewallRule → Type 0 = λ r. int_leb r.priority (pos 1000000) ≡ true in
    let Higher : FirewallRule → Type 0 = λ r. int_leb (pos 1000000) r.priority ≡ true in
    let before =
      subst (λ n. All (λ r. int_leb r.priority n ≡ true) placed.ahead) p placed.ahead_before in
    let after =
      subst (λ n. All (λ r. int_leb n r.priority ≡ true) placed.behind) p placed.behind_after in
    record {
      rule = x;
      drops_all = drops;
      own_priority = p;
      ahead = placed.ahead;
      behind = placed.behind;
      whole = placed.whole;
      ahead_before = before;
      behind_after = after;
      lower_ahead = λ r i w h.
          not_behind Higher r x placed.ahead placed.behind after (λ k. ground (arith, h, k))
            (other_priority r x (inr (ap (λ n. int_leb n r.priority) p ∙ h)))
            (subst (IsIn r) placed.whole (all_in r i w));
      higher_behind = λ r i w h.
          not_ahead Lower r x placed.ahead placed.behind before (λ k. ground (arith, h, k))
            (other_priority r x (inl (ap (λ n. int_leb r.priority n) p ∙ h)))
            (subst (IsIn r) placed.whole (all_in r i w));
    }

-- With a drop policy the emitted rules hold a rule that drops everything that enters, with priority
-- 1000000. They are in the order of the priorities around it, and of the user's rules that are to
-- be in force those of a lower priority number stand ahead of it and those of a higher one behind.
pub sorted_rules-IsDenied :
    (calendar : Calendar) (now : Now) (rule_id : RuleKey → Text) (i : RulesetInput)
    → is_drop_policy (settings_of i.firewall_settings).input_policy ≡ true
    → IsDenied (IsWanted calendar now i.ipv6_enabled) i.rules (sorted_rules calendar now rule_id i)
unfolding sorted_rules emitted_rules system_firewall_rules
sorted_rules-IsDenied calendar now rule_id i h =
    let settings = settings_of i.firewall_settings in
    let rule = system_default_block_rule rule_id (codes "input") in
    let system_rules =
      system_firewall_rules rule_id i.interfaces settings i.system_settings i.dns_port i.dot_config
        i.ipv6_enabled in
    let emits = is_emitted calendar now i.ipv6_enabled in
    let dot = filter_dot (λ dot. dot.enabled && not dot.lan_only) i.dot_config in
    let wan = wan_rules rule_id i.interfaces i.ipv6_enabled in
    let defaults = default_rules rule_id settings in
    let lan = lan_rules rule_id i.interfaces i.dns_port i.dot_config i.ipv6_enabled in
    let public_dot = public_dot_rules rule_id dot i.ipv6_enabled in
    let management = management_rules rule_id settings i.system_settings i.ipv6_enabled in
    let in_defaults = IsIn-append_right rule wan defaults (default_rule-IsIn rule_id settings h) in
    let in_lan = IsIn-append_left rule (wan ++ defaults) lan in_defaults in
    let in_dot = IsIn-append_left rule (wan ++ defaults ++ lan) public_dot in_lan in
    let in_system =
      IsIn-append_left rule (wan ++ defaults ++ lan ++ public_dot) management in_dot in
    let in_all = IsIn-append_left rule system_rules i.rules in_system in
    let in_kept =
      IsIn-filter emits rule (system_rules ++ i.rules)
        (default_rule-is_emitted rule_id calendar now i.ipv6_enabled) in_all in
    placed-IsDenied (IsWanted calendar now i.ipv6_enabled) i.rules
      (emitted_rules calendar now i.ipv6_enabled system_rules i.rules) rule
      (default_rule-DropsAll rule_id) (default_rule-priority rule_id)
      (IsIn-IsPlaced priority_leb rule
        (emitted_rules calendar now i.ipv6_enabled system_rules i.rules)
        (emitted_rules-IsSelection calendar now i.ipv6_enabled system_rules i.rules).by_priority
        (IsIn-sort_by priority_leb rule (filter emits (system_rules ++ i.rules)) in_kept))
      (λ r j w. IsIn-sort_by priority_leb r (filter emits (system_rules ++ i.rules)) (
        IsIn-filter emits r (system_rules ++ i.rules)
          ((is_emitted_iff calendar now i.ipv6_enabled r).1 w)
          (IsIn-append_right r system_rules i.rules j)))
