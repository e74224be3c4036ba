-- ===== src/Firewall/Ruleset/Statements.antt =====
-- The lines of format_rule of dayshield-core/src/engine/nftables/mod.rs hold one statement each.
use dayshield_core.Base.{
  ℕ, ◌≤◌, Bool, true, false, ◌&&◌, ◌||◌, some, List, [], ◌∷◌, ◌++◌, map, ◌≡◌, refl, inl, inr,
  if◌then◌else◌, ◌==◌, All, length, arith, Option-cases, to_text, ok,
}
use dayshield_core.Base.Text.{Text, codes}
use dayshield_core.Firewall.{
  FirewallRule, Action, accept, drop_packet, reject, jump, log_packet, LogPosition,
}
use dayshield_core.Firewall.Validation.{Calendar, validate_firewall_rule}
use dayshield_core.Firewall.Validity.Rules.{validate_firewall_rule_iff}
use dayshield_core.Firewall.Format.{
  FilterChain, join_parts, part, match_parts, limit_parts, log_limit, log_part, verdict_parts,
  rule_lines, format_rule, counter_name, firewall_log_prefix, nft_rate, should_log, is_terminal,
  unwrap_or_one, takes_limit, verdict, replace_hyphens, action_label, div_ceil,
}
use dayshield_core.Firewall.Ruleset.Injection.{
  is_plain, IsPlain, IsWord, IsWord-IsPlain, interface-IsWord, address-IsWord, AllPlain,
  IsPlain-append, IsPlain-if, to_text-IsPlain, All-append, join-IsPlain, match_parts_plain,
}

replace-IsPlain : (id : Text) → IsPlain id → IsPlain (replace_hyphens id)
unfolding is_plain
replace-IsPlain [] h = refl
replace-IsPlain (c ∷ s) h = ground (arith, replace-IsPlain s)

counter-IsPlain : (id : Text) → IsPlain id → IsPlain (counter_name id)
unfolding counter_name is_plain
counter-IsPlain id h = IsPlain-append (codes "ds_") (replace_hyphens id) refl (replace-IsPlain id h)

label-IsPlain : (a : Action) → IsPlain (action_label a)
unfolding is_plain
label-IsPlain accept = refl
label-IsPlain drop_packet = refl
label-IsPlain reject = refl
label-IsPlain jump = refl
label-IsPlain log_packet = refl

log_part-IsPlain : (rule : FirewallRule) → IsPlain rule.id → IsPlain (log_part rule)
unfolding log_part firewall_log_prefix is_plain
log_part-IsPlain rule h =
    let label = label-IsPlain rule.action in
    let name = action_label rule.action ++ codes " dayshield[" in
    let opened = IsPlain-append (action_label rule.action) (codes " dayshield[") label refl in
    let with_id = IsPlain-append name rule.id opened h in
    let prefix = IsPlain-append (name ++ rule.id) (codes "]: ") with_id refl in
    let whole =
      IsPlain-append (codes "log prefix \"") (name ++ rule.id ++ codes "]: ") refl prefix in
    IsPlain-append (codes "log prefix \"" ++ (name ++ rule.id ++ codes "]: ")) (codes "\"") whole
      refl

verdict_plain : (a : Action) → AllPlain (part (verdict a) (λ v. v))
unfolding is_plain
verdict_plain accept = (refl, tt)
verdict_plain drop_packet = (refl, tt)
verdict_plain reject = (refl, tt)
verdict_plain jump = (refl, tt)
verdict_plain log_packet = tt

verdict_parts_plain : (rule : FirewallRule) → IsPlain rule.id → AllPlain (verdict_parts rule)
unfolding verdict_parts is_plain
verdict_parts_plain rule h = (
  IsPlain-append (codes "counter name \"" ++ counter_name rule.id) (codes "\"")
      (IsPlain-append (codes "counter name \"") (counter_name rule.id) refl
        (counter-IsPlain rule.id h))
      refl,
  verdict_plain rule.action,
)

per-IsPlain : (n : ℕ) (unit : Text) → IsPlain unit → IsPlain (to_text n ++ unit)
per-IsPlain n unit h = IsPlain-append (to_text n) unit (to_text-IsPlain n) h

nft_rate-IsPlain : (count seconds : ℕ) → IsPlain (nft_rate count seconds)
unfolding nft_rate is_plain
nft_rate-IsPlain count seconds =
    let by_window = to_text (div_ceil count seconds) ++ codes "/second" in
    let day = to_text count ++ codes "/day" in
    let hour = to_text count ++ codes "/hour" in
    let minute = to_text count ++ codes "/minute" in
    let plain_day =
      IsPlain-if (seconds == 86400) day by_window (per-IsPlain count _ refl)
        (per-IsPlain (div_ceil count seconds) _ refl) in
    let plain_hour =
      IsPlain-if (seconds == 3600) hour (if seconds == 86400 then day else by_window)
        (per-IsPlain count _ refl) plain_day in
    let plain_minute =
      IsPlain-if (seconds == 60) minute
        (if seconds == 3600 then hour else (if seconds == 86400 then day else by_window))
        (per-IsPlain count _ refl) plain_hour in
    IsPlain-if (seconds == 0 || seconds == 1) (to_text count ++ codes "/second")
      (if seconds == 60
        then minute
        else (if seconds == 3600 then hour else (if seconds == 86400 then day else by_window)))
      (per-IsPlain count _ refl) plain_minute

plain_list_if : (b : Bool) (ps : List Text) → AllPlain ps → AllPlain (if b then ps else [])
plain_list_if true ps h = h
plain_list_if false ps h = tt

limit_parts_plain : (rule : FirewallRule) → AllPlain (limit_parts rule)
unfolding limit_parts is_plain
limit_parts_plain rule = elim (Option-cases rule.state_limits.max_new_connections) [
  | inl e ↦ rw e tt
  | inr (rate, e) ↦
      let seconds = unwrap_or_one rule.state_limits.max_new_connections_seconds in
      rw e (
        plain_list_if (takes_limit rule.action)
          (codes "ct state new" ∷ (codes "limit rate " ++ nft_rate rate seconds) ∷ [])
          (
            refl,
            (
              IsPlain-append (codes "limit rate ") (nft_rate rate seconds) refl
                  (nft_rate-IsPlain rate seconds),
              tt,
            ),
          ))
]

log_limit-IsPlain : IsPlain log_limit
unfolding log_limit is_plain to_text
log_limit-IsPlain = refl

-- The lines that a rule is written on, and the user's values that they are made of: the interface
-- and the addresses.
pub record IsStatement (rule : FirewallRule) (written : Text) (lines : List Text) : Type 0 where
  pub whole : written ≡ join_parts (codes "\n        ") lines
  pub at_most_two : length lines ≤ 2
  pub plain : All IsPlain lines
  pub interface : (v : Text) → rule.interface ≡ some v → IsWord v
  pub source : (v : Text) → rule.source ≡ some v → IsWord v
  pub destination : (v : Text) → rule.destination ≡ some v → IsWord v

one_line : (parts : List Text) → AllPlain parts → IsPlain (join_parts (codes " ") parts)
unfolding is_plain
one_line parts h = join-IsPlain (codes " ") parts refl h

log_parts_plain :
    (b : Bool) (rule : FirewallRule)
    → IsPlain rule.id
    → AllPlain (if b then log_part rule ∷ [] else [])
log_parts_plain b rule h = plain_list_if b (log_part rule ∷ []) (log_part-IsPlain rule h, tt)

lines-IsPlain :
    (b : Bool) (x y z : List Text)
    → AllPlain x
    → AllPlain y
    → AllPlain z
    → (length (map (join_parts (codes " ")) (if b then x ∷ y ∷ [] else z ∷ [])) ≤ 2)
      × All IsPlain (map (join_parts (codes " ")) (if b then x ∷ y ∷ [] else z ∷ []))
lines-IsPlain true x y z h i j = (omega arith, (one_line x h, (one_line y i, tt)))
lines-IsPlain false x y z h i j = (omega arith, (one_line z j, tt))

-- A rule that the validation accepts, and whose id is one word of letters, digits, `.`, `:`, `/`,
-- `-`, `_` and `+`, is written on one line or two, and no line has a character that ends a statement
-- or opens a block or a comment. The interface, the source and the destination of the rule are such
-- words as well, where it has them: no white space and no quote is in them.
pub format_rule-IsStatement :
    (calendar : Calendar) (rule : FirewallRule) (ipv6_enabled : Bool) (chain : FilterChain)
    (log_position : LogPosition)
    → validate_firewall_rule calendar rule ipv6_enabled ≡ ok tt
    → IsWord rule.id
    → IsStatement rule
        (format_rule rule chain log_position)
        (map (join_parts (codes " ")) (rule_lines rule chain log_position))
unfolding format_rule rule_lines
format_rule-IsStatement calendar rule ipv6_enabled chain log_position accepted word =
    let id = IsWord-IsPlain rule.id word in
    let fits = (validate_firewall_rule_iff calendar rule ipv6_enabled).0 accepted in
    let parts = match_parts rule chain ++ limit_parts rule in
    let plain =
      All-append (match_parts rule chain) (limit_parts rule)
        (match_parts_plain calendar rule ipv6_enabled chain fits) (limit_parts_plain rule) in
    let logs = should_log rule log_position in
    let logged = if logs then log_part rule ∷ [] else [] in
    let (two, each) =
      lines-IsPlain (logs && is_terminal rule.action) (parts ++ log_limit ∷ log_part rule ∷ [])
        (parts ++ verdict_parts rule) (parts ++ logged ++ verdict_parts rule)
        (All-append parts (log_limit ∷ log_part rule ∷ []) plain
          (log_limit-IsPlain, (log_part-IsPlain rule id, tt)))
        (All-append parts (verdict_parts rule) plain (verdict_parts_plain rule id))
        (All-append (parts ++ logged) (verdict_parts rule)
          (All-append parts logged plain (log_parts_plain logs rule id))
          (verdict_parts_plain rule id)) in
    record {
      whole = refl;
      at_most_two = two;
      plain = each;
      interface = interface-IsWord rule.interface fits.interface;
      source = address-IsWord rule.ip_family ipv6_enabled rule.source fits.source;
      destination = address-IsWord rule.ip_family ipv6_enabled rule.destination fits.destination;
    }
