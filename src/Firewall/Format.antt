-- ===== src/Firewall/Format.antt =====
-- The text of one rule: format_rule of dayshield-core/src/engine/nftables/mod.rs with its helpers.
use dayshield_core.Base.{
  ℕ, ◌+◌, ◌-◌, ◌/◌, Bool, true, false, ◌&&◌, ◌||◌, Option, none, some, List, [], ◌∷◌, ◌++◌, map,
  if◌then◌else◌, ◌==◌, to_text,
}
use dayshield_core.Base.Text.{Text, codes}
use dayshield_core.Net.Validation.{is_some, has_char}
use dayshield_core.Firewall.{
  Protocol, tcp, udp, icmp, icmpv6, any_protocol, Action, accept, drop_packet, reject, jump,
  log_packet, FirewallChainPolicy, policy_drop, policy_accept, LogPosition, FirewallDirection,
  input, forward, output, both, FirewallAddressFamily, ipv4, ipv6, ipv4_ipv6, FirewallRule,
  is_before,
}

pub data FilterChain : Type 0 where
  input_chain forward_chain output_chain : FilterChain

abbrev pub default_block_log_rate_per_second : ℕ
default_block_log_rate_per_second = 10

abbrev pub default_block_log_burst_packets : ℕ
default_block_log_burst_packets = 20

-- `parts.join(sep)`
abbrev pub join_parts : Text → List Text → Text
join_parts sep [] = []
join_parts sep (p ∷ []) = p
join_parts sep (p ∷ q ∷ ps) = p ++ sep ++ join_parts sep (q ∷ ps)

-- a part that is there when the value is
abbrev pub part : {A : Type 0} → Option A → (A → Text) → List Text
part none f = []
part (some a) f = f a ∷ []

abbrev pub chain_policy_str : FirewallChainPolicy → Text
chain_policy_str policy_drop = codes "drop"
chain_policy_str policy_accept = codes "accept"

abbrev pub replace_hyphens : Text → Text
replace_hyphens [] = []
replace_hyphens (c ∷ s) = (if c == b'-' then b'_' else c) ∷ replace_hyphens s

unfoldable pub counter_name : Text → Text
counter_name id = codes "ds_" ++ replace_hyphens id

abbrev pub action_label : Action → Text
action_label accept = codes "ACCEPT"
action_label drop_packet = codes "DROP"
action_label jump = codes "DROP"
action_label reject = codes "REJECT"
action_label log_packet = codes "LOG"

unfoldable pub firewall_log_prefix : FirewallRule → Text
firewall_log_prefix rule = action_label rule.action ++ codes " dayshield[" ++ rule.id ++ codes "]: "

-- `count.div_ceil(window)`
abbrev pub div_ceil : ℕ → ℕ → ℕ
div_ceil a b = (a + (b - 1)) / b

unfoldable pub nft_rate : ℕ → ℕ → Text
unfolding to_text
nft_rate count seconds =
    if seconds == 0 || seconds == 1
    then to_text count ++ codes "/second"
    else (if seconds == 60
        then to_text count ++ codes "/minute"
        else (if seconds == 3600
            then to_text count ++ codes "/hour"
            else (if seconds == 86400
                then to_text count ++ codes "/day"
                else to_text (div_ceil count seconds) ++ codes "/second")))

abbrev pub is_input : FilterChain → Bool
is_input input_chain = true
is_input c = false

abbrev pub is_forward : FilterChain → Bool
is_forward forward_chain = true
is_forward c = false

abbrev pub is_output : FilterChain → Bool
is_output output_chain = true
is_output c = false

abbrev pub direction_targets : FirewallDirection → FilterChain → Bool
direction_targets input chain = is_input chain
direction_targets forward chain = is_forward chain
direction_targets output chain = is_output chain
direction_targets both chain = is_input chain || is_output chain

unfoldable pub rule_targets_chain : FirewallRule → FilterChain → Bool
rule_targets_chain rule chain = direction_targets rule.direction chain

abbrev pub protocol_name : Option Protocol → Option Text
protocol_name none = none
protocol_name (some tcp) = some (codes "tcp")
protocol_name (some udp) = some (codes "udp")
protocol_name (some icmp) = some (codes "icmp")
protocol_name (some icmpv6) = some (codes "icmpv6")
protocol_name (some any_protocol) = none

abbrev pub family_part : FirewallAddressFamily → List Text
family_part ipv4 = codes "meta nfproto ipv4" ∷ []
family_part ipv6 = codes "meta nfproto ipv6" ∷ []
family_part ipv4_ipv6 = []

abbrev pub address_part : Text → Text → Text
address_part key addr = (if has_char b':' addr then codes "ip6 " else codes "ip ") ++ key ++ addr

abbrev pub interface_part : FilterChain → Text → Text
interface_part chain iif =
    (if is_output chain then codes "oifname \"" else codes "iifname \"") ++ iif ++ codes "\""

unfoldable pub port_part : Option Text → Text → Option ℕ → List Text
unfolding to_text
port_part (some p) key (some port) = (p ++ key ++ to_text port) ∷ []
port_part p key port = []

-- the parts that select the packets
unfoldable pub match_parts : FirewallRule → FilterChain → List Text
unfolding to_text
match_parts rule chain =
    let proto = protocol_name rule.protocol in
    part rule.interface (interface_part chain)
    ++ family_part rule.ip_family
    ++ part rule.source (address_part (codes "saddr "))
    ++ part rule.destination (address_part (codes "daddr "))
    ++ (if is_some rule.source_port || is_some rule.destination_port
        then []
        else part proto (λ p. codes "meta l4proto " ++ p))
    ++ port_part proto (codes " sport ") rule.source_port
    ++ port_part proto (codes " dport ") rule.destination_port

abbrev pub unwrap_or_one : Option ℕ → ℕ
unwrap_or_one none = 1
unwrap_or_one (some n) = n

abbrev pub takes_limit : Action → Bool
takes_limit accept = true
takes_limit log_packet = true
takes_limit a = false

-- the limit of new connections of a rule that lets packets pass
unfoldable pub limit_parts : FirewallRule → List Text
unfolding nft_rate
limit_parts rule = elim rule.state_limits.max_new_connections [
  | none ↦ []
  | some rate ↦
      if takes_limit rule.action
      then codes "ct state new"
        ∷ (codes "limit rate "
            ++ nft_rate rate (unwrap_or_one rule.state_limits.max_new_connections_seconds))
        ∷ []
      else []
]

abbrev pub is_terminal : Action → Bool
is_terminal drop_packet = true
is_terminal reject = true
is_terminal jump = true
is_terminal a = false

abbrev pub is_log : Action → Bool
is_log log_packet = true
is_log a = false

unfoldable pub should_log : FirewallRule → LogPosition → Bool
should_log rule log_position =
    is_log rule.action || rule.log && (is_before log_position || is_terminal rule.action)

abbrev pub verdict : Action → Option Text
verdict accept = some (codes "accept")
verdict drop_packet = some (codes "drop")
verdict reject = some (codes "reject")
verdict jump = some (codes "drop")
verdict log_packet = none

unfoldable pub log_part : FirewallRule → Text
unfolding firewall_log_prefix
log_part rule = codes "log prefix \"" ++ firewall_log_prefix rule ++ codes "\""

unfoldable pub verdict_parts : FirewallRule → List Text
unfolding counter_name
verdict_parts rule =
    (codes "counter name \"" ++ counter_name rule.id ++ codes "\"")
    ∷ part (verdict rule.action) (λ v. v)

unfoldable pub log_limit : Text
unfolding to_text
log_limit =
    codes "limit rate "
    ++ to_text default_block_log_rate_per_second
    ++ codes "/second burst "
    ++ to_text default_block_log_burst_packets
    ++ codes " packets"

-- the lines of a rule, each the parts that stand on it: a logged drop has its log statement on a
-- line of its own
unfoldable pub rule_lines : FirewallRule → FilterChain → LogPosition → List (List Text)
unfolding match_parts limit_parts should_log log_limit log_part verdict_parts
rule_lines rule chain log_position =
    let parts = match_parts rule chain ++ limit_parts rule in
    if should_log rule log_position && is_terminal rule.action
    then (parts ++ log_limit ∷ log_part rule ∷ []) ∷ (parts ++ verdict_parts rule) ∷ []
    else (parts
        ++ (if should_log rule log_position then log_part rule ∷ [] else [])
        ++ verdict_parts rule)
      ∷ []

unfoldable pub format_rule : FirewallRule → FilterChain → LogPosition → Text
unfolding rule_lines
format_rule rule chain log_position =
    join_parts (codes "\n        ")
      (map (join_parts (codes " ")) (rule_lines rule chain log_position))
