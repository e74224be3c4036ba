-- ===== src/Firewall/Nat/Table.antt =====
-- The NAT tables: generate_nat_table of dayshield-core/src/engine/nftables/mod.rs. A table is the
-- pieces of text that are pushed.
use dayshield_core.Base.{
  int_leb, Bool, true, false, not, ◌&&◌, ◌||◌, Option, none, some, List, [], ◌∷◌, ◌++◌, map, filter,
  if◌then◌else◌, sort_by, isnt_empty,
}
use dayshield_core.Base.Text.{Text, codes}
use dayshield_core.Firewall.{LogPosition, is_before}
use dayshield_core.Firewall.System.{concat}
use dayshield_core.Firewall.Nat.{
  NatRule, NatConfig, dnat, OutboundMode, automatic, manual, AddressFamily, family4, family6,
  same_family,
}
use dayshield_core.Firewall.Nat.Format.{
  nft_table_family, format_nat_prerouting, format_nat_postrouting, format_nat_output,
}

abbrev pub nat_priority_leb : NatRule → NatRule → Bool
nat_priority_leb r s = int_leb r.priority s.priority

abbrev pub is_dnat : NatRule → Bool
is_dnat r = elim r.rule_type [ dnat ↦ true | _ ↦ false ]

abbrev pub is_source_nat : NatRule → Bool
is_source_nat r = not (is_dnat r)

abbrev pub is_auto : OutboundMode → Bool
is_auto manual = false
is_auto m = true

abbrev pub is_user : OutboundMode → Bool
is_user automatic = false
is_user m = true

-- the rules of a family in the order of their priorities
unfoldable pub family_rules : NatConfig → AddressFamily → List NatRule
family_rules config family =
    sort_by nat_priority_leb
      (filter (λ r. r.enabled && same_family r.address_family family) config.rules)

abbrev pub formatted : Option Text → List Text
formatted none = []
formatted (some line) = (codes "        " ++ line ++ codes "\n") ∷ []

abbrev log_line : LogPosition → NatRule → List Text
log_line log_position rule =
    if rule.log && is_before log_position
    then (codes "        log prefix \"dayshield-nat[" ++ rule.id ++ codes "]: \"\n") ∷ []
    else []

abbrev pub auto_line : Text → Text
auto_line iface = codes "        oifname \"" ++ iface ++ codes "\" masquerade\n"

unfoldable pub postrouting_chain : NatConfig → LogPosition → List NatRule → Bool → Bool → List Text
unfolding format_nat_postrouting
postrouting_chain config log_position user_rules has_auto emit_user =
    codes "    chain postrouting {\n"
      ∷ codes "        type nat hook postrouting priority srcnat; policy accept;\n"
      ∷ (if has_auto then map auto_line config.wan_interfaces else [])
    ++ (if emit_user
        then concat
            (map (λ r. log_line log_position r ++ formatted (format_nat_postrouting r)) user_rules)
        else [])
    ++ codes "    }\n\n" ∷ []

unfoldable pub prerouting_chain : LogPosition → List NatRule → List Text
unfolding format_nat_prerouting
prerouting_chain log_position rules =
    codes "    chain prerouting {\n"
      ∷ codes "        type nat hook prerouting priority dstnat; policy accept;\n"
      ∷ concat (map (λ r. log_line log_position r ++ formatted (format_nat_prerouting r)) rules)
    ++ codes "    }\n\n" ∷ []

unfoldable pub reflection_chain : List NatRule → List Text
unfolding format_nat_output
reflection_chain rules =
    codes "    chain output {\n"
      ∷ codes "        type nat hook output priority -100; policy accept;\n"
      ∷ concat (map (λ r. formatted (format_nat_output r)) rules)
    ++ codes "    }\n" ∷ []

unfoldable pub generate_nat_table_for_family : NatConfig → LogPosition → AddressFamily → List Text
unfolding family_rules postrouting_chain prerouting_chain reflection_chain
generate_nat_table_for_family config log_position family =
    let sorted = family_rules config family in
    let has_auto_masquerade = is_auto config.outbound_mode && isnt_empty config.wan_interfaces in
    let user_postrouting = filter is_source_nat sorted in
    let emit_user_postrouting = is_user config.outbound_mode && isnt_empty user_postrouting in
    let prerouting_rules = filter is_dnat sorted in
    let reflection_rules =
      filter (λ r. is_dnat r && (r.nat_reflection || config.nat_reflection)) sorted in
    let has_postrouting = has_auto_masquerade || emit_user_postrouting in
    if not has_postrouting && not (isnt_empty prerouting_rules) && not (isnt_empty reflection_rules)
    then []
    else (codes "\ntable " ++ nft_table_family family ++ codes " nat {\n")
        ∷ (if has_postrouting
            then postrouting_chain config log_position user_postrouting has_auto_masquerade
                emit_user_postrouting
            else [])
      ++ (if isnt_empty prerouting_rules
          then prerouting_chain log_position prerouting_rules
          else [])
      ++ (if isnt_empty reflection_rules then reflection_chain reflection_rules else [])
      ++ codes "}\n" ∷ []

unfoldable pub generate_nat_table : NatConfig → LogPosition → Bool → List Text
unfolding generate_nat_table_for_family
generate_nat_table config log_position ipv6_enabled =
    generate_nat_table_for_family config log_position family4
    ++ (if ipv6_enabled then generate_nat_table_for_family config log_position family6 else [])
