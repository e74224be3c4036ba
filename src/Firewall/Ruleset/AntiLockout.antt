-- ===== src/Firewall/Ruleset/AntiLockout.antt =====
-- Where the anti-lockout rules stand among the rules that dayshield-core/src/engine/nftables/mod.rs
-- emits.
use dayshield_core.Base.{ℕ, negsuc, int_leb, Bool, true, false, List, ◌∷◌, ◌++◌, ◌≡◌, All, IsIn}
use dayshield_core.Base.Text.{Text}
use dayshield_core.Firewall.{FirewallRule, FirewallSettings}
use dayshield_core.Firewall.System.Access.{IsOpen}

-- A rule that accepts the port stands among the rules in the order of the priorities, with -150 for
-- its own, and the user's rules of a higher priority number that are to be in force stand behind it.
pub record IsReachable (settings : FirewallSettings) (ipv6_enabled : Bool) (port : ℕ)
    (wanted : FirewallRule → Type 0) (rules sorted : List FirewallRule) : Type 0 where
  pub rule : FirewallRule
  pub opens : IsOpen settings ipv6_enabled port rule
  pub own_priority : rule.priority ≡ negsuc 149
  pub ahead : List FirewallRule
  pub behind : List FirewallRule
  pub whole : sorted ≡ ahead ++ rule ∷ behind
  pub ahead_before : All (λ r. int_leb r.priority (negsuc 149) ≡ true) ahead
  pub higher_behind :
      (r : FirewallRule)
      → IsIn r rules
      → wanted r
      → int_leb r.priority (negsuc 149) ≡ false
      → IsIn r behind
