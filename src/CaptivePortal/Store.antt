-- ===== src/CaptivePortal/Store.antt =====
-- The two files of the captive portal and the ruleset of the firewall:
-- dayshield-core/src/captive_portal.rs.
use dayshield_core.Base.{
  ℕ, Bool, true, false, Option, some, [], if◌then◌else◌, Outcome, ok, err, Stored, missing,
  unreadable, stored,
}
use dayshield_core.Base.Operations.{Operation, ◌>>=◌, ◌>>◌, lift, return, map_err}
use dayshield_core.CaptivePortal.{
  CaptivePortalConfig, default_config, SessionList, CaptivePortalError, storage_error, engine_error,
  panicked, PlusSeconds,
}
use dayshield_core.CaptivePortal.Sessions.{retain_active, active_sessions, prune_expired_sessions}

-- What a ruleset of the firewall was made of: the portal's part of the configuration, and the
-- sessions whose clients it lets through. How the chains follow from the two (whether there is an
-- active portal at all, the walled garden, the bypassed MAC addresses, IPv6) is the matter of the
-- generator.
pub record RulesetInputs : Type 0 where
  pub portal : Stored CaptivePortalConfig
  pub clients : SessionList

-- The portal's part of the configuration file, the session file, and what the ruleset that is in
-- force was made of.
pub record Portal : Type 0 where
  pub config : Stored CaptivePortalConfig
  pub sessions : Stored SessionList
  pub applied : Option RulesetInputs

-- What one operation gets from outside: the readings of the clock, a fresh id, the IPv6 setting
-- where the system settings can be loaded, whether the saves and the firewall succeed, and which
-- ruleset a failure of the firewall leaves in force.
pub record Answers : Type 0 where
  pub clock : ℕ → ℕ
  pub new_id : ℕ
  pub config_saved : Bool
  pub sessions_saved : ℕ → Bool
  pub rules_applied : Bool
  pub ipv6_enabled : Option Bool
  pub applied_on_failure : Option RulesetInputs

abbrev pub Op : Type 0 → Type 0
Op A = Operation CaptivePortalError Portal A

abbrev pub read_config : Stored CaptivePortalConfig → Outcome CaptivePortalError CaptivePortalConfig
read_config missing = ok default_config
read_config unreadable = err storage_error
read_config (stored c) = ok c

-- `load_captive_portal_config` with its default
unfoldable pub load_config : Op CaptivePortalConfig
load_config m = (read_config m.config, m)

-- `save_captive_portal_config`, which loads the whole file first
abbrev pub write_config :
    Bool
    → CaptivePortalConfig
    → Stored CaptivePortalConfig
    → Outcome CaptivePortalError (Unit {0}) × Stored CaptivePortalConfig
write_config works config unreadable = (err storage_error, unreadable)
write_config true config missing = (ok tt, stored config)
write_config true config (stored old) = (ok tt, stored config)
write_config false config file = (err storage_error, file)

unfoldable pub save_config : Bool → CaptivePortalConfig → Op (Unit {0})
save_config works config m =
    let (r, file) = write_config works config m.config in (r, record m { config = file })

abbrev pub read_sessions : Stored SessionList → Outcome CaptivePortalError SessionList
read_sessions missing = ok []
read_sessions unreadable = err storage_error
read_sessions (stored sessions) = ok sessions

abbrev pub read_portal :
    Stored CaptivePortalConfig → Outcome CaptivePortalError (Stored CaptivePortalConfig)
read_portal unreadable = err storage_error
read_portal missing = ok missing
read_portal (stored c) = ok (stored c)

-- the portal's part of `config_store.load`, which there may be or not
unfoldable pub load_portal : Op (Stored CaptivePortalConfig)
load_portal m = (read_portal m.config, m)

unfoldable pub load_sessions : Op SessionList
load_sessions m = (read_sessions m.sessions, m)

unfoldable pub save_sessions : Bool → SessionList → Op (Unit {0})
save_sessions works sessions m =
    if works then (ok tt, record m { sessions = stored sessions }) else (err storage_error, m)

-- the call of `apply_rules_with_captive`, with its two arguments that are the portal's
unfoldable pub apply_rules : Answers → Stored CaptivePortalConfig → SessionList → Op (Unit {0})
apply_rules ans portal active m =
    if ans.rules_applied
    then (ok tt, record m { applied = some (record { portal = portal; clients = active }) })
    else (err engine_error, record m { applied = ans.applied_on_failure })

abbrev as_engine_error : {A : Type 0} → Outcome CaptivePortalError A → Outcome CaptivePortalError A
as_engine_error (ok a) = ok a
as_engine_error (err e) = err engine_error

-- a panic passes through, any other error becomes one of the engine
abbrev nft_error_to_portal_error : CaptivePortalError → CaptivePortalError
nft_error_to_portal_error panicked = panicked
nft_error_to_portal_error e = engine_error

module _ (plus_seconds : PlusSeconds) (ans : Answers) where
  -- the sessions to let through: those of the file, pruned and saved, that are active
  unfoldable pub current_sessions : Stored CaptivePortalConfig → SessionList → Op SessionList
  unfolding prune_expired_sessions retain_active
  current_sessions missing sessions = return []
  current_sessions unreadable sessions = return []
  current_sessions (stored portal) sessions = do
    (kept, fewer) ← lift (prune_expired_sessions plus_seconds portal (ans.clock 1) sessions)
    elim fewer [ true ↦ save_sessions (ans.sessions_saved 1) kept | false ↦ return tt ]
    lift (active_sessions plus_seconds portal (ans.clock 2) kept)

  unfoldable pub apply_current_ruleset_nft : Op (Unit {0})
  unfolding load_portal current_sessions load_sessions apply_rules
  apply_current_ruleset_nft = do
    portal ← load_portal
    sessions ← load_sessions
    active ← current_sessions portal sessions
    apply_rules ans portal active

  unfoldable pub apply_current_ruleset : Op (Unit {0})
  unfolding apply_current_ruleset_nft map_err
  apply_current_ruleset = map_err nft_error_to_portal_error apply_current_ruleset_nft
