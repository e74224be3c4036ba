-- ===== src/CaptivePortal/Handlers.antt =====
-- The handlers of the captive portal: dayshield-core/src/captive_portal.rs.
use dayshield_core.Base.{
  ℕ, Bool, true, false, not, ◌&&◌, Option, none, some, [], ◌∷◌, ◌++◌, map, take, if◌then◌else◌, ltb,
  ◌==◌, length, filter, Outcome, ok, err, missing, unreadable, stored, Stored, reject_if,
}
use dayshield_core.Base.Operations.{◌>>=◌, ◌>>◌, lift, return}
use dayshield_core.Base.Text.{Text, text_eq, is_empty, trim, to_ascii_lowercase}
use dayshield_core.Net.Validation.{is_valid_ip, is_valid_mac}
use dayshield_core.CaptivePortal.{
  CaptivePortalConfig, CaptivePortalSession, SessionList, CaptivePortalError, validation_failed,
  invalid_config, PortalConfigError, storage_error, forbidden, not_found, panicked, PlusSeconds,
}
use dayshield_core.CaptivePortal.Config.{normalize_config, validate_captive_portal_config_with_ipv6}
use dayshield_core.CaptivePortal.Sessions.{
  chrono_seconds, session_is_active, prune_expired_sessions,
}
use dayshield_core.CaptivePortal.Vouchers.{redeem_voucher}
use dayshield_core.CaptivePortal.Store.{
  Answers, Op, load_config, save_config, load_sessions, save_sessions, apply_current_ruleset,
}

-- the remote address of a connection
pub record Peer : Type 0 where
  pub is_unspecified : Bool
  pub address : Text

pub record AuthorizePortalRequest : Type 0 where
  pub voucher_code : Option Text
  pub accept_terms : Bool
  pub client_ip : Option Text
  pub client_mac : Option Text

pub record CreateSessionRequest : Type 0 where
  pub client_ip : Text
  pub client_mac : Option Text
  pub ttl_seconds : Option ℕ

abbrev fallback_ip : Option Text → Outcome CaptivePortalError Text
fallback_ip none = err (validation_failed "could not determine client IP address")
fallback_ip (some value) =
    if is_empty (trim value)
    then err (validation_failed "could not determine client IP address")
    else (if is_valid_ip (trim value)
        then ok (trim value)
        else err (validation_failed "clientIp must be a valid IP address"))

abbrev pub client_ip : Peer → Option Text → Outcome CaptivePortalError Text
client_ip peer fallback = if not peer.is_unspecified then ok peer.address else fallback_ip fallback

abbrev pub check_mac : Option Text → Outcome CaptivePortalError (Unit {0})
check_mac none = ok tt
check_mac (some mac) =
    reject_if (not (is_valid_mac mac)) (validation_failed "clientMac must be a valid MAC address")

abbrev normalize_mac : Option Text → Option Text
normalize_mac none = none
normalize_mac (some mac) = some (map to_ascii_lowercase (trim mac))

abbrev pub without_ip : Text → SessionList → SessionList
without_ip ip sessions = filter (λ s. not (text_eq s.client_ip ip)) sessions

abbrev truncate_user_agent : Option Text → Option Text
truncate_user_agent none = none
truncate_user_agent (some agent) = some (take 240 agent)

unfoldable pub admit_client : Peer → AuthorizePortalRequest → Outcome CaptivePortalError Text
unfolding is_valid_ip is_valid_mac trim
admit_client peer req = elim (client_ip peer req.client_ip) [
  | err e ↦ err e
  | ok ip ↦ elim (check_mac req.client_mac) [ err e ↦ err e | ok u ↦ ok ip ]
]

-- the checks before a voucher is redeemed
unfoldable pub admit :
    CaptivePortalConfig → Peer → AuthorizePortalRequest → Outcome CaptivePortalError Text
unfolding admit_client
admit cfg peer req =
    if not cfg.enabled
    then err (forbidden "captive portal is disabled")
    else (if cfg.terms_required && not req.accept_terms
        then err (validation_failed "terms must be accepted")
        else admit_client peer req)

abbrev unwrap_or : Option ℕ → ℕ → ℕ
unwrap_or none d = d
unwrap_or (some n) d = n

abbrev pub check_admin_session : CreateSessionRequest → Outcome CaptivePortalError (Unit {0})
check_admin_session req =
    if not (is_valid_ip req.client_ip)
    then err (validation_failed "clientIp must be a valid IP address")
    else check_mac req.client_mac

abbrev pub without_id : ℕ → SessionList → SessionList
without_id id sessions = filter (λ s. not (s.id == id)) sessions

abbrev pub keep_head :
    CaptivePortalSession
    → Outcome CaptivePortalError (Option CaptivePortalSession × SessionList)
    → Outcome CaptivePortalError (Option CaptivePortalSession × SessionList)
keep_head s (err e) = err e
keep_head s (ok (x, xs)) = ok (x, s ∷ xs)

-- the setting of `load_system_settings`
abbrev pub ipv6_setting : Option Bool → Outcome CaptivePortalError Bool
ipv6_setting none = err storage_error
ipv6_setting (some ipv6_enabled) = ok ipv6_enabled

-- `CaptivePortalError::ValidationFailed` of the message
abbrev pub as_portal_error :
    Outcome PortalConfigError (Unit {0}) → Outcome CaptivePortalError (Unit {0})
as_portal_error (ok u) = ok tt
as_portal_error (err e) = err (invalid_config e)

module _ (plus_seconds : PlusSeconds) (ans : Answers) where
  abbrev pub expiry : ℕ → ℕ → Outcome CaptivePortalError ℕ
  expiry now ttl = elim (plus_seconds now (chrono_seconds ttl)) [
    | none ↦ err panicked
    | some t ↦ ok t
  ]

  -- the end of both handlers that make a session
  unfoldable pub add_session : CaptivePortalSession → Op CaptivePortalSession
  unfolding load_sessions save_sessions apply_current_ruleset
  add_session session = do
    sessions ← load_sessions
    save_sessions (ans.sessions_saved 0) (without_ip session.client_ip sessions ++ session ∷ [])
    apply_current_ruleset plus_seconds ans
    return session

  abbrev pub save_if_redeemed : Option ℕ → CaptivePortalConfig → Op (Unit {0})
  save_if_redeemed none cfg = return tt
  save_if_redeemed (some id) cfg = save_config ans.config_saved cfg

  unfoldable pub public_authorize :
      Peer → Option Text → AuthorizePortalRequest → Op CaptivePortalSession
  unfolding load_config admit redeem_voucher save_config add_session
  public_authorize peer user_agent req = do
    cfg ← load_config
    ip ← lift (admit cfg peer req)
    (voucher_id, cfg') ← lift (redeem_voucher cfg req.voucher_code (ans.clock 0))
    save_if_redeemed voucher_id cfg'
    expires_at ← lift (expiry (ans.clock 0) cfg'.session_ttl_seconds)
    add_session (record {
      id = ans.new_id;
      client_ip = ip;
      client_mac = normalize_mac req.client_mac;
      authorized_at = ans.clock 0;
      last_seen_at = ans.clock 0;
      expires_at = expires_at;
      voucher_id = voucher_id;
      user_agent = truncate_user_agent user_agent;
    })

  unfoldable pub public_logout : Peer → Op (Unit {0})
  unfolding load_sessions save_sessions apply_current_ruleset
  public_logout peer = do
    ip ← lift (client_ip peer none)
    sessions ← load_sessions
    save_sessions (ans.sessions_saved 0) (without_ip ip sessions)
    apply_current_ruleset plus_seconds ans

  abbrev pub save_if_fewer : Bool → SessionList → Op (Unit {0})
  save_if_fewer true kept = save_sessions (ans.sessions_saved 0) kept
  save_if_fewer false kept = return tt

  unfoldable pub update_admin_config : CaptivePortalConfig → Op CaptivePortalConfig
  unfolding normalize_config validate_captive_portal_config_with_ipv6 save_config load_sessions
      prune_expired_sessions save_sessions apply_current_ruleset
  update_admin_config config = do
    ipv6_enabled ← lift (ipv6_setting ans.ipv6_enabled)
    lift (
        as_portal_error
          (validate_captive_portal_config_with_ipv6 (normalize_config config) ipv6_enabled))
    save_config ans.config_saved (normalize_config config)
    sessions ← load_sessions
    (kept, fewer) ←
        lift (prune_expired_sessions plus_seconds (normalize_config config) (ans.clock 0) sessions)
    save_if_fewer fewer kept
    apply_current_ruleset plus_seconds ans
    return (normalize_config config)

  -- the first active session of the client, seen now, and the list with it
  unfoldable pub touch :
      CaptivePortalConfig
      → Text
      → SessionList
      → Outcome CaptivePortalError (Option CaptivePortalSession × SessionList)
  unfolding session_is_active
  touch cfg ip [] = ok (none, [])
  touch cfg ip (s ∷ ss) =
      let seen = record s { last_seen_at = ans.clock 0 } in
      let rest = keep_head s (touch cfg ip ss) in
      if text_eq s.client_ip ip
      then elim (session_is_active plus_seconds cfg s (ans.clock 0)) [
        | err e ↦ err e
        | ok true ↦ ok (some seen, seen ∷ ss)
        | ok false ↦ rest
      ]
      else rest

  abbrev pub save_if_found : Option CaptivePortalSession → SessionList → Op (Unit {0})
  save_if_found none sessions = return tt
  save_if_found (some s) sessions = save_sessions (ans.sessions_saved 0) sessions

  -- `PortalStatusResponse`, whose other fields are those of the session
  unfoldable pub public_status : Peer → Op (Bool × Text × Option CaptivePortalSession)
  unfolding load_config load_sessions touch save_sessions
  public_status peer = do
    cfg ← load_config
    ip ← lift (client_ip peer none)
    sessions ← load_sessions
    (session, sessions') ← lift (touch cfg ip sessions)
    save_if_found session sessions'
    return (cfg.enabled, ip, session)

  unfoldable pub create_admin_session : CreateSessionRequest → Op CaptivePortalSession
  unfolding is_valid_ip is_valid_mac trim load_config add_session
  create_admin_session req = do
    lift (check_admin_session req)
    cfg ← load_config
    lift (
        reject_if (ltb (unwrap_or req.ttl_seconds cfg.session_ttl_seconds) 60)
          (validation_failed "ttlSeconds must be at least 60"))
    expires_at ← lift (expiry (ans.clock 0) (unwrap_or req.ttl_seconds cfg.session_ttl_seconds))
    add_session (record {
      id = ans.new_id;
      client_ip = trim req.client_ip;
      client_mac = normalize_mac req.client_mac;
      authorized_at = ans.clock 0;
      last_seen_at = ans.clock 0;
      expires_at = expires_at;
      voucher_id = none;
      user_agent = none;
    })

  unfoldable pub revoke_admin_session : ℕ → Op (Unit {0})
  unfolding load_sessions save_sessions apply_current_ruleset
  revoke_admin_session id = do
    sessions ← load_sessions
    lift (reject_if (length (without_id id sessions) == length sessions) (not_found id))
    save_sessions (ans.sessions_saved 0) (without_id id sessions)
    apply_current_ruleset plus_seconds ans

  unfoldable pub reap_enabled : CaptivePortalConfig → Op (Unit {0})
  unfolding load_sessions save_sessions apply_current_ruleset prune_expired_sessions
  reap_enabled cfg = do
    sessions ← load_sessions
    (kept, fewer) ← lift (prune_expired_sessions plus_seconds cfg (ans.clock 0) sessions)
    elim fewer [
      | false ↦ return tt
      | true ↦ save_sessions (ans.sessions_saved 0) kept >> apply_current_ruleset plus_seconds ans
    ]

  unfoldable pub reap_config : Stored CaptivePortalConfig → Op (Unit {0})
  unfolding reap_enabled
  reap_config missing = return tt
  reap_config unreadable = return tt
  reap_config (stored cfg) = elim cfg.enabled [ false ↦ return tt | true ↦ reap_enabled cfg ]

  -- one round of the reaper, which logs its errors and goes on
  unfoldable pub reap : Op (Unit {0})
  unfolding reap_config
  reap m = reap_config m.config m
