-- ===== src/CaptivePortal/Tests.antt =====
-- Runs and instances of the captive portal at a concrete state.
use dayshield_core.Base.{
  ◌+◌, ◌*◌, ◌^◌, true, false, none, some, [], ◌∷◌, ◌≡◌, refl, if◌then◌else◌, leb, arith, ok, stored,
}
use dayshield_core.Base.Operations.{lift, return, map_err, ◌>>=◌}
use dayshield_core.Base.Text.{codes, text_eq, trim, trim_start, is_whitespace}
use dayshield_core.CaptivePortal.{
  voucher, CaptivePortalVoucher, CaptivePortalConfig, CaptivePortalSession, PlusSeconds,
}
use dayshield_core.CaptivePortal.Sessions.{session_is_active, retain_active, prune_expired_sessions}
use dayshield_core.CaptivePortal.Vouchers.{use_voucher, use_first, redeem_voucher}
use dayshield_core.CaptivePortal.Store.{
  Portal, Answers, load_config, save_config, load_portal, load_sessions, save_sessions, apply_rules,
  current_sessions, apply_current_ruleset_nft, apply_current_ruleset,
}
use dayshield_core.CaptivePortal.Handlers.{
  Peer, AuthorizePortalRequest, admit_client, admit, add_session, public_authorize, public_logout,
  revoke_admin_session,
}
use dayshield_core.CaptivePortal.Uniqueness.{IsUnique}
use dayshield_core.CaptivePortal.Limits.{IsRedeemed, redeem_voucher-IsRedeemed}
use dayshield_core.CaptivePortal.Invariant.{IsSound}
use dayshield_core.CaptivePortal.Invariant.Steps.{authorize, revoke, start, step, Reachable-IsSound}
use dayshield_core.CaptivePortal.Access.{IsShut}
use dayshield_core.CaptivePortal.Access.Closing.{public_logout-IsShut}
use dayshield_core.CaptivePortal.Access.Opening.{IsAuthorized, public_authorize-IsAuthorized}

abbrev plus : PlusSeconds
plus t n = if leb n 9223372036854775 then some (t + n * 10 ^ 9) else none

abbrev ticket : CaptivePortalVoucher
ticket = record {
  id = 5;
  code = codes "GUEST-1";
  description = none;
  enabled = true;
  expires_at = none;
  max_uses = some 2;
  uses = 1;
}

abbrev portal_config : CaptivePortalConfig
portal_config = record {
  enabled = true;
  interfaces = codes "lan0" ∷ [];
  auth_mode = voucher;
  listen_address = codes "0.0.0.0";
  listen_port = 8180;
  redirect_http = true;
  session_ttl_seconds = 3600;
  idle_timeout_seconds = 0;
  portal_title = codes "Guests";
  portal_message = [];
  terms_required = true;
  success_redirect_url = none;
  walled_garden_ips = [];
  bypass_macs = [];
  vouchers = ticket ∷ [];
}

abbrev old_session : CaptivePortalSession
old_session = record {
  id = 7;
  client_ip = codes "10.0.0.7";
  client_mac = none;
  authorized_at = 0;
  last_seen_at = 0;
  expires_at = 3600 * 10 ^ 9;
  voucher_id = none;
  user_agent = none;
}

abbrev portal : Portal
portal = record {
  config = stored portal_config;
  sessions = stored (old_session ∷ []);
  applied = none;
}

abbrev answers : Answers
answers = record {
  clock = λ n. n + 1;
  new_id = 8;
  config_saved = true;
  sessions_saved = λ n. true;
  rules_applied = true;
  ipv6_enabled = some false;
  applied_on_failure = none;
}

abbrev client : Peer
client = record { is_unspecified = false; address = codes "10.0.0.7" }

abbrev request : AuthorizePortalRequest
request = record {
  voucher_code = some (codes " GUEST-1");
  accept_terms = true;
  client_ip = none;
  client_mac = none;
}

abbrev new_session : CaptivePortalSession
new_session = record {
  id = 8;
  client_ip = codes "10.0.0.7";
  client_mac = none;
  authorized_at = 1;
  last_seen_at = 1;
  expires_at = 1 + 3600 * 10 ^ 9;
  voucher_id = some 5;
  user_agent = none;
}

authorized : (public_authorize plus answers client none request portal).0 ≡ ok new_session
unfolding public_authorize ◌>>=◌ lift return map_err load_config admit admit_client redeem_voucher
    use_first use_voucher trim trim_start is_whitespace save_config add_session load_sessions
    save_sessions apply_current_ruleset apply_current_ruleset_nft load_portal current_sessions
    prune_expired_sessions retain_active session_is_active apply_rules
authorized = refl

public_authorize-IsAuthorized_example :
    IsAuthorized plus answers
      (stored portal_config)
      client
      request
      new_session
      (public_authorize plus answers client none request portal).1
public_authorize-IsAuthorized_example =
    public_authorize-IsAuthorized plus answers client none request portal authorized

redeemed :
    redeem_voucher portal_config (some (codes " GUEST-1")) 1
    ≡ ok (some 5, record portal_config { vouchers = record ticket { uses = 2 } ∷ [] })
unfolding redeem_voucher use_first use_voucher trim trim_start is_whitespace
redeemed = refl

redeem_voucher-IsRedeemed_example :
    IsRedeemed 1 portal_config
      (some (codes " GUEST-1"))
      (some 5)
      (record portal_config { vouchers = record ticket { uses = 2 } ∷ [] })
redeem_voucher-IsRedeemed_example =
    redeem_voucher-IsRedeemed portal_config (some (codes " GUEST-1")) 1 redeemed

logged_out : (public_logout plus answers client portal).0 ≡ ok tt
unfolding public_logout ◌>>=◌ lift return map_err load_sessions save_sessions apply_current_ruleset
    apply_current_ruleset_nft load_portal current_sessions prune_expired_sessions retain_active
    session_is_active apply_rules
logged_out = refl

public_logout-IsShut_example :
    IsShut plus answers
      (λ s. text_eq s.client_ip (codes "10.0.0.7") ≡ false)
      (stored portal_config)
      (public_logout plus answers client portal).1
public_logout-IsShut_example =
    public_logout-IsShut plus answers client (codes "10.0.0.7") portal refl logged_out

revoked_test : (revoke_admin_session plus answers 7 portal).0 ≡ ok tt
unfolding revoke_admin_session ◌>>=◌ lift return map_err load_sessions save_sessions
    apply_current_ruleset apply_current_ruleset_nft load_portal current_sessions
    prune_expired_sessions retain_active session_is_active apply_rules
revoked_test = refl

one_session : IsUnique (old_session ∷ [])
one_session ip = ground arith

portal-IsSound : IsSound portal
portal-IsSound = record { unique = one_session; bounded = (omega arith, tt) }

abbrev authorized_portal : Portal
authorized_portal = (public_authorize plus answers client none request portal).1

Reachable-IsSound_example : IsSound (revoke_admin_session plus answers 8 authorized_portal).1
Reachable-IsSound_example =
    Reachable-IsSound plus portal-IsSound
      (step (step start (authorize answers client none request)) (revoke answers 8))
