-- ===== src/CaptivePortal.antt =====
-- The captive portal: dayshield-core/src/captive_portal.rs with its types of
-- dayshield-core/src/config/models.rs. Uuids are numbers, times are nanoseconds, and the time
-- arithmetic of chrono, which panics out of its range, is a parameter.
pub mod Sessions
pub mod Vouchers
pub mod Config
pub mod Store
pub mod Handlers
pub mod Uniqueness
pub mod Limits
pub mod Invariant
pub mod Retained
pub mod Applied
pub mod Access
mod Tests
use dayshield_core.Base.{ℕ, Bool, true, false, Option, none, some, String, List, [], ◌∷◌}
use dayshield_core.Base.Text.{Text, codes}

pub data CaptivePortalAuthMode : Type 0 where
  click_through voucher : CaptivePortalAuthMode

pub record CaptivePortalVoucher : Type 0 where
  pub id : ℕ
  pub code : Text
  pub description : Option Text
  pub enabled : Bool
  pub expires_at : Option ℕ
  pub max_uses : Option ℕ
  pub uses : ℕ

abbrev pub Vouchers : Type 0
Vouchers = List CaptivePortalVoucher

pub record CaptivePortalConfig : Type 0 where
  pub enabled : Bool
  pub interfaces : List Text
  pub auth_mode : CaptivePortalAuthMode
  pub listen_address : Text
  pub listen_port : ℕ
  pub redirect_http : Bool
  pub session_ttl_seconds : ℕ
  pub idle_timeout_seconds : ℕ
  pub portal_title : Text
  pub portal_message : Text
  pub terms_required : Bool
  pub success_redirect_url : Option Text
  pub walled_garden_ips : List Text
  pub bypass_macs : List Text
  pub vouchers : Vouchers

abbrev default_config : CaptivePortalConfig
default_config = record {
  enabled = false;
  interfaces = [];
  auth_mode = click_through;
  listen_address = codes "0.0.0.0";
  listen_port = 8180;
  redirect_http = true;
  session_ttl_seconds = 86400;
  idle_timeout_seconds = 0;
  portal_title = codes "DayShield Guest Access";
  portal_message = codes "Please review the access terms before connecting to this network.";
  terms_required = false;
  success_redirect_url = none;
  walled_garden_ips = [];
  bypass_macs = [];
  vouchers = [];
}

pub record CaptivePortalSession : Type 0 where
  pub id : ℕ
  pub client_ip : Text
  pub client_mac : Option Text
  pub authorized_at : ℕ
  pub last_seen_at : ℕ
  pub expires_at : ℕ
  pub voucher_id : Option ℕ
  pub user_agent : Option Text

abbrev pub SessionList : Type 0
SessionList = List CaptivePortalSession

-- the errors of the configuration's checks
pub data PortalConfigError : Type 0 where
  bad_listen_address bad_destination bad_mac bad_interface bad_url duplicate_code :
      Text → PortalConfigError
  bad_listen_port bad_session_ttl bad_idle_timeout no_interface no_title no_enabled_voucher
        destination_needs_ipv6 :
      PortalConfigError
  bad_code_length code_has_whitespace no_uses too_many_uses : ℕ → PortalConfigError

-- `CaptivePortalError`, and the panic of the time arithmetic
pub data CaptivePortalError : Type 0 where
  validation_failed : String → CaptivePortalError
  invalid_config : PortalConfigError → CaptivePortalError
  forbidden : String → CaptivePortalError
  not_found : ℕ → CaptivePortalError
  storage_error engine_error panicked : CaptivePortalError

-- `t + Duration::seconds(n)` of chrono, `none` where one of the two panics
abbrev pub PlusSeconds : Type 0
PlusSeconds = ℕ → ℕ → Option ℕ
