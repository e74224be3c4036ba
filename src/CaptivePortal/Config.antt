-- ===== src/CaptivePortal/Config.antt =====
-- How the configuration of the captive portal is normalised and checked: normalize_config of
-- dayshield-core/src/captive_portal.rs and validate_captive_portal_config_with_ipv6 of
-- dayshield-core/src/config/models.rs. The lower case of a MAC address is that of ASCII: other
-- letters do not become hexadecimal digits, and are refused in either case.
use dayshield_core.Base.{
  Bool, true, false, not, ◌&&◌, ◌||◌, Option, none, some, List, [], ◌∷◌, map, filter, any,
  if◌then◌else◌, ltb, ◌==◌, isnt_empty, Outcome, ok, err, reject_if, ◌>>◌,
}
use dayshield_core.Base.Text.{
  Text, text_eq, byte_len, is_empty, is_whitespace, trim, to_ascii_lowercase,
}
use dayshield_core.Net.Urls.{validate_url}
use dayshield_core.Net.Validation.{
  is_valid_ip, is_valid_cidr, is_valid_mac, is_valid_port, is_valid_interface_name,
  ensure_ipv6_allowed,
}
use dayshield_core.CaptivePortal.{
  CaptivePortalAuthMode, click_through, voucher, CaptivePortalVoucher, Vouchers,
  CaptivePortalConfig, PortalConfigError, bad_listen_address, bad_destination, bad_mac,
  bad_interface, bad_url, duplicate_code, bad_listen_port, bad_session_ttl, bad_idle_timeout,
  no_interface, no_title, no_enabled_voucher, destination_needs_ipv6, bad_code_length,
  code_has_whitespace, no_uses, too_many_uses,
}

-- `.filter(|text| !text.is_empty())` of an optional text
abbrev pub unless_empty : Text → Option Text
unless_empty s = if is_empty s then none else some s

abbrev pub trim_option : Option Text → Option Text
trim_option none = none
trim_option (some s) = unless_empty (trim s)

abbrev pub trim_all : List Text → List Text
trim_all values = filter (λ s. not (is_empty s)) (map trim values)

abbrev pub lower_trimmed : Text → Text
lower_trimmed mac = map to_ascii_lowercase (trim mac)

abbrev pub normalize_voucher : CaptivePortalVoucher → CaptivePortalVoucher
normalize_voucher v = record v { code = trim v.code; description = trim_option v.description }

unfoldable pub normalize_config : CaptivePortalConfig → CaptivePortalConfig
unfolding trim
normalize_config config = record config {
  interfaces = trim_all config.interfaces;
  listen_address = trim config.listen_address;
  portal_title = trim config.portal_title;
  portal_message = trim config.portal_message;
  success_redirect_url = trim_option config.success_redirect_url;
  walled_garden_ips = trim_all config.walled_garden_ips;
  bypass_macs = filter (λ s. not (is_empty s)) (map lower_trimmed config.bypass_macs);
  vouchers = map normalize_voucher config.vouchers;
}

abbrev pub Check : Type 0
Check = Outcome PortalConfigError (Unit {0})

-- a check of each element, in order
abbrev pub check_each : {A : Type 0} → (A → Check) → List A → Check
check_each check [] = ok tt
check_each check (x ∷ xs) = check x >> check_each check xs

abbrev pub is_voucher_mode : CaptivePortalAuthMode → Bool
is_voucher_mode voucher = true
is_voucher_mode click_through = false

-- the checks of an enabled portal
unfoldable pub check_enabled : CaptivePortalConfig → Check
unfolding trim
check_enabled config = do
  reject_if (not (isnt_empty config.interfaces)) no_interface
  reject_if (is_empty (trim config.portal_title)) no_title
  reject_if (is_voucher_mode config.auth_mode && not (any (λ v. v.enabled) config.vouchers))
      no_enabled_voucher

unfoldable pub check_redirect : Option Text → Check
unfolding trim validate_url
check_redirect none = ok tt
check_redirect (some url) =
    reject_if (not (is_empty (trim url)) && not (validate_url url)) (bad_url url)

unfoldable pub check_destination : Bool → Text → Check
unfolding is_valid_ip is_valid_cidr ensure_ipv6_allowed
check_destination ipv6_enabled destination = do
  reject_if (not (is_valid_ip destination || is_valid_cidr destination))
      (bad_destination destination)
  elim (ensure_ipv6_allowed destination ipv6_enabled "Captive portal walled garden") [
    | ok u ↦ ok tt
    | err e ↦ err destination_needs_ipv6
  ]

unfoldable pub check_uses : CaptivePortalVoucher → Check
check_uses v = elim v.max_uses [
  | none ↦ ok tt
  | some max_uses ↦ do
    reject_if (max_uses == 0) (no_uses v.id)
    reject_if (ltb max_uses v.uses) (too_many_uses v.id)
]

unfoldable pub check_code : List Text → CaptivePortalVoucher → Check
unfolding trim is_whitespace
check_code seen v = do
  reject_if (ltb (byte_len (trim v.code)) 4 || ltb 128 (byte_len (trim v.code)))
      (bad_code_length v.id)
  reject_if (any is_whitespace (trim v.code)) (code_has_whitespace v.id)
  reject_if (any (text_eq (trim v.code)) seen) (duplicate_code (trim v.code))

-- the loop over the vouchers, with the codes that were seen
unfoldable pub check_vouchers : List Text → Vouchers → Check
unfolding check_code check_uses trim
check_vouchers seen [] = ok tt
check_vouchers seen (v ∷ vs) =
    check_code seen v >> check_uses v >> check_vouchers (trim v.code ∷ seen) vs

-- all but the vouchers
unfoldable pub check_settings : CaptivePortalConfig → Bool → Check
unfolding is_valid_ip is_valid_port check_enabled is_valid_interface_name check_redirect
    check_destination is_valid_mac
check_settings config ipv6_enabled = do
  reject_if (not (is_valid_ip config.listen_address)) (bad_listen_address config.listen_address)
  reject_if (not (is_valid_port config.listen_port)) bad_listen_port
  reject_if (ltb config.session_ttl_seconds 60) bad_session_ttl
  reject_if (ltb 0 config.idle_timeout_seconds && ltb config.idle_timeout_seconds 60)
      bad_idle_timeout
  if config.enabled then check_enabled config else ok tt
  check_each (λ i. reject_if (not (is_valid_interface_name i)) (bad_interface i)) config.interfaces
  check_redirect config.success_redirect_url
  check_each (check_destination ipv6_enabled) config.walled_garden_ips
  check_each (λ mac. reject_if (not (is_valid_mac mac)) (bad_mac mac)) config.bypass_macs

unfoldable pub validate_captive_portal_config_with_ipv6 : CaptivePortalConfig → Bool → Check
unfolding check_settings check_vouchers
validate_captive_portal_config_with_ipv6 config ipv6_enabled =
    check_settings config ipv6_enabled >> check_vouchers [] config.vouchers
