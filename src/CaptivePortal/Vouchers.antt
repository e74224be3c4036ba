-- ===== src/CaptivePortal/Vouchers.antt =====
-- How a voucher is redeemed: dayshield-core/src/captive_portal.rs.
use dayshield_core.Base.{
  ℕ, ◌+◌, ◌-◌, ◌^◌, Bool, false, not, Option, none, some, [], ◌∷◌, if◌then◌else◌, min, leb, Outcome,
  ok, err, ◌>>=◌, ◌>>◌, reject_if,
}
use dayshield_core.Base.Text.{Text, text_eq, is_empty, trim}
use dayshield_core.CaptivePortal.{
  click_through, voucher, CaptivePortalVoucher, Vouchers, CaptivePortalConfig, CaptivePortalError,
  validation_failed, forbidden,
}

abbrev pub u32_max : ℕ
u32_max = 2 ^ 32 - 1

abbrev pub is_at_or_before : Option ℕ → ℕ → Bool
is_at_or_before none now = false
is_at_or_before (some t) now = leb t now

abbrev pub is_used_up : Option ℕ → ℕ → Bool
is_used_up none uses = false
is_used_up (some max_uses) uses = leb max_uses uses

-- the checks of the voucher that has the code, and the voucher after one more use
unfoldable pub use_voucher :
    CaptivePortalVoucher → ℕ → Outcome CaptivePortalError CaptivePortalVoucher
use_voucher v now = do
  reject_if (not v.enabled) (forbidden "voucher code is disabled")
  reject_if (is_at_or_before v.expires_at now) (forbidden "voucher code has expired")
  reject_if (is_used_up v.max_uses v.uses) (forbidden "voucher code has no uses remaining")
  ok (record v { uses = min (v.uses + 1) u32_max })

-- the first voucher with the code is used, in its place
unfoldable pub use_first : Text → ℕ → Vouchers → Outcome CaptivePortalError (ℕ × Vouchers)
unfolding trim use_voucher
use_first code now [] = err (forbidden "invalid voucher code")
use_first code now (v ∷ vs) =
    let rest = use_first code now vs in
    if text_eq (trim v.code) code
    then (use_voucher v now >>= λ v'. ok (v'.id, v' ∷ vs))
    else (rest >>= λ r. ok (r.0, v ∷ r.1))

abbrev pub entered_code : Option Text → Text
entered_code none = []
entered_code (some code) = trim code

-- The voucher's id, and the configuration with its use counted.
unfoldable pub redeem_voucher :
    CaptivePortalConfig
    → Option Text
    → ℕ
    → Outcome CaptivePortalError (Option ℕ × CaptivePortalConfig)
unfolding trim use_first
redeem_voucher config code now = elim config.auth_mode [
  | click_through ↦ ok (none, config)
  | voucher ↦ do
    reject_if (is_empty (entered_code code)) (validation_failed "voucherCode is required")
    (id, vouchers) ← use_first (entered_code code) now config.vouchers
    ok (some id, record config { vouchers = vouchers })
]
