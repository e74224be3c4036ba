-- ===== src/CaptivePortal/Limits.antt =====
-- How often a voucher of dayshield-core/src/captive_portal.rs is used.
use dayshield_core.Base.{
  ℕ, ◌+◌, ◌≤◌, ◌<◌, true, false, Option, none, some, [], ◌∷◌, ◌++◌, ◌≡◌, refl, ap, inl, inr, ◌⊎◌,
  min, All, arith, ok, Outcome-cases, Bool-cases, Option-cases, then_iff, Bool, List, ◌>>◌,
}
use dayshield_core.Base.Text.{Text, text_eq, text_eq_iff, trim}
use dayshield_core.CaptivePortal.{
  CaptivePortalAuthMode, click_through, voucher, CaptivePortalVoucher, Vouchers,
  CaptivePortalConfig,
}
use dayshield_core.CaptivePortal.Config.{
  check_settings, check_code, check_uses, check_vouchers, validate_captive_portal_config_with_ipv6,
}
use dayshield_core.CaptivePortal.Vouchers.{
  u32_max, is_at_or_before, is_used_up, entered_code, use_voucher, use_first, redeem_voucher,
}

abbrev pub UsesBelow : Option ℕ → ℕ → Type 0
UsesBelow none uses = Unit
UsesBelow (some max_uses) uses = uses ≤ max_uses

abbrev pub WithinLimit : CaptivePortalVoucher → Type 0
WithinLimit v = UsesBelow v.max_uses v.uses

abbrev ExpiresAfter : ℕ → Option ℕ → Type 0
ExpiresAfter now none = Unit
ExpiresAfter now (some t) = now < t

-- The voucher is enabled, has not expired, and has a use left.
pub record IsUsable (now : ℕ) (v : CaptivePortalVoucher) : Type 0 where
  pub is_enabled : v.enabled ≡ true
  pub not_expired : ExpiresAfter now v.expires_at
  pub has_use : UsesBelow v.max_uses (v.uses + 1)

abbrev pub with_use : CaptivePortalVoucher → CaptivePortalVoucher
with_use v = record v { uses = min (v.uses + 1) u32_max }

-- The first voucher with the code was usable, and only its count is another.
pub record IsUse (code : Text) (now : ℕ) (vs : Vouchers) (id : ℕ) (vs' : Vouchers) : Type 0 where
  pub before : Vouchers
  pub used : CaptivePortalVoucher
  pub after : Vouchers
  pub whole : vs ≡ before ++ used ∷ after
  pub changed : vs' ≡ before ++ with_use used ∷ after
  pub id_is : used.id ≡ id
  pub has_code : trim used.code ≡ code
  pub is_first : All (λ v. text_eq (trim v.code) code ≡ false) before
  pub usable : IsUsable now used

use_left :
    (max_uses : Option ℕ) (uses : ℕ)
    → is_used_up max_uses uses ≡ false
    → UsesBelow max_uses (uses + 1)
use_left none uses h = tt
use_left (some m) uses h = ground arith

time_left :
    (expires_at : Option ℕ) (now : ℕ)
    → is_at_or_before expires_at now ≡ false
    → ExpiresAfter now expires_at
time_left none now h = tt
time_left (some t) now h = ground arith

use_voucher-IsUsable :
    (v : CaptivePortalVoucher) (now : ℕ) {v' : CaptivePortalVoucher}
    → use_voucher v now ≡ ok v'
    → (v' ≡ with_use v) × IsUsable now v
unfolding use_voucher
use_voucher-IsUsable v now {v'} h = (
  ground arith,
  record {
    is_enabled = ground arith;
    not_expired = time_left v.expires_at now (ground arith);
    has_use = use_left v.max_uses v.uses (ground arith);
  },
)

use_first-IsUse :
    (code : Text) (now : ℕ) (vs : Vouchers) {id : ℕ} {vs' : Vouchers}
    → use_first code now vs ≡ ok (id, vs')
    → IsUse code now vs id vs'
unfolding use_first
use_first-IsUse code now [] h = absurd (ground arith)
use_first-IsUse code now (v ∷ vs) {id} {vs'} h = elim (Bool-cases (text_eq (trim v.code) code)) [
  | inl e ↦ elim (Outcome-cases (use_voucher v now)) [
    | inr (x, f) ↦ absurd (ground arith)
    | inl (v', f) ↦
        let used = use_voucher-IsUsable v now f in
        record {
          before = [];
          used = v;
          after = vs;
          whole = refl;
          changed = (ground (arith, used.0));
          id_is = (ground (arith, ap (λ w. w.id) used.0));
          has_code = (text_eq_iff (trim v.code) code).0 e;
          is_first = tt;
          usable = used.1;
        }
  ]
  | inr e ↦ elim (Outcome-cases (use_first code now vs)) [
    | inr (x, f) ↦ absurd (ground arith)
    | inl ((i, ws), f) ↦
        let u = use_first-IsUse code now vs f in
        record {
          before = v ∷ u.before;
          used = u.used;
          after = u.after;
          whole = ap (λ r. v ∷ r) u.whole;
          changed = (ground (arith, u.changed));
          id_is = (ground (arith, u.id_is));
          has_code = u.has_code;
          is_first = (e, u.is_first);
          usable = u.usable;
        }
  ]
]

-- What a redeemed voucher changes: nothing without the voucher mode; else the count of the first
-- voucher with the entered code, which was usable.
pub data IsRedeemed (now : ℕ) (config : CaptivePortalConfig) (code : Option Text) (id : Option ℕ)
    (after : CaptivePortalConfig) : Type 0 where
  free :
      config.auth_mode ≡ click_through
      → id ≡ none
      → after ≡ config
      → IsRedeemed now config code id after
  redeemed :
      (i : ℕ) (vs : Vouchers)
      → config.auth_mode ≡ voucher
      → IsUse (entered_code code) now config.vouchers i vs
      → id ≡ some i
      → after ≡ record config { vouchers = vs }
      → IsRedeemed now config code id after

mode-cases : (mode : CaptivePortalAuthMode) → (mode ≡ click_through) ⊎ (mode ≡ voucher)
mode-cases click_through = inl refl
mode-cases voucher = inr refl

-- A redemption that ends well counts, in voucher mode, one use of the first voucher with the
-- entered code, which is enabled, has not expired and has a use left, and changes nothing else; in
-- the other mode it changes nothing.
pub redeem_voucher-IsRedeemed :
    (config : CaptivePortalConfig) (code : Option Text) (now : ℕ) {id : Option ℕ}
    {after : CaptivePortalConfig}
    → redeem_voucher config code now ≡ ok (id, after)
    → IsRedeemed now config code id after
unfolding redeem_voucher
redeem_voucher-IsRedeemed config code now {id} {after} h = elim (mode-cases config.auth_mode) [
  | inl e ↦ free e (ground arith) (ground arith)
  | inr e ↦ elim (Outcome-cases (use_first (entered_code code) now config.vouchers)) [
    | inr (x, f) ↦ absurd (ground arith)
    | inl ((i, vs), f) ↦
        redeemed i vs e (use_first-IsUse (entered_code code) now config.vouchers f) (ground arith)
          (ground arith)
  ]
]

check_uses-WithinLimit : (v : CaptivePortalVoucher) → check_uses v ≡ ok tt → WithinLimit v
unfolding check_uses
check_uses-WithinLimit v h = elim (Option-cases v.max_uses) [
  | inl e ↦ rw e tt
  | inr (m, e) ↦ rw e (ground (arith, rw e at h))
]

check_vouchers-WithinLimit :
    (seen : List Text) (vs : Vouchers) → check_vouchers seen vs ≡ ok tt → All WithinLimit vs
unfolding check_vouchers
check_vouchers-WithinLimit seen [] h = tt
check_vouchers-WithinLimit seen (v ∷ vs) h =
    let parts =
      (then_iff (check_code seen v >> check_uses v) (check_vouchers (trim v.code ∷ seen) vs)).0 h in
    (
      check_uses-WithinLimit v ((then_iff (check_code seen v) (check_uses v)).0 parts.0).1,
      check_vouchers-WithinLimit (trim v.code ∷ seen) vs parts.1,
    )

-- A configuration that is accepted has no voucher with more uses than it may have.
pub validate-WithinLimit :
    (config : CaptivePortalConfig) (ipv6_enabled : Bool)
    → validate_captive_portal_config_with_ipv6 config ipv6_enabled ≡ ok tt
    → All WithinLimit config.vouchers
unfolding validate_captive_portal_config_with_ipv6
validate-WithinLimit config ipv6_enabled h =
    check_vouchers-WithinLimit [] config.vouchers
      ((then_iff (check_settings config ipv6_enabled) (check_vouchers [] config.vouchers)).0 h).1

with_use-WithinLimit :
    (now : ℕ) (v : CaptivePortalVoucher) → IsUsable now v → WithinLimit (with_use v)
with_use-WithinLimit now v u = capped v.max_uses v.uses u.has_use
  where
    capped : (m : Option ℕ) (n : ℕ) → UsesBelow m (n + 1) → UsesBelow m (min (n + 1) u32_max)
    capped none n k = tt
    capped (some m) n k = ground arith

All-replace :
    (before : Vouchers) (v w : CaptivePortalVoucher) (after : Vouchers)
    → All WithinLimit (before ++ v ∷ after)
    → WithinLimit w
    → All WithinLimit (before ++ w ∷ after)
All-replace [] v w after h k = (k, h.1)
All-replace (x ∷ before) v w after h k = (h.0, All-replace before v w after h.1 k)

pub redeem_voucher-WithinLimit :
    (config : CaptivePortalConfig) (code : Option Text) (now : ℕ) {id : Option ℕ}
    {after : CaptivePortalConfig}
    → All WithinLimit config.vouchers
    → redeem_voucher config code now ≡ ok (id, after)
    → All WithinLimit after.vouchers
redeem_voucher-WithinLimit config code now b h =
    elim (redeem_voucher-IsRedeemed config code now h) [
      | free e i a ↦ rw a b
      | redeemed i vs e u j a ↦ rw a (
          rw u.changed (
            All-replace u.before u.used (with_use u.used) u.after (rw u.whole at b)
              (with_use-WithinLimit now u.used u.usable)))
    ]
