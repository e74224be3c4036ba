-- ===== src/CaptivePortal/Uniqueness.antt =====
-- How often a client address stands in a list of sessions, and what the steps of the handlers of
-- dayshield-core/src/captive_portal.rs make of it.
use dayshield_core.Base.{
  ℕ, suc, ◌+◌, ◌≤◌, Bool, not, Option, [], ◌∷◌, ◌++◌, ◌≡◌, refl, inl, inr, ◌⊎◌, if◌then◌else◌,
  filter, arith, ok, Outcome-cases, Bool-cases,
}
use dayshield_core.Base.Text.{Text, text_eq, text_eq_iff}
use dayshield_core.CaptivePortal.{
  CaptivePortalConfig, CaptivePortalSession, SessionList, PlusSeconds,
}
use dayshield_core.CaptivePortal.Sessions.{session_is_active, retain_active}
use dayshield_core.CaptivePortal.Handlers.{without_ip, keep_head, touch}
use dayshield_core.CaptivePortal.Store.{Answers}

-- how many sessions an address has
abbrev pub matching : Text → SessionList → ℕ
matching ip [] = 0
matching ip (s ∷ ss) =
    let rest = matching ip ss in if text_eq s.client_ip ip then suc rest else rest

abbrev pub IsUnique : SessionList → Type 0
IsUnique ss = (ip : Text) → matching ip ss ≤ 1

matching-append :
    (ip : Text) (ss ts : SessionList) → matching ip (ss ++ ts) ≡ matching ip ss + matching ip ts
matching-append ip [] ts = omega arith
matching-append ip (s ∷ ss) ts = ground (arith, matching-append ip ss ts)

matching-filter :
    (p : CaptivePortalSession → Bool) (ip : Text) (ss : SessionList)
    → matching ip (filter p ss) ≤ matching ip ss
matching-filter p ip [] = omega arith
matching-filter p ip (s ∷ ss) = ground (arith, matching-filter p ip ss)

matching-without_ip : (ip : Text) (ss : SessionList) → matching ip (without_ip ip ss) ≡ 0
matching-without_ip ip [] = refl
matching-without_ip ip (s ∷ ss) = ground (arith, matching-without_ip ip ss)

pub filter-IsUnique :
    (p : CaptivePortalSession → Bool) (ss : SessionList) → IsUnique ss → IsUnique (filter p ss)
filter-IsUnique p ss u ip = omega (arith, matching-filter p ip ss, u ip)

-- a new session in place of all those of its address
pub add-IsUnique :
    (s : CaptivePortalSession) (ss : SessionList)
    → IsUnique ss
    → IsUnique (without_ip s.client_ip ss ++ s ∷ [])
add-IsUnique s ss u ip =
    rw (matching-append ip (without_ip s.client_ip ss) (s ∷ []))
      (elim (Bool-cases (text_eq s.client_ip ip)) [
        | inl e ↦
            let same : s.client_ip ≡ ip = (text_eq_iff s.client_ip ip).0 e in
            let gone : matching ip (without_ip s.client_ip ss) ≡ 0 =
              rw (same) (matching-without_ip ip ss) in
            ground (arith, gone)
        | inr e ↦
            ground (arith, e, filter-IsUnique (λ t. not (text_eq t.client_ip s.client_ip)) ss u ip)
      ])

module _ (plus_seconds : PlusSeconds) (cfg : CaptivePortalConfig) where
  matching-retain_active :
      (now : ℕ) (ip : Text) (ss : SessionList) {kept : SessionList}
      → retain_active plus_seconds cfg now ss ≡ ok kept
      → matching ip kept ≤ matching ip ss
  unfolding retain_active
  matching-retain_active now ip [] {kept} h = ground arith
  matching-retain_active now ip (s ∷ ss) {kept} h =
      elim (Outcome-cases (session_is_active plus_seconds cfg s now)) [
        | inr (e, f) ↦ absurd (ground arith)
        | inl (b, f) ↦ elim (Outcome-cases (retain_active plus_seconds cfg now ss)) [
          | inr (e, g) ↦ absurd (ground arith)
          | inl (rest, g) ↦
              let ih = matching-retain_active now ip ss g in
              let whole : kept ≡ (if b then s ∷ rest else rest) = ground arith in
              rw whole (ground (arith, ih))
        ]
      ]

  pub retain_active-IsUnique :
      (now : ℕ) (ss : SessionList) {kept : SessionList}
      → IsUnique ss
      → retain_active plus_seconds cfg now ss ≡ ok kept
      → IsUnique kept
  retain_active-IsUnique now ss u h ip = omega (arith, matching-retain_active now ip ss h, u ip)

  touch_cases :
      (ans : Answers) (x : Text) (s : CaptivePortalSession) (ss : SessionList)
      {found : Option CaptivePortalSession} {touched : SessionList}
      → touch plus_seconds ans cfg x (s ∷ ss) ≡ ok (found, touched)
      → (touched ≡ record s { last_seen_at = ans.clock 0 } ∷ ss)
        ⊎ ((f : Option CaptivePortalSession) × (ts : SessionList) × (touch plus_seconds ans cfg x ss
              ≡ ok (f, ts))
            × (touched ≡ s ∷ ts))
  unfolding touch
  touch_cases ans x s ss {found} {touched} h = elim (Bool-cases (text_eq s.client_ip x)) [
    | inr e ↦ inr (later (rw e at h))
    | inl e ↦ elim (Outcome-cases (session_is_active plus_seconds cfg s (ans.clock 0))) [
      | inr (x', a) ↦ absurd (ground arith)
      | inl (b, a) ↦ elim (Bool-cases b) [
        | inl t ↦ inl (ground arith)
        | inr t ↦ inr (later (ground arith))
      ]
    ]
  ]
    where
      later :
          keep_head s (touch plus_seconds ans cfg x ss) ≡ ok (found, touched)
          → (f : Option CaptivePortalSession) × (ts : SessionList) × (touch plus_seconds ans cfg x
                ss
              ≡ ok (f, ts))
            × (touched ≡ s ∷ ts)
      later k = elim (Outcome-cases (touch plus_seconds ans cfg x ss)) [
        | inl ((f, ts), g) ↦ (f, ts, g, ground arith)
        | inr (e, g) ↦ absurd (ground arith)
      ]

  matching-touch :
      (ans : Answers) (x ip : Text) (ss : SessionList) {found : Option CaptivePortalSession}
      {touched : SessionList}
      → touch plus_seconds ans cfg x ss ≡ ok (found, touched)
      → matching ip touched ≡ matching ip ss
  unfolding touch
  matching-touch ans x ip [] {found} {touched} h = ground arith
  matching-touch ans x ip (s ∷ ss) h = elim (touch_cases ans x s ss h) [
    | inl e ↦ rw e refl
    | inr (f, ts, g, e) ↦ rw e (ground (arith, matching-touch ans x ip ss g))
  ]

  pub touch-IsUnique :
      (ans : Answers) (x : Text) (ss : SessionList) {found : Option CaptivePortalSession}
      {touched : SessionList}
      → IsUnique ss
      → touch plus_seconds ans cfg x ss ≡ ok (found, touched)
      → IsUnique touched
  touch-IsUnique ans x ss u h ip = omega (arith, matching-touch ans x ip ss h, u ip)
