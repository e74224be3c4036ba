-- ===== src/CaptivePortal/Sessions.antt =====
-- When a session counts: dayshield-core/src/captive_portal.rs.
use dayshield_core.Base.{
  ℕ, ◌-◌, ◌^◌, ◌<◌, Bool, true, false, none, some, [], ◌∷◌, ◌≡◌, ◌⊎◌, if◌then◌else◌, min, ltb, leb,
  ◌==◌, length, Outcome, ok, err,
}
use dayshield_core.CaptivePortal.{
  CaptivePortalConfig, CaptivePortalSession, SessionList, CaptivePortalError, panicked, PlusSeconds,
}

abbrev pub i64_max : ℕ
i64_max = 2 ^ 63 - 1

-- the seconds of the duration
abbrev pub chrono_seconds : ℕ → ℕ
chrono_seconds seconds = min seconds i64_max

module _ (plus_seconds : PlusSeconds) (config : CaptivePortalConfig) where
  unfoldable pub session_is_active : CaptivePortalSession → ℕ → Outcome CaptivePortalError Bool
  session_is_active session now =
      if leb session.expires_at now
      then ok false
      else (if config.idle_timeout_seconds == 0
          then ok true
          else elim (plus_seconds session.last_seen_at
              (chrono_seconds config.idle_timeout_seconds)) [
                | none ↦ err panicked
                | some idle_at ↦ ok (ltb now idle_at)
              ])

  -- the sessions that are active at a time, in their order: what `retain` and `filter` keep
  unfoldable pub retain_active : ℕ → SessionList → Outcome CaptivePortalError SessionList
  unfolding session_is_active
  retain_active now [] = ok []
  retain_active now (s ∷ ss) = elim (session_is_active s now) [
    | err e ↦ err e
    | ok b ↦ elim (retain_active now ss) [
      | err e ↦ err e
      | ok rest ↦ ok (if b then s ∷ rest else rest)
    ]
  ]

  abbrev pub active_sessions : ℕ → SessionList → Outcome CaptivePortalError SessionList
  active_sessions now sessions = retain_active now sessions

  -- the sessions that are left, and whether there are fewer
  unfoldable pub prune_expired_sessions :
      ℕ → SessionList → Outcome CaptivePortalError (SessionList × Bool)
  unfolding retain_active
  prune_expired_sessions now sessions = elim (retain_active now sessions) [
    | err e ↦ err e
    | ok kept ↦ ok (kept, (if length kept == length sessions then false else true))
  ]

  -- A session that has neither expired nor been idle for too long.
  pub record IsActive (now : ℕ) (session : CaptivePortalSession) : Type 0 where
    pub not_expired : now < session.expires_at
    pub not_idle :
        (config.idle_timeout_seconds ≡ 0)
        ⊎ ((idle_at : ℕ) × (plus_seconds session.last_seen_at
                (chrono_seconds config.idle_timeout_seconds)
              ≡ some idle_at)
            × (now < idle_at))
