-- ===== src/CaptivePortal/Retained.antt =====
-- Which sessions stay when a list is pruned: retain_active of Sessions, for
-- dayshield-core/src/captive_portal.rs.
use dayshield_core.Base.{
  ℕ, true, false, List, [], ◌∷◌, ◌≡◌, ap, inl, inr, ◌⊎◌, All, IsIn, ◌∙◌, ◌==◌, arith, ok,
  ok_injective, Outcome-cases, Option-cases, Bool-cases,
}
use mathlib.Core.Path.{subst}
use dayshield_core.CaptivePortal.{
  CaptivePortalConfig, CaptivePortalSession, SessionList, PlusSeconds,
}
use dayshield_core.CaptivePortal.Sessions.{
  chrono_seconds, session_is_active, retain_active, IsActive,
}

module _ (ps : PlusSeconds) (cfg : CaptivePortalConfig) where
  session_is_active-IsActive :
      (s : CaptivePortalSession) (now : ℕ)
      → session_is_active ps cfg s now ≡ ok true
      → IsActive ps cfg now s
  unfolding session_is_active
  session_is_active-IsActive s now h = record {
    not_expired = ground arith;
    not_idle = elim (Bool-cases (cfg.idle_timeout_seconds == 0)) [
      | inl e ↦ inl (ground arith)
      | inr e ↦ elim (Option-cases (ps s.last_seen_at (chrono_seconds cfg.idle_timeout_seconds))) [
        | inl f ↦ absurd (ground arith)
        | inr (t, f) ↦ inr (t, f, ground arith)
      ]
    ];
  }

  -- what a property of all sessions says of those that are retained
  pub retain_active-All :
      (P : CaptivePortalSession → Type 0) (now : ℕ) (ss : SessionList) {kept : SessionList}
      → All P ss
      → retain_active ps cfg now ss ≡ ok kept
      → All (λ s. P s × IsActive ps cfg now s) kept
  unfolding retain_active
  retain_active-All P now [] {kept} a h =
      subst (All (λ s. P s × IsActive ps cfg now s)) (ok_injective h) tt
  retain_active-All P now (s ∷ ss) {kept} a h =
      elim (Outcome-cases (session_is_active ps cfg s now)) [
        | inr (e, f) ↦ absurd (ground arith)
        | inl (b, f) ↦ elim (Outcome-cases (retain_active ps cfg now ss)) [
          | inr (e, g) ↦ absurd (ground arith)
          | inl (rest, g) ↦
              let ih = retain_active-All P now ss a.1 g in
              elim (Bool-cases b) [
                | inl t ↦
                    let whole : s ∷ rest ≡ kept = ground arith in
                    subst (All (λ s. P s × IsActive ps cfg now s)) whole
                      ((a.0, session_is_active-IsActive s now (ground arith)), ih)
                | inr t ↦
                    let whole : rest ≡ kept = ground arith in
                    subst (All (λ s. P s × IsActive ps cfg now s)) whole ih
              ]
        ]
      ]

  -- a session of the list stays, or is not active
  pub retain_active-IsIn :
      (x : CaptivePortalSession) (now : ℕ) (ss : SessionList) {kept : SessionList}
      → IsIn x ss
      → retain_active ps cfg now ss ≡ ok kept
      → IsIn x kept ⊎ (session_is_active ps cfg x now ≡ ok false)
  unfolding retain_active
  retain_active-IsIn x now [] i h = absurd i
  retain_active-IsIn x now (s ∷ ss) {kept} i h =
      elim (Outcome-cases (session_is_active ps cfg s now)) [
        | inr (e, f) ↦ absurd (ground arith)
        | inl (b, f) ↦ elim (Outcome-cases (retain_active ps cfg now ss)) [
          | inr (e, g) ↦ absurd (ground arith)
          | inl (rest, g) ↦ elim (Bool-cases b) [
            | inl t ↦
                let whole : s ∷ rest ≡ kept = ground arith in
                elim i [
                  | inl e ↦ inl (subst (IsIn x) whole (inl e))
                  | inr k ↦ elim (retain_active-IsIn x now ss k g) [
                    | inl r ↦ inl (subst (IsIn x) whole (inr r))
                    | inr r ↦ inr r
                  ]
                ]
            | inr t ↦
                let whole : rest ≡ kept = ground arith in
                elim i [
                  | inl e ↦ inr (ap (λ y. session_is_active ps cfg y now) e ∙ f ∙ ap (λ c. ok c) t)
                  | inr k ↦ elim (retain_active-IsIn x now ss k g) [
                    | inl r ↦ inl (subst (IsIn x) whole r)
                    | inr r ↦ inr r
                  ]
                ]
          ]
        ]
      ]

pub All-first : {A : Type 0} (P Q : A → Type 0) (xs : List A) → All (λ x. P x × Q x) xs → All P xs
All-first P Q [] h = tt
All-first P Q (x ∷ xs) h = (h.0.0, All-first P Q xs h.1)
