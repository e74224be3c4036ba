-- ===== src/CaptivePortal/Applied.antt =====
-- Which ruleset is in force after the handlers of dayshield-core/src/captive_portal.rs.
use dayshield_core.Base.{
  Bool, true, false, some, [], ◌≡◌, refl, sym, inl, inr, arith, Outcome, ok, Stored, missing,
  unreadable, stored, Outcome-cases, Bool-cases,
}
use mathlib.Core.Path.{subst}
use dayshield_core.Base.Operations.{
  ◌>>◌, lift, return, Triple, Post, Triple-bind, Triple-bind_keep, Triple-lift, Triple-weaken,
  Triple-map_err,
}
use dayshield_core.CaptivePortal.{CaptivePortalConfig, SessionList, CaptivePortalError, PlusSeconds}
use dayshield_core.CaptivePortal.Sessions.{retain_active, prune_expired_sessions}
use dayshield_core.CaptivePortal.Store.{
  Portal, Answers, read_portal, load_portal, read_sessions, load_sessions, save_sessions,
  apply_rules, current_sessions, apply_current_ruleset_nft, apply_current_ruleset,
}
use dayshield_core.CaptivePortal.Invariant.{sessions_of}

abbrev pub Fails : CaptivePortalError → Portal → Type 0
Fails e m = Unit

pub lift-keeps :
    {A : Type 0} (I : Portal → Type 0) (r : Outcome CaptivePortalError A)
    → Triple I (lift r) (λ a m. I m × (r ≡ ok a)) Fails
lift-keeps I r = Triple-weaken (Triple-lift r) (λ m p. p) (λ a m q. q) (λ e m f. tt)

module _ (ps : PlusSeconds) (ans : Answers) (K : SessionList → Type 0) where
  -- the session file has K
  abbrev pub Covered : Portal → Type 0
  Covered m = K (sessions_of m.sessions)

  -- K outlasts the pruning before the rules are made
  abbrev pub IsKept : Stored CaptivePortalConfig → Type 0
  IsKept (stored cfg) =
      (ss kept : SessionList) → K ss → retain_active ps cfg (ans.clock 1) ss ≡ ok kept → K kept
  IsKept file = Unit

  -- how the sessions come about that are let through
  abbrev pub Shown : Stored CaptivePortalConfig → SessionList → Type 0
  Shown (stored cfg) shown =
      (kept : SessionList) × K kept × (retain_active ps cfg (ans.clock 2) kept ≡ ok shown)
  Shown file shown = shown ≡ []

  -- The session file has K, and the ruleset was made of the configuration and of those sessions
  -- of a list with K that are active.
  pub record IsMade (file : Stored CaptivePortalConfig) (m : Portal) : Type 0 where
    pub covered : Covered m
    pub shown : SessionList
    pub made : m.applied ≡ some (record { portal = file; clients = shown })
    pub from : Shown file shown

  load_portal-Covered :
      (file : Stored CaptivePortalConfig)
      → Triple
          (λ m. Covered m × (m.config ≡ file))
          load_portal
          (λ c m. Covered m × (c ≡ file))
          Fails
  unfolding load_portal
  load_portal-Covered file = record { run = λ m p. loaded m p.0 m.config p.1 }
    where
      loaded :
          (m : Portal)
          → Covered m
          → (c : Stored CaptivePortalConfig) → c ≡ file
          → Post (λ d n. Covered n × (d ≡ file)) Fails (read_portal c, m)
      loaded m p missing e = (p, e)
      loaded m p unreadable e = tt
      loaded m p (stored c) e = (p, e)

  load_sessions-Covered : Triple Covered load_sessions (λ ss m. Covered m × K ss) Fails
  unfolding load_sessions
  load_sessions-Covered = record { run = λ m p. loaded m p m.sessions p }
    where
      loaded :
          (m : Portal)
          → Covered m
          → (f : Stored SessionList) → K (sessions_of f)
          → Post (λ ss n. Covered n × K ss) Fails (read_sessions f, m)
      loaded m p missing a = (p, a)
      loaded m p unreadable a = tt
      loaded m p (stored ss) a = (p, a)

  save_sessions-Covered :
      (works : Bool) (ss : SessionList)
      → K ss
      → Triple (λ m. Unit {0}) (save_sessions works ss) (λ t m. Covered m × Unit {0}) Fails
  unfolding save_sessions
  save_sessions-Covered true ss a = record { run = λ m p. (a, tt) }
  save_sessions-Covered false ss a = record { run = λ m p. tt }

  prune-kept :
      (cfg : CaptivePortalConfig) (ss : SessionList) {kept : SessionList} {fewer : Bool}
      → IsKept (stored cfg)
      → K ss
      → prune_expired_sessions ps cfg (ans.clock 1) ss ≡ ok (kept, fewer)
      → K kept
  unfolding prune_expired_sessions
  prune-kept cfg ss {kept} keeps a h =
      elim (Outcome-cases (retain_active ps cfg (ans.clock 1) ss)) [
        | inr (e, f) ↦ absurd (ground arith)
        | inl (k, f) ↦ let same : k ≡ kept = ground arith in subst K same (keeps ss k a f)
      ]

  save_kept :
      (fewer : Bool) (kept : SessionList)
      → K kept
      → Triple Covered
          (elim fewer [ true ↦ save_sessions (ans.sessions_saved 1) kept | false ↦ return tt ])
          (λ t m. Covered m × Unit {0})
          Fails
  unfolding return lift
  save_kept true kept a =
      Triple-weaken (save_sessions-Covered (ans.sessions_saved 1) kept a) (λ m p. tt) (λ t m q. q)
        (λ e m f. f)
  save_kept false kept a = record { run = λ m p. (p, tt) }

  current_sessions-Covered :
      (file : Stored CaptivePortalConfig) (ss : SessionList)
      → IsKept file
      → K ss
      → Triple Covered
          (current_sessions ps ans file ss)
          (λ active m. Covered m × Shown file active)
          Fails
  unfolding current_sessions return lift
  current_sessions-Covered missing ss keeps a = record { run = λ m p. (p, refl) }
  current_sessions-Covered unreadable ss keeps a = record { run = λ m p. (p, refl) }
  current_sessions-Covered (stored c) ss keeps a =
      Triple-bind_keep (lift-keeps Covered (prune_expired_sessions ps c (ans.clock 1) ss)) (λ r e.
        (let kept = prune-kept c ss keeps a e in
          Triple-bind_keep (save_kept r.1 r.0 kept) (λ t k.
            Triple-weaken (lift-keeps Covered (retain_active ps c (ans.clock 2) r.0)) (λ m p. p)
              (λ active m q. (q.0, (r.0, kept, q.1))) (λ e m f. f))))

  apply_rules-IsMade :
      (file : Stored CaptivePortalConfig) (active : SessionList)
      → Shown file active
      → Triple Covered (apply_rules ans file active) (λ t m. IsMade file m) Fails
  unfolding apply_rules
  apply_rules-IsMade file active a = record {
    run = λ m p. elim (Bool-cases ans.rules_applied) [
      | inl e ↦ rw e (record { covered = p; shown = active; made = refl; from = a })
      | inr e ↦ rw e tt
    ];
  }

  pub apply_current_ruleset-IsMade :
      (file : Stored CaptivePortalConfig)
      → IsKept file
      → Triple
          (λ m. Covered m × (m.config ≡ file))
          (apply_current_ruleset ps ans)
          (λ t m. IsMade file m)
          Fails
  unfolding apply_current_ruleset apply_current_ruleset_nft
  apply_current_ruleset-IsMade file keeps =
      Triple-map_err _
        (Triple-bind_keep (load_portal-Covered file) (λ c e.
          Triple-bind_keep load_sessions-Covered (λ ss a.
            Triple-bind_keep (current_sessions-Covered c ss (subst IsKept (sym e) keeps) a)
              (λ active r.
                subst (λ f. Triple Covered (apply_rules ans c active) (λ t m. IsMade f m) Fails) e
                  (apply_rules-IsMade c active r)))))
        (λ e m f. f)

  pub save_sessions-replaced :
      (file : Stored CaptivePortalConfig) (ss : SessionList)
      → K ss
      → Triple
          (λ m. m.config ≡ file)
          (save_sessions (ans.sessions_saved 0) ss)
          (λ t m. Covered m × (m.config ≡ file))
          Fails
  unfolding save_sessions
  save_sessions-replaced file ss a = record {
    run = λ m p. elim (Bool-cases (ans.sessions_saved 0)) [ inl e ↦ rw e (a, p) | inr e ↦ rw e tt ];
  }

  -- saving a list with K and making the rules anew
  pub replace-IsMade :
      (file : Stored CaptivePortalConfig) (ss : SessionList)
      → IsKept file
      → K ss
      → Triple
          (λ m. m.config ≡ file)
          (save_sessions (ans.sessions_saved 0) ss >> apply_current_ruleset ps ans)
          (λ t m. IsMade file m)
          Fails
  replace-IsMade file ss keeps a =
      Triple-bind (save_sessions-replaced file ss a) (λ t. apply_current_ruleset-IsMade file keeps)

pub load_sessions-config :
    (file : Stored CaptivePortalConfig)
    → Triple (λ m. m.config ≡ file) load_sessions (λ ss m. (m.config ≡ file) × Unit {0}) Fails
unfolding load_sessions
load_sessions-config file = record {
  run = λ m p. elim (Outcome-cases (read_sessions m.sessions)) [
    | inl (ss, e) ↦ rw e (p, tt)
    | inr (x, e) ↦ rw e tt
  ];
}
