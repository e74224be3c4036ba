-- ===== src/CaptivePortal/Access.antt =====
-- For whom the ruleset is made by the handlers of dayshield-core/src/captive_portal.rs.
pub mod Closing
pub mod Opening
use dayshield_core.Base.{
  ℕ, Bool, true, false, not, ◌&&◌, Option, none, some, List, [], ◌∷◌, ◌++◌, ◌≡◌, refl, ap, sym, inl,
  inr, ◌⊎◌, All, IsIn, ◌∙◌, ◌==◌, ◌<◌, leb, filter, length, if◌then◌else◌, arith, Outcome, ok, err,
  ok_injective, reject_if, Stored, missing, unreadable, stored, Outcome-cases, Option-cases,
  Bool-cases,
}
use mathlib.Core.Path.{subst}
use dayshield_core.Base.Operations.{
  Operation, ◌>>=◌, ◌>>◌, lift, return, Triple, Post, Triple-bind, Triple-bind_keep,
  Triple-bind_fact, Triple-lift, Triple-return, Triple-weaken, Triple-map_err, Triple-ok,
}
use dayshield_core.Base.Text.{Text, text_eq, text_eq_iff}
use dayshield_core.CaptivePortal.{
  CaptivePortalConfig, CaptivePortalSession, SessionList, CaptivePortalError, PlusSeconds,
}
use dayshield_core.CaptivePortal.Sessions.{
  chrono_seconds, session_is_active, retain_active, prune_expired_sessions, IsActive,
}
use dayshield_core.CaptivePortal.Store.{
  Portal, Answers, Op, read_config, load_config, read_portal, load_portal, read_sessions,
  load_sessions, save_sessions, apply_rules, current_sessions, apply_current_ruleset_nft,
  apply_current_ruleset,
}
use dayshield_core.CaptivePortal.Handlers.{
  Peer, client_ip, public_logout, without_ip, without_id, revoke_admin_session,
}
use dayshield_core.CaptivePortal.Invariant.{sessions_of}
use dayshield_core.CaptivePortal.Retained.{All-first, retain_active-All}
use dayshield_core.CaptivePortal.Applied.{Fails, IsKept, Shown, replace-IsMade}

module _ (ps : PlusSeconds) (ans : Answers) (P : CaptivePortalSession → Type 0) where
  -- active under the configuration, when the rules are made
  abbrev pub ActiveUnder : Stored CaptivePortalConfig → CaptivePortalSession → Type 0
  ActiveUnder (stored cfg) s = IsActive ps cfg (ans.clock 2) s
  ActiveUnder file s = ⊥

  -- All sessions of the file have P. The ruleset in force was made of the configuration of the
  -- file and of sessions that have P and are active.
  pub record IsShut (file : Stored CaptivePortalConfig) (m : Portal) : Type 0 where
    pub covered : All P (sessions_of m.sessions)
    pub shown : SessionList
    pub made : m.applied ≡ some (record { portal = file; clients = shown })
    pub through : All (λ s. P s × ActiveUnder file s) shown

  pub All-IsKept : (file : Stored CaptivePortalConfig) → IsKept ps ans (All P) file
  All-IsKept missing = tt
  All-IsKept unreadable = tt
  All-IsKept (stored cfg) = λ ss kept a h.
      All-first P (IsActive ps cfg (ans.clock 1)) kept
        (retain_active-All ps cfg P (ans.clock 1) ss a h)

  pub Shown-All :
      (file : Stored CaptivePortalConfig) (shown : SessionList)
      → Shown ps ans (All P) file shown
      → All (λ s. P s × ActiveUnder file s) shown
  Shown-All missing shown h = rw h tt
  Shown-All unreadable shown h = rw h tt
  Shown-All (stored cfg) shown (kept, a, h) = retain_active-All ps cfg P (ans.clock 2) kept a h

  -- saving a list with P and making the rules anew
  pub replace-IsShut :
      (file : Stored CaptivePortalConfig) (ss : SessionList)
      → All P ss
      → Triple
          (λ m. m.config ≡ file)
          (save_sessions (ans.sessions_saved 0) ss >> apply_current_ruleset ps ans)
          (λ t m. IsShut file m)
          Fails
  replace-IsShut file ss a =
      Triple-weaken (replace-IsMade ps ans (All P) file ss (All-IsKept file) a) (λ m p. p)
        (λ t m q. record {
          covered = q.covered;
          shown = q.shown;
          made = q.made;
          through = Shown-All file q.shown q.from;
        })
        (λ e m f. f)
