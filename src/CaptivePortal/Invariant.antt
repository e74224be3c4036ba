-- ===== src/CaptivePortal/Invariant.antt =====
-- What every sequence of operations keeps of the files of dayshield-core/src/captive_portal.rs.
pub mod Steps
use dayshield_core.Base.{
  ℕ, Bool, true, false, [], ◌≡◌, inl, inr, All, arith, Outcome, ok, Stored, missing, unreadable,
  stored, Outcome-cases, ok_injective, Bool-cases,
}
use mathlib.Core.Path.{subst}
use dayshield_core.Base.Operations.{
  ◌>>=◌, lift, return, Triple, Post, Triple-bind_keep, Triple-lift, Triple-return, Triple-weaken,
  Triple-map_err,
}
use dayshield_core.CaptivePortal.{
  Vouchers, CaptivePortalConfig, SessionList, CaptivePortalError, PlusSeconds,
}
use dayshield_core.CaptivePortal.Sessions.{retain_active, prune_expired_sessions}
use dayshield_core.CaptivePortal.Store.{
  Portal, Answers, Op, read_config, load_config, save_config, write_config, read_sessions,
  read_portal, load_portal, load_sessions, save_sessions, apply_rules, current_sessions,
  apply_current_ruleset_nft, apply_current_ruleset, current_sessions,
}
use dayshield_core.CaptivePortal.Uniqueness.{IsUnique, retain_active-IsUnique}
use dayshield_core.CaptivePortal.Limits.{WithinLimit}

abbrev pub sessions_of : Stored SessionList → SessionList
sessions_of (stored sessions) = sessions
sessions_of _ = []

abbrev pub vouchers_of : Stored CaptivePortalConfig → Vouchers
vouchers_of (stored config) = config.vouchers
vouchers_of _ = []

-- No address has two sessions in the file, and no voucher is used more often than it may be.
pub record IsSound (m : Portal) : Type 0 where
  pub unique : IsUnique (sessions_of m.sessions)
  pub bounded : All WithinLimit (vouchers_of m.config)

-- The operation keeps the invariant, whatever its result, and a good result has R.
abbrev pub Sound : {A : Type 0} → Op A → (A → Type 0) → Type 0
Sound op R = Triple IsSound op (λ a m. IsSound m × R a) (λ e m. IsSound m)

pub Sound-bind :
    {A B : Type 0} {R : A → Type 0} {R' : B → Type 0} {x : Op A} {f : A → Op B}
    → Sound x R
    → ((a : A) → R a → Sound (f a) R')
    → Sound (x >>= f) R'
Sound-bind h k = Triple-bind_keep h k

pub Sound-lift : {A : Type 0} (r : Outcome CaptivePortalError A) → Sound (lift r) (λ a. r ≡ ok a)
Sound-lift r = Triple-lift r

pub Sound-return : {A : Type 0} (a : A) → Sound (return a) (λ b. a ≡ b)
Sound-return a = Triple-return a

abbrev pub Any : {A : Type 0} → A → Type 0
Any a = Unit

Sound-read :
    {A : Type 0} (read : Portal → Outcome CaptivePortalError A) → Sound (λ m. (read m, m)) Any
Sound-read read = record {
  run = λ m p. elim (Outcome-cases (read m)) [ inl (a, e) ↦ rw e (p, tt) | inr (x, e) ↦ rw e p ];
}

-- forgetting what is known of the result
pub Sound-Any : {A : Type 0} {R : A → Type 0} {op : Op A} → Sound op R → Sound op Any
Sound-Any h = Triple-weaken h (λ m p. p) (λ a m p. (p.0, tt)) (λ e m p. p)

read_config_sound :
    (file : Stored CaptivePortalConfig)
    → All WithinLimit (vouchers_of file)
    → (c : CaptivePortalConfig) → read_config file ≡ ok c
    → All WithinLimit c.vouchers
read_config_sound missing b c h = subst (λ x. All WithinLimit x.vouchers) (ok_injective h) tt
read_config_sound unreadable b c h = absurd (ground arith)
read_config_sound (stored d) b c h = subst (λ x. All WithinLimit x.vouchers) (ok_injective h) b

pub load_config-Sound : Sound load_config (λ c. All WithinLimit c.vouchers)
unfolding load_config
load_config-Sound = record {
  run = λ m p. elim (Outcome-cases (read_config m.config)) [
    | inl (c, e) ↦ rw e (p, read_config_sound m.config p.bounded c e)
    | inr (x, e) ↦ rw e p
  ];
}

read_sessions_sound :
    (file : Stored SessionList)
    → IsUnique (sessions_of file)
    → (ss : SessionList) → read_sessions file ≡ ok ss
    → IsUnique ss
read_sessions_sound missing u c h = subst IsUnique (ok_injective h) u
read_sessions_sound unreadable u c h = absurd (ground arith)
read_sessions_sound (stored d) u c h = subst IsUnique (ok_injective h) u

pub load_sessions-Sound : Sound load_sessions IsUnique
unfolding load_sessions
load_sessions-Sound = record {
  run = λ m p. elim (Outcome-cases (read_sessions m.sessions)) [
    | inl (c, e) ↦ rw e (p, read_sessions_sound m.sessions p.unique c e)
    | inr (x, e) ↦ rw e p
  ];
}

pub save_sessions-Sound :
    (works : Bool) (ss : SessionList) → IsUnique ss → Sound (save_sessions works ss) Any
unfolding save_sessions
save_sessions-Sound true ss u = record {
  run = λ m p. (record { unique = u; bounded = p.bounded }, tt);
}
save_sessions-Sound false ss u = record { run = λ m p. p }

pub save_config-Sound :
    (works : Bool) (c : CaptivePortalConfig)
    → All WithinLimit c.vouchers
    → Sound (save_config works c) Any
unfolding save_config
save_config-Sound works c b = record { run = λ m p. saved works m p m.config p.bounded }
  where
    saved :
        (w : Bool) (m : Portal)
        → IsSound m
        → (file : Stored CaptivePortalConfig) → All WithinLimit (vouchers_of file)
        → Post
            (λ a n. IsSound n × Any a)
            (λ e n. IsSound n)
            ((write_config w c file).0, record m { config = (write_config w c file).1 })
    saved w m p unreadable h = record { unique = p.unique; bounded = h }
    saved true m p missing h = (record { unique = p.unique; bounded = b }, tt)
    saved true m p (stored d) h = (record { unique = p.unique; bounded = b }, tt)
    saved false m p missing h = record { unique = p.unique; bounded = h }
    saved false m p (stored d) h = record { unique = p.unique; bounded = h }

apply_rules-Sound :
    (ans : Answers) (file : Stored CaptivePortalConfig) (ss : SessionList)
    → Sound (apply_rules ans file ss) Any
unfolding apply_rules
apply_rules-Sound ans file ss = record {
  run = λ m p. elim (Bool-cases ans.rules_applied) [
    | inl e ↦ rw e (record { unique = p.unique; bounded = p.bounded }, tt)
    | inr e ↦ rw e (record { unique = p.unique; bounded = p.bounded })
  ];
}

module _ (ps : PlusSeconds) where
  pub prune-IsUnique :
      (c : CaptivePortalConfig) (now : ℕ) (ss : SessionList) {kept : SessionList} {fewer : Bool}
      → IsUnique ss
      → prune_expired_sessions ps c now ss ≡ ok (kept, fewer)
      → IsUnique kept
  unfolding prune_expired_sessions
  prune-IsUnique c now ss {kept} u h = elim (Outcome-cases (retain_active ps c now ss)) [
    | inr (e, f) ↦ absurd (ground arith)
    | inl (k, f) ↦ retain_active-IsUnique ps c now ss u (ground (arith))
  ]

module _ (ps : PlusSeconds) (ans : Answers) where
  current_sessions-Sound :
      (file : Stored CaptivePortalConfig) (ss : SessionList)
      → IsUnique ss
      → Sound (current_sessions ps ans file ss) Any
  unfolding current_sessions
  current_sessions-Sound missing ss u = Sound-Any (Sound-return [])
  current_sessions-Sound unreadable ss u = Sound-Any (Sound-return [])
  current_sessions-Sound (stored c) ss u =
      Sound-bind (Sound-lift (prune_expired_sessions ps c (ans.clock 1) ss)) (λ r e.
        Sound-bind (saved r.1 r.0 (prune-IsUnique ps c (ans.clock 1) ss u e))
          (λ t k. Sound-Any (Sound-lift _)))
    where
      saved :
          (fewer : Bool) (kept : SessionList)
          → IsUnique kept
          → Sound
              (elim fewer [ true ↦ save_sessions (ans.sessions_saved 1) kept | false ↦ return tt ])
              Any
      saved true kept v = save_sessions-Sound (ans.sessions_saved 1) kept v
      saved false kept v = Sound-Any (Sound-return tt)

  pub apply_current_ruleset-Sound : Sound (apply_current_ruleset ps ans) Any
  unfolding apply_current_ruleset apply_current_ruleset_nft load_portal
  apply_current_ruleset-Sound =
      Triple-map_err _
        (Sound-bind (Sound-read (λ m. read_portal m.config)) (λ c k.
          Sound-bind load_sessions-Sound (λ ss u.
            Sound-bind (current_sessions-Sound c ss u)
              (λ active j. apply_rules-Sound ans c active))))
        (λ e m h. h)
