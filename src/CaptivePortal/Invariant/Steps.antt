-- ===== src/CaptivePortal/Invariant/Steps.antt =====
-- The handlers of dayshield-core/src/captive_portal.rs as steps, and what every sequence keeps.
use dayshield_core.Base.{
  ℕ, Bool, true, false, Option, none, some, All, Outcome, ok, err, inl, inr, Stored, missing,
  unreadable, stored, Bool-cases, ◌≡◌, refl, arith,
}
use dayshield_core.Base.Operations.{◌>>◌, return, Post}
use dayshield_core.Base.Text.{Text}
use dayshield_core.CaptivePortal.{
  CaptivePortalConfig, CaptivePortalSession, SessionList, CaptivePortalError, PortalConfigError,
  PlusSeconds,
}
use dayshield_core.CaptivePortal.Sessions.{prune_expired_sessions}
use dayshield_core.CaptivePortal.Vouchers.{redeem_voucher}
use dayshield_core.CaptivePortal.Store.{Portal, Answers, save_sessions, apply_current_ruleset}
use dayshield_core.CaptivePortal.Handlers.{
  Peer, AuthorizePortalRequest, CreateSessionRequest, as_portal_error, ipv6_setting, save_if_fewer,
  update_admin_config, client_ip, admit, check_admin_session, add_session, save_if_redeemed,
  public_authorize, public_logout, touch, save_if_found, public_status, create_admin_session,
  without_ip, without_id, revoke_admin_session, reap_enabled, reap_config, reap,
}
use dayshield_core.CaptivePortal.Uniqueness.{
  IsUnique, filter-IsUnique, add-IsUnique, touch-IsUnique,
}
use dayshield_core.CaptivePortal.Config.{normalize_config, validate_captive_portal_config_with_ipv6}
use dayshield_core.CaptivePortal.Limits.{
  WithinLimit, redeem_voucher-WithinLimit, validate-WithinLimit,
}
use dayshield_core.CaptivePortal.Invariant.{
  IsSound, Sound, Any, Sound-bind, Sound-lift, Sound-return, Sound-Any, load_config-Sound,
  load_sessions-Sound, save_sessions-Sound, save_config-Sound, prune-IsUnique,
  apply_current_ruleset-Sound,
}

as_portal_error_ok :
    (r : Outcome PortalConfigError (Unit {0})) {u : Unit} → as_portal_error r ≡ ok u → r ≡ ok tt
as_portal_error_ok (ok u) h = refl
as_portal_error_ok (err e) h = absurd (ground arith)

module _ (ps : PlusSeconds) (ans : Answers) where
  add_session-Sound : (s : CaptivePortalSession) → Sound (add_session ps ans s) Any
  unfolding add_session
  add_session-Sound s = Sound-bind load_sessions-Sound (λ ss u.
      Sound-bind (save_sessions-Sound (ans.sessions_saved 0) _ (add-IsUnique s ss u)) (λ t k.
        Sound-bind (apply_current_ruleset-Sound ps ans) (λ t' k'. Sound-Any (Sound-return s))))

  -- the end of the handlers that only leave sessions out
  replace-Sound :
      (ss : SessionList)
      → IsUnique ss
      → Sound (save_sessions (ans.sessions_saved 0) ss >> apply_current_ruleset ps ans) Any
  replace-Sound ss u =
      Sound-bind (save_sessions-Sound (ans.sessions_saved 0) ss u)
        (λ t k. apply_current_ruleset-Sound ps ans)

  save_if_redeemed-Sound :
      (id : Option ℕ) (c : CaptivePortalConfig)
      → All WithinLimit c.vouchers
      → Sound (save_if_redeemed ps ans id c) Any
  save_if_redeemed-Sound none c b = Sound-Any (Sound-return tt)
  save_if_redeemed-Sound (some id) c b = save_config-Sound ans.config_saved c b

  public_authorize-Sound :
      (peer : Peer) (agent : Option Text) (req : AuthorizePortalRequest)
      → Sound (public_authorize ps ans peer agent req) Any
  unfolding public_authorize
  public_authorize-Sound peer agent req = Sound-bind load_config-Sound (λ c b.
      Sound-bind (Sound-lift (admit c peer req)) (λ ip e.
        Sound-bind (Sound-lift (redeem_voucher c req.voucher_code (ans.clock 0))) (λ r f.
          Sound-bind
            (save_if_redeemed-Sound r.0 r.1
              (redeem_voucher-WithinLimit c req.voucher_code (ans.clock 0) b f))
            (λ t k. Sound-bind (Sound-lift _) (λ x y. add_session-Sound _)))))

  public_logout-Sound : (peer : Peer) → Sound (public_logout ps ans peer) Any
  unfolding public_logout
  public_logout-Sound peer = Sound-bind (Sound-lift (client_ip peer none)) (λ ip e.
      Sound-bind load_sessions-Sound
        (λ ss u. replace-Sound (without_ip ip ss) (filter-IsUnique _ ss u)))

  save_if_found-Sound :
      (found : Option CaptivePortalSession) (ss : SessionList)
      → IsUnique ss
      → Sound (save_if_found ps ans found ss) Any
  save_if_found-Sound none ss u = Sound-Any (Sound-return tt)
  save_if_found-Sound (some s) ss u = save_sessions-Sound (ans.sessions_saved 0) ss u

  public_status-Sound : (peer : Peer) → Sound (public_status ps ans peer) Any
  unfolding public_status
  public_status-Sound peer = Sound-bind load_config-Sound (λ c b.
      Sound-bind (Sound-lift (client_ip peer none)) (λ ip e. Sound-bind load_sessions-Sound (λ ss u.
        Sound-bind (Sound-lift (touch ps ans c ip ss)) (λ r f.
          Sound-bind (save_if_found-Sound r.0 r.1 (touch-IsUnique ps c ans ip ss u f))
            (λ t k. Sound-Any (Sound-return _))))))

  create_admin_session-Sound :
      (req : CreateSessionRequest) → Sound (create_admin_session ps ans req) Any
  unfolding create_admin_session
  create_admin_session-Sound req = Sound-bind (Sound-lift (check_admin_session req)) (λ t k.
      Sound-bind load_config-Sound (λ c b.
        Sound-bind (Sound-lift _)
          (λ t' k'. Sound-bind (Sound-lift _) (λ x y. add_session-Sound _))))

  revoke_admin_session-Sound : (id : ℕ) → Sound (revoke_admin_session ps ans id) Any
  unfolding revoke_admin_session
  revoke_admin_session-Sound id = Sound-bind load_sessions-Sound (λ ss u.
      Sound-bind (Sound-lift _) (λ t k. replace-Sound (without_id id ss) (filter-IsUnique _ ss u)))

  save_if_fewer-Sound :
      (fewer : Bool) (kept : SessionList)
      → IsUnique kept
      → Sound (save_if_fewer ps ans fewer kept) Any
  save_if_fewer-Sound true kept u = save_sessions-Sound (ans.sessions_saved 0) kept u
  save_if_fewer-Sound false kept u = Sound-Any (Sound-return tt)

  update_admin_config-Sound : (c : CaptivePortalConfig) → Sound (update_admin_config ps ans c) Any
  unfolding update_admin_config
  update_admin_config-Sound c = Sound-bind (Sound-lift (ipv6_setting ans.ipv6_enabled)) (λ v6 k.
      Sound-bind
        (Sound-lift
          (as_portal_error (validate_captive_portal_config_with_ipv6 (normalize_config c) v6)))
        (λ t e.
          Sound-bind
            (save_config-Sound ans.config_saved (normalize_config c)
              (validate-WithinLimit (normalize_config c) v6 (as_portal_error_ok _ e)))
            (λ t' k'. Sound-bind load_sessions-Sound (λ ss u.
              Sound-bind
                (Sound-lift (prune_expired_sessions ps (normalize_config c) (ans.clock 0) ss))
                (λ r f.
                  Sound-bind
                    (save_if_fewer-Sound r.1 r.0
                      (prune-IsUnique ps (normalize_config c) (ans.clock 0) ss u f))
                    (λ t'' k''.
                      Sound-bind (apply_current_ruleset-Sound ps ans)
                        (λ t3 k3. Sound-Any (Sound-return _))))))))

  reap_enabled-Sound : (c : CaptivePortalConfig) → Sound (reap_enabled ps ans c) Any
  unfolding reap_enabled
  reap_enabled-Sound c = Sound-bind load_sessions-Sound (λ ss u.
      Sound-bind (Sound-lift (prune_expired_sessions ps c (ans.clock 0) ss))
        (λ r e. finish r.1 r.0 (prune-IsUnique ps c (ans.clock 0) ss u e)))
    where
      finish :
          (fewer : Bool) (kept : SessionList)
          → IsUnique kept
          → Sound
              (elim fewer [
                | false ↦ return tt
                | true ↦ save_sessions (ans.sessions_saved 0) kept >> apply_current_ruleset ps ans
              ])
              Any
      finish true kept v = replace-Sound kept v
      finish false kept v = Sound-Any (Sound-return tt)

  reap_config-Sound : (file : Stored CaptivePortalConfig) → Sound (reap_config ps ans file) Any
  unfolding reap_config
  reap_config-Sound missing = Sound-Any (Sound-return tt)
  reap_config-Sound unreadable = Sound-Any (Sound-return tt)
  reap_config-Sound (stored c) = elim (Bool-cases c.enabled) [
    | inl e ↦ rw e (reap_enabled-Sound c)
    | inr e ↦ rw e (Sound-Any (Sound-return tt))
  ]

  reap-Sound : Sound (reap ps ans) Any
  unfolding reap
  reap-Sound = record { run = λ m p. (reap_config-Sound m.config).run m p }

module _ (ps : PlusSeconds) where
  -- One operation, with any answers from outside and whether it ends well or fails.
  pub data Step (m : Portal) : Portal → Type 0 where
    authorize :
        (ans : Answers) (peer : Peer) (agent : Option Text) (req : AuthorizePortalRequest)
        → Step m (public_authorize ps ans peer agent req m).1
    logout : (ans : Answers) (peer : Peer) → Step m (public_logout ps ans peer m).1
    configure :
        (ans : Answers) (config : CaptivePortalConfig)
        → Step m (update_admin_config ps ans config m).1
    status : (ans : Answers) (peer : Peer) → Step m (public_status ps ans peer m).1
    create :
        (ans : Answers) (req : CreateSessionRequest) → Step m (create_admin_session ps ans req m).1
    revoke : (ans : Answers) (id : ℕ) → Step m (revoke_admin_session ps ans id m).1
    reaper : (ans : Answers) → Step m (reap ps ans m).1

  -- The states that some sequence of operations leads to.
  pub data Reachable (m : Portal) : Portal → Type 0 where
    start : Reachable m m
    step : {n k : Portal} → Reachable m n → Step n k → Reachable m k

  Post-IsSound :
      {A : Type 0} (o : Outcome CaptivePortalError A × Portal)
      → Post (λ a n. IsSound n × Any a) (λ e n. IsSound n) o
      → IsSound o.1
  Post-IsSound (ok a, n) h = h.0
  Post-IsSound (err e, n) h = h

  Step-IsSound : {m n : Portal} → IsSound m → Step m n → IsSound n
  Step-IsSound {m} p (authorize ans peer agent req) =
      Post-IsSound _ ((public_authorize-Sound ps ans peer agent req).run m p)
  Step-IsSound {m} p (logout ans peer) = Post-IsSound _ ((public_logout-Sound ps ans peer).run m p)
  Step-IsSound {m} p (configure ans config) =
      Post-IsSound _ ((update_admin_config-Sound ps ans config).run m p)
  Step-IsSound {m} p (status ans peer) = Post-IsSound _ ((public_status-Sound ps ans peer).run m p)
  Step-IsSound {m} p (create ans req) =
      Post-IsSound _ ((create_admin_session-Sound ps ans req).run m p)
  Step-IsSound {m} p (revoke ans id) =
      Post-IsSound _ ((revoke_admin_session-Sound ps ans id).run m p)
  Step-IsSound {m} p (reaper ans) = Post-IsSound _ ((reap-Sound ps ans).run m p)

  -- Over any sequence of the operations of the portal for clients, for administrators, changes of
  -- the configuration included, and of the reaper, those that fail at any point included, each
  -- client address, as it is written, has at most one session in the session file and no voucher
  -- of the configuration counts more uses than it may have, if that was so at the start.
  pub Reachable-IsSound : {m n : Portal} → IsSound m → Reachable m n → IsSound n
  Reachable-IsSound p start = p
  Reachable-IsSound p (step r s) = Step-IsSound (Reachable-IsSound p r) s
