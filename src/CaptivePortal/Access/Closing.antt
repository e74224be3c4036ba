-- ===== src/CaptivePortal/Access/Closing.antt =====
-- Ending sessions: the logout and the revocation of dayshield-core/src/captive_portal.rs.
use dayshield_core.Base.{
  ℕ, false, none, [], ◌∷◌, ◌≡◌, refl, sym, inl, inr, All, ◌==◌, ok, ok_injective, Stored,
  Bool-cases,
}
use mathlib.Core.Path.{subst, ◌∙◌}
use dayshield_core.Base.Operations.{◌>>◌, Triple, Triple-bind_keep, Triple-ok}
use dayshield_core.Base.Text.{Text, text_eq}
use dayshield_core.CaptivePortal.{CaptivePortalConfig, SessionList, PlusSeconds}
use dayshield_core.CaptivePortal.Store.{Portal, Answers, save_sessions, apply_current_ruleset}
use dayshield_core.CaptivePortal.Handlers.{
  Peer, client_ip, public_logout, without_ip, without_id, revoke_admin_session,
}
use dayshield_core.CaptivePortal.Applied.{Fails, lift-keeps, load_sessions-config}
use dayshield_core.CaptivePortal.Access.{IsShut, replace-IsShut}

pub All-without_ip :
    (ip : Text) (ss : SessionList) → All (λ s. text_eq s.client_ip ip ≡ false) (without_ip ip ss)
All-without_ip ip [] = tt
All-without_ip ip (s ∷ ss) = elim (Bool-cases (text_eq s.client_ip ip)) [
  | inl e ↦ rw e (All-without_ip ip ss)
  | inr e ↦ rw e (e, All-without_ip ip ss)
]

All-without_id : (id : ℕ) (ss : SessionList) → All (λ s. (s.id == id) ≡ false) (without_id id ss)
All-without_id id [] = tt
All-without_id id (s ∷ ss) = elim (Bool-cases (s.id == id)) [
  | inl e ↦ rw e (All-without_id id ss)
  | inr e ↦ rw e (e, All-without_id id ss)
]

module _ (ps : PlusSeconds) (ans : Answers) where
  logout_triple :
      (peer : Peer) (ip : Text) (file : Stored CaptivePortalConfig)
      → client_ip peer none ≡ ok ip
      → Triple
          (λ m. m.config ≡ file)
          (public_logout ps ans peer)
          (λ t m. IsShut ps ans (λ s. text_eq s.client_ip ip ≡ false) file m)
          Fails
  unfolding public_logout
  logout_triple peer ip file h = Triple-bind_keep (lift-keeps _ (client_ip peer none)) (λ x e.
      Triple-bind_keep (load_sessions-config file) (λ ss t.
        subst
          (λ y.
            Triple (λ m. m.config ≡ file)
              (save_sessions (ans.sessions_saved 0) (without_ip y ss)
                >> apply_current_ruleset ps ans)
              (λ u m. IsShut ps ans (λ s. text_eq s.client_ip ip ≡ false) file m) Fails)
          (ok_injective (sym h ∙ e))
          (replace-IsShut ps ans _ file (without_ip ip ss) (All-without_ip ip ss))))

  -- After a logout that ends well no session with the text of the client's address is left in the
  -- session file, and the ruleset in force was made of the configuration of the file and of active
  -- sessions with other address texts.
  pub public_logout-IsShut :
      (peer : Peer) (ip : Text) (m : Portal)
      → client_ip peer none ≡ ok ip
      → (public_logout ps ans peer m).0 ≡ ok tt
      → IsShut ps ans (λ s. text_eq s.client_ip ip ≡ false) m.config (public_logout ps ans peer m).1
  public_logout-IsShut peer ip m h k = Triple-ok m (logout_triple peer ip m.config h) refl k

  revoke_triple :
      (id : ℕ) (file : Stored CaptivePortalConfig)
      → Triple
          (λ m. m.config ≡ file)
          (revoke_admin_session ps ans id)
          (λ t m. IsShut ps ans (λ s. (s.id == id) ≡ false) file m)
          Fails
  unfolding revoke_admin_session
  revoke_triple id file = Triple-bind_keep (load_sessions-config file) (λ ss t.
      Triple-bind_keep (lift-keeps _ _)
        (λ x e. replace-IsShut ps ans _ file (without_id id ss) (All-without_id id ss)))

  -- After a revocation that ends well no session with the id is left in the session file, and the
  -- ruleset in force was made of the configuration of the file and of active sessions with other
  -- ids.
  revoke_admin_session-IsShut :
      (id : ℕ) (m : Portal)
      → (revoke_admin_session ps ans id m).0 ≡ ok tt
      → IsShut ps ans (λ s. (s.id == id) ≡ false) m.config (revoke_admin_session ps ans id m).1
  revoke_admin_session-IsShut id m k = Triple-ok m (revoke_triple id m.config) refl k
