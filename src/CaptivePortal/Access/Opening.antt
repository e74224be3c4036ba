-- ===== src/CaptivePortal/Access/Opening.antt =====
-- Opening a session: the authorisation of dayshield-core/src/captive_portal.rs.
use dayshield_core.Base.{
  ℕ, Bool, true, false, not, ◌&&◌, Option, none, some, List, [], ◌∷◌, ◌++◌, ◌≡◌, refl, ap, sym, inl,
  inr, ◌⊎◌, All, IsIn, IsIn-append_right, arith, Outcome, ok, err, ok_injective, Stored, missing,
  unreadable, stored, Outcome-cases, Bool-cases,
}
use mathlib.Core.Path.{subst, ◌∙◌}
use dayshield_core.Base.Operations.{
  lift, return, Triple, Post, Triple-bind, Triple-bind_keep, Triple-return, Triple-weaken,
  Triple-ok,
}
use dayshield_core.Base.Text.{Text, text_eq}
use dayshield_core.CaptivePortal.{
  CaptivePortalConfig, CaptivePortalSession, SessionList, CaptivePortalError, PlusSeconds,
}
use dayshield_core.CaptivePortal.Sessions.{chrono_seconds, session_is_active, retain_active}
use dayshield_core.CaptivePortal.Vouchers.{redeem_voucher}
use dayshield_core.CaptivePortal.Limits.{IsRedeemed, free, redeemed, redeem_voucher-IsRedeemed}
use dayshield_core.CaptivePortal.Store.{
  Portal, Answers, read_config, write_config, save_config, load_config,
}
use dayshield_core.CaptivePortal.Handlers.{
  Peer, AuthorizePortalRequest, client_ip, check_mac, admit, admit_client, expiry, add_session,
  save_if_redeemed, public_authorize, without_ip,
}
use dayshield_core.CaptivePortal.Retained.{retain_active-IsIn}
use dayshield_core.CaptivePortal.Applied.{
  Fails, lift-keeps, load_sessions-config, IsKept, IsMade, save_sessions-replaced,
  apply_current_ruleset-IsMade,
}
use dayshield_core.CaptivePortal.Access.{IsShut, All-IsKept, Shown-All}
use dayshield_core.CaptivePortal.Invariant.{sessions_of}

-- the new session, or one of another address
abbrev pub OnlyFor : CaptivePortalSession → CaptivePortalSession → Type 0
OnlyFor session s = (text_eq s.client_ip session.client_ip ≡ false) ⊎ (s ≡ session)

-- the configuration after the redemption
abbrev pub after_redemption :
    Option ℕ → CaptivePortalConfig → Stored CaptivePortalConfig → Stored CaptivePortalConfig
after_redemption none after file = file
after_redemption (some id) after file = stored after

-- The session is in the list, unless it was no longer active at a reading of the clock.
abbrev pub IsListed :
    PlusSeconds → CaptivePortalConfig → List ℕ → CaptivePortalSession → SessionList → Type 0
IsListed ps cfg [] s ss = IsIn s ss
IsListed ps cfg (now ∷ times) s ss =
    IsListed ps cfg times s ss ⊎ (session_is_active ps cfg s now ≡ ok false)

-- What an authorisation that ends well rests on: an enabled portal, accepted terms where they are
-- required, a redeemed voucher in voucher mode; and what it leaves. The session is in the file,
-- unless the pruning dropped it, and the ruleset was made for it, unless it had lapsed by then.
pub record IsAuthorized (ps : PlusSeconds) (ans : Answers) (file : Stored CaptivePortalConfig)
    (peer : Peer) (req : AuthorizePortalRequest) (session : CaptivePortalSession) (m : Portal)
    : Type 0 where
  pub config : CaptivePortalConfig
  pub redeemed : CaptivePortalConfig
  pub reads : read_config file ≡ ok config
  pub is_enabled : config.enabled ≡ true
  pub terms : (config.terms_required && not req.accept_terms) ≡ false
  pub address : client_ip peer req.client_ip ≡ ok session.client_ip
  pub voucher : IsRedeemed (ans.clock 0) config req.voucher_code session.voucher_id redeemed
  pub lifetime :
      ps (ans.clock 0) (chrono_seconds redeemed.session_ttl_seconds) ≡ some session.expires_at
  pub in_force : stored redeemed ≡ after_redemption session.voucher_id redeemed file
  pub shut : IsShut ps ans (OnlyFor session) (stored redeemed) m
  pub in_file : IsListed ps redeemed (ans.clock 1 ∷ []) session (sessions_of m.sessions)
  pub let_in : IsListed ps redeemed (ans.clock 2 ∷ ans.clock 1 ∷ []) session shut.shown

add-OnlyFor :
    (s : CaptivePortalSession) (ss : SessionList)
    → All (OnlyFor s) (without_ip s.client_ip ss ++ s ∷ [])
add-OnlyFor s [] = (inr refl, tt)
add-OnlyFor s (t ∷ ss) = elim (Bool-cases (text_eq t.client_ip s.client_ip)) [
  | inl e ↦ rw e (add-OnlyFor s ss)
  | inr e ↦ rw e (inl e, add-OnlyFor s ss)
]

admit_client-ip :
    (peer : Peer) (req : AuthorizePortalRequest) {ip : Text}
    → admit_client peer req ≡ ok ip
    → client_ip peer req.client_ip ≡ ok ip
unfolding admit_client
admit_client-ip peer req {ip} h = elim (Outcome-cases (client_ip peer req.client_ip)) [
  | inr (e, f) ↦ absurd (ground arith)
  | inl (x, f) ↦ elim (Outcome-cases (check_mac req.client_mac)) [
    | inr (e, g) ↦ absurd (ground arith)
    | inl (u, g) ↦ f ∙ ap (λ y. ok y) (ground arith)
  ]
]

admit_parts :
    (cfg : CaptivePortalConfig) (peer : Peer) (req : AuthorizePortalRequest) {ip : Text}
    → admit cfg peer req ≡ ok ip
    → (cfg.enabled ≡ true)
      × ((cfg.terms_required && not req.accept_terms) ≡ false)
      × (client_ip peer req.client_ip ≡ ok ip)
unfolding admit
admit_parts cfg peer req {ip} h =
    (ground arith, ground arith, admit_client-ip peer req {ip = ip} (ground arith))

expiry_lem :
    (ps : PlusSeconds) (ans : Answers) (now ttl : ℕ) {t : ℕ}
    → expiry ps ans now ttl ≡ ok t
    → ps now (chrono_seconds ttl) ≡ some t
expiry_lem ps ans now ttl h = ground arith

-- the portal is enabled, so that the file has its configuration
enabled-stored :
    (file : Stored CaptivePortalConfig) (c : CaptivePortalConfig)
    → read_config file ≡ ok c
    → c.enabled ≡ true
    → file ≡ stored c
enabled-stored missing c h e = absurd (ground (arith, ok_injective h))
enabled-stored unreadable c h e = absurd (ground arith)
enabled-stored (stored d) c h e = ap (λ x. stored x) (ok_injective h)

redeemed-in_force :
    (now : ℕ) (config : CaptivePortalConfig) (code : Option Text) (id : Option ℕ)
    (after : CaptivePortalConfig) (file : Stored CaptivePortalConfig)
    → file ≡ stored config
    → IsRedeemed now config code id after
    → stored after ≡ after_redemption id after file
redeemed-in_force now config code id after file h (free e i a) = rw (i, a) (sym h)
redeemed-in_force now config code id after file h (redeemed n vs e u i a) = rw i refl

module _ (ps : PlusSeconds) (ans : Answers) (c : CaptivePortalConfig)
    (s : CaptivePortalSession) where
  -- the session is listed, unless it lapsed, and all others are of other addresses
  abbrev IsAdmitted : SessionList → Type 0
  IsAdmitted ss = All (OnlyFor s) ss × IsListed ps c (ans.clock 1 ∷ []) s ss

  IsListed-retain_active :
      (times : List ℕ) (now : ℕ) (ss kept : SessionList)
      → IsListed ps c times s ss
      → retain_active ps c now ss ≡ ok kept
      → IsListed ps c (now ∷ times) s kept
  IsListed-retain_active [] now ss kept i h = retain_active-IsIn ps c s now ss i h
  IsListed-retain_active (t ∷ times) now ss kept (inl i) h =
      elim (IsListed-retain_active times now ss kept i h) [ inl j ↦ inl (inl j) | inr e ↦ inr e ]
  IsListed-retain_active (t ∷ times) now ss kept (inr e) h = inl (inr e)

  IsAdmitted-IsKept : IsKept ps ans IsAdmitted (stored c)
  IsAdmitted-IsKept ss kept (a, l) h = (
    All-IsKept ps ans (OnlyFor s) (stored c) ss kept a h,
    elim l [ inl i ↦ retain_active-IsIn ps c s (ans.clock 1) ss i h | inr e ↦ inr e ],
  )

  added-IsAdmitted : (ss : SessionList) → IsAdmitted (without_ip s.client_ip ss ++ s ∷ [])
  added-IsAdmitted ss =
      (add-OnlyFor s ss, inl (IsIn-append_right s (without_ip s.client_ip ss) (s ∷ []) (inl refl)))

  add_session_triple :
      Triple
        (λ m. m.config ≡ stored c)
        (add_session ps ans s)
        (λ r m. IsMade ps ans IsAdmitted (stored c) m × (s ≡ r))
        Fails
  unfolding add_session
  add_session_triple = Triple-bind_keep (load_sessions-config (stored c)) (λ ss t.
      Triple-bind (save_sessions-replaced ps ans IsAdmitted (stored c) _ (added-IsAdmitted ss))
        (λ t'.
          Triple-bind (apply_current_ruleset-IsMade ps ans IsAdmitted (stored c) IsAdmitted-IsKept)
            (λ t''. Triple-return s)))

  admitted-IsShut :
      (m : Portal)
      → IsMade ps ans IsAdmitted (stored c) m
      → (shut : IsShut ps ans (OnlyFor s) (stored c) m) × IsListed ps c
          (ans.clock 2 ∷ ans.clock 1 ∷ [])
          s
          shut.shown
  admitted-IsShut m p =
      let (kept, a, h) = p.from in
      (
        record {
          covered = p.covered.0;
          shown = p.shown;
          made = p.made;
          through = Shown-All ps ans (OnlyFor s) (stored c) p.shown (kept, a.0, h);
        },
        IsListed-retain_active (ans.clock 1 ∷ []) (ans.clock 2) kept p.shown a.1 h,
      )

module _ (ps : PlusSeconds) (ans : Answers) where
  save_if_redeemed_triple :
      (file : Stored CaptivePortalConfig) (id : Option ℕ) (c : CaptivePortalConfig)
      → Triple
          (λ m. m.config ≡ file)
          (save_if_redeemed ps ans id c)
          (λ t m. m.config ≡ after_redemption id c file)
          Fails
  unfolding save_config return lift
  save_if_redeemed_triple file none c = record { run = λ m p. p }
  save_if_redeemed_triple file (some id) c = record {
    run = λ m p. saved ans.config_saved m m.config;
  }
    where
      saved :
          (w : Bool) (m : Portal) (f : Stored CaptivePortalConfig)
          → Post
              (λ t n. n.config ≡ stored c)
              Fails
              ((write_config w c f).0, record m { config = (write_config w c f).1 })
      saved w m unreadable = tt
      saved true m missing = refl
      saved true m (stored d) = refl
      saved false m missing = tt
      saved false m (stored d) = tt

  load_config-keeps :
      (file : Stored CaptivePortalConfig)
      → Triple
          (λ m. m.config ≡ file)
          load_config
          (λ c m. (m.config ≡ file) × (read_config file ≡ ok c))
          Fails
  unfolding load_config
  load_config-keeps file = record {
    run = λ m p. loaded m p (read_config m.config) (ap read_config (sym p));
  }
    where
      loaded :
          (m : Portal)
          → m.config ≡ file
          → (r : Outcome CaptivePortalError CaptivePortalConfig) → read_config file ≡ r
          → Post (λ c n. (n.config ≡ file) × (read_config file ≡ ok c)) Fails (r, m)
      loaded m p (ok c) e = (p, e)
      loaded m p (err x) e = tt

  authorize_triple :
      (peer : Peer) (agent : Option Text) (req : AuthorizePortalRequest)
      (file : Stored CaptivePortalConfig)
      → Triple
          (λ m. m.config ≡ file)
          (public_authorize ps ans peer agent req)
          (λ s m. IsAuthorized ps ans file peer req s m)
          Fails
  unfolding public_authorize
  authorize_triple peer agent req file = Triple-bind_keep (load_config-keeps file) (λ c reads.
      Triple-bind_keep (lift-keeps _ (admit c peer req)) (λ ip admits.
        Triple-bind_keep (lift-keeps _ (redeem_voucher c req.voucher_code (ans.clock 0)))
          (λ r redeems. Triple-bind (save_if_redeemed_triple file r.0 r.1) (λ t.
            Triple-bind_keep (lift-keeps _ _) (λ expires_at expires.
              (let parts = admit_parts c peer req admits in
                let used = redeem_voucher-IsRedeemed c req.voucher_code (ans.clock 0) redeems in
                let in_force =
                  redeemed-in_force (ans.clock 0) c req.voucher_code r.0 r.1 file
                    (enabled-stored file c reads parts.0) used in
                Triple-weaken (add_session_triple ps ans r.1 _) (λ m p. p ∙ sym in_force)
                  (λ s m q.
                    (let (shut, let_in) = admitted-IsShut ps ans r.1 _ m q.0 in
                      subst (λ x. IsAuthorized ps ans file peer req x m) q.1
                        (record {
                          config = c;
                          redeemed = r.1;
                          reads = reads;
                          is_enabled = parts.0;
                          terms = parts.1;
                          address = parts.2;
                          voucher = used;
                          lifetime = expiry_lem ps ans (ans.clock 0) _ expires;
                          in_force = in_force;
                          shut = shut;
                          in_file = q.0.covered.1;
                          let_in = let_in;
                        })))
                  (λ e m f. tt)))))))

  -- An authorisation that ends well came through an enabled portal, with the terms accepted where
  -- they are required, and in voucher mode counted a use of a usable voucher. Its session is for
  -- the client's address and lasts as configured. It is in the session file, unless it had lapsed
  -- when the list was pruned, and among the sessions that the ruleset in force was made of, unless
  -- it had lapsed by then. All other sessions, of the file and of the ruleset, have other address
  -- texts, and those of the ruleset are active.
  pub public_authorize-IsAuthorized :
      (peer : Peer) (agent : Option Text) (req : AuthorizePortalRequest) (m : Portal)
      {s : CaptivePortalSession}
      → (public_authorize ps ans peer agent req m).0 ≡ ok s
      → IsAuthorized ps ans m.config peer req s (public_authorize ps ans peer agent req m).1
  public_authorize-IsAuthorized peer agent req m h =
      Triple-ok m (authorize_triple peer agent req m.config) refl h
