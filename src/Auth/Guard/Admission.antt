-- ===== src/Auth/Guard/Admission.antt =====
-- Who passes the guard of dayshield-core/src/auth/middleware.rs.
use dayshield_core.Base.{
  ℕ, false, Option, some, ◌≡◌, refl, inl, inr, arith, ok, Option-cases, Outcome-cases,
}
use dayshield_core.Base.Text.{Text}
use dayshield_core.Auth.Session.{
  SessionClaims, Bytes, KeyAnswers, load_or_create_key, Jwt, validate_token,
}
use dayshield_core.Auth.Paths.{is_public_path}
use dayshield_core.Auth.Extraction.{Request, extract_token}
use dayshield_core.Auth.Guard.{forwarded, check_token, auth_middleware_with_key_path}

-- The request carries a token that decodes, with the key of the server, to claims for the user.
pub record IsAdmitted (jwt : Jwt) (now : ℕ) (fs : KeyAnswers) (file : Option Bytes) (req : Request)
    (user : Text) : Type 0 where
  pub key : Bytes
  pub token : Text
  pub claims : SessionClaims
  pub loads : (load_or_create_key fs file).0 ≡ ok key
  pub carries : extract_token req ≡ some token
  pub decodes : jwt.decode now token key ≡ ok claims
  pub subject : claims.sub ≡ user

validate_token_decodes :
    (jwt : Jwt) (now : ℕ) (token : Text) (key : Bytes) {claims : SessionClaims}
    → validate_token jwt now token key ≡ ok claims
    → jwt.decode now token key ≡ ok claims
unfolding validate_token
validate_token_decodes jwt now token key h = ground arith

module _ (jwt : Jwt) (now : ℕ) (fs : KeyAnswers) (file : Option Bytes) (req : Request) where
  check_token_admits :
      (key : Bytes) {user : Option Text}
      → (load_or_create_key fs file).0 ≡ ok key
      → check_token jwt now key req ≡ forwarded user
      → (u : Text) × (user ≡ some u) × IsAdmitted jwt now fs file req u
  unfolding check_token
  check_token_admits key {user} l h = elim (Option-cases (extract_token req)) [
    | inl e ↦ absurd (ground arith)
    | inr (token, e) ↦ elim (Outcome-cases (validate_token jwt now token key)) [
      | inr (x, f) ↦ absurd (ground arith)
      | inl (claims, v) ↦ (
        claims.sub,
        ground arith,
        record {
          key = key;
          token = token;
          claims = claims;
          loads = l;
          carries = e;
          decodes = validate_token_decodes jwt now token key v;
          subject = refl;
        },
      )
    ]
  ]

  -- A request for a path that is not public reaches the handler only as the user of a token that
  -- it carries and that decodes with the key of the server.
  pub auth_middleware-IsAdmitted :
      {user : Option Text}
      → is_public_path req.path ≡ some false
      → (auth_middleware_with_key_path jwt now fs file req).0 ≡ forwarded user
      → (u : Text) × (user ≡ some u) × IsAdmitted jwt now fs file req u
  unfolding auth_middleware_with_key_path
  auth_middleware-IsAdmitted {user} p h = elim (Outcome-cases (load_or_create_key fs file).0) [
    | inr (x, f) ↦ absurd (ground arith)
    | inl (key, l) ↦ check_token_admits key l (ground arith)
  ]
