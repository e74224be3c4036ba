-- ===== src/Auth/Guard.antt =====
-- The middleware that guards the routes: dayshield-core/src/auth/middleware.rs.
pub mod Admission
pub mod Cookies
pub mod Headers
use dayshield_core.Base.{
  ℕ, suc, ◌+◌, ◌≤◌, Bool, true, false, Option, none, some, String, List, [], ◌∷◌, ◌++◌, ◌≡◌, refl,
  inl, inr, ◌↔◌, if◌then◌else◌, arith, Bool-cases, Option-cases, Outcome, ok, err, Outcome-cases,
}
use dayshield_core.Base.Text.{Text}
use dayshield_core.Auth.Session.{
  AuthError, token_expired, SessionClaims, Bytes, KeyAnswers, load_or_create_key, Jwt,
  validate_token,
}
use dayshield_core.Auth.Paths.{is_public_path}
use dayshield_core.Auth.Extraction.{Request, extract_token}

-- What becomes of a request: the next handler gets it, with the authenticated user if it passed
-- the guard, or it is answered with a status and a message.
pub data Reply : Type 0 where
  forwarded : Option Text → Reply
  rejected : ℕ → String → Reply
  panicked : Reply

abbrev token_message : AuthError → String
token_message token_expired = "token expired"
token_message e = "invalid token"

-- the part of the middleware after the key is there
unfoldable pub check_token : Jwt → ℕ → Bytes → Request → Reply
unfolding extract_token validate_token
check_token jwt now key req = elim (extract_token req) [
  | none ↦ rejected 401 "unauthorized"
  | some token ↦ elim (validate_token jwt now token key) [
    | err e ↦ rejected 401 (token_message e)
    | ok claims ↦ forwarded (some claims.sub)
  ]
]

-- The reply, and the key file afterwards.
unfoldable pub auth_middleware_with_key_path :
    Jwt → ℕ → KeyAnswers → Option Bytes → Request → Reply × Option Bytes
unfolding is_public_path load_or_create_key check_token
auth_middleware_with_key_path jwt now fs file req = elim (is_public_path req.path) [
  | none ↦ (panicked, file)
  | some true ↦ (forwarded none, file)
  | some false ↦
      let (loaded, file') = load_or_create_key fs file in
      elim loaded [
        | err e ↦ (rejected 500 "internal server error", file')
        | ok key ↦ (check_token jwt now key req, file')
      ]
]
