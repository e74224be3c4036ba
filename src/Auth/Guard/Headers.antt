-- ===== src/Auth/Guard/Headers.antt =====
-- The Authorization header in dayshield-core/src/auth/middleware.rs.
use dayshield_core.Base.{ℕ, false, Option, none, some, ◌∷◌, ◌++◌, ◌≡◌, arith, ok}
use dayshield_core.Base.Text.{Text}
use dayshield_core.Base.Text.Splits.{IsWord, split_ascii_whitespace-two}
use dayshield_core.Auth.Session.{Bytes, KeyAnswers, load_or_create_key, Jwt}
use dayshield_core.Auth.Paths.{is_public_path}
use dayshield_core.Auth.Extraction.{
  Request, header_token, token_from_header, token_from_cookie, token_from_query, extract_token,
}
use dayshield_core.Auth.Guard.{rejected, check_token, auth_middleware_with_key_path}

token_from_header-two :
    (req : Request) (scheme token : Text)
    → IsWord scheme
    → IsWord token
    → req.authorization ≡ some (scheme ++ b' ' ∷ token)
    → token_from_header req ≡ none
unfolding token_from_header header_token
token_from_header-two req scheme token a b h =
    rw h (rw (split_ascii_whitespace-two scheme token a b, header_token) (ground arith))

-- A request whose only token stands in a header of a scheme and a token, as in `Bearer` with a
-- token, is answered with 401 on each path that is not public, whatever the token is.
pub auth_middleware-two_words :
    (jwt : Jwt) (now : ℕ) (fs : KeyAnswers) (file : Option Bytes) (req : Request)
    (scheme token : Text) {key : Bytes}
    → IsWord scheme
    → IsWord token
    → req.authorization ≡ some (scheme ++ b' ' ∷ token)
    → req.query ≡ none
    → req.cookie ≡ none
    → is_public_path req.path ≡ some false
    → (load_or_create_key fs file).0 ≡ ok key
    → (auth_middleware_with_key_path jwt now fs file req).0 ≡ rejected 401 "unauthorized"
unfolding auth_middleware_with_key_path check_token extract_token token_from_query token_from_cookie
auth_middleware-two_words jwt now fs file req scheme token a b h q c p l =
    ground (arith, token_from_header-two req scheme token a b h)
