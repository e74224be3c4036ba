-- ===== src/Auth/Guard/Cookies.antt =====
-- From the creation of a session token to the requests that carry it in their cookie:
-- dayshield-core/src/auth.
use dayshield_core.Base.{
  ℕ, ◌+◌, ◌≤◌, ◌<◌, true, false, not, Option, none, some, [], ◌∷◌, ◌++◌, ◌≡◌, refl, min, all,
  length, ◌==◌, arith, ok, err,
}
use dayshield_core.Base.Text.{
  Text, codes, is_whitespace, is_ascii_alphanumeric, is_ascii_digit, split,
}
use dayshield_core.Base.Text.Affixes.{strip_prefix-append}
use dayshield_core.Base.Text.Splits.{all-append, trim-all, split-all}
use dayshield_core.Auth.Session.{
  token_expired, SessionClaims, Bytes, KeyAnswers, load_or_create_key, Jwt, IsJwt, is_token_char,
  create_token, create_token_with_lifetime, validate_token, session_duration_secs, u64_max,
  expired_signature, key_bytes,
}
use dayshield_core.Auth.Session.KeyFile.{load_or_create_key_stored}
use dayshield_core.Auth.Paths.{is_public_path}
use dayshield_core.Auth.Extraction.{
  Request, token_from_header, token_from_query, token_from_cookie, cookie_token, extract_token,
}
use dayshield_core.Auth.Guard.{
  Reply, forwarded, rejected, check_token, auth_middleware_with_key_path,
}

token_char_solid :
    (c : ℕ) → is_token_char c ≡ true → (not (is_whitespace c) ≡ true) × (not (c == b';') ≡ true)
unfolding is_whitespace is_ascii_alphanumeric is_ascii_digit
token_char_solid c h = ground arith

token_chars_solid :
    (t : Text)
    → all is_token_char t ≡ true
    → (all (λ c. not (is_whitespace c)) t ≡ true) × (all (λ c. not (c == b';')) t ≡ true)
token_chars_solid [] h = (refl, refl)
token_chars_solid (c ∷ t) h =
    let one = token_char_solid c (ground arith) in
    let ih = token_chars_solid t (ground arith) in (ground arith, ground arith)

cookie_token-session :
    (t : Text)
    → all is_token_char t ≡ true
    → cookie_token (split b';' (codes "session=" ++ t)) ≡ some t
unfolding cookie_token is_whitespace
cookie_token-session t h =
    let (solid, single) = token_chars_solid t h in
    rw
      (
        split-all b';' (codes "session=" ++ t)
            (ground (arith, all-append (λ c. not (c == b';')) (codes "session=") t)),
        cookie_token,
      )
      (rw (trim-all (codes "session=" ++ t) (ground (arith, solid)), cookie_token)
        (rw (strip_prefix-append (codes "session=") t, cookie_token) refl))

create_token_parts :
    (jwt : Jwt) (username : Text) (key : Bytes) (issued : ℕ) {token : Text}
    → create_token jwt username key issued ≡ ok token
    → jwt.encode
        (record {
          sub = username;
          iat = issued;
          exp = min (issued + session_duration_secs) u64_max;
        })
        key
      ≡ some token
unfolding create_token create_token_with_lifetime
create_token_parts jwt username key issued h = ground arith

-- a request that only carries a cookie with the token
pub record CarriesCookie (token : Text) (req : Request) : Type 0 where
  pub cookie_is : req.cookie ≡ some (codes "session=" ++ token)
  pub no_header : req.authorization ≡ none
  pub no_query : req.query ≡ none
  pub is_protected : is_public_path req.path ≡ some false

extract_token-cookie :
    (token : Text) (req : Request)
    → CarriesCookie token req
    → all is_token_char token ≡ true
    → extract_token req ≡ some token
unfolding extract_token token_from_header token_from_query token_from_cookie
extract_token-cookie token req c h =
    ground (arith, cookie_token-session token h, c.cookie_is, c.no_header, c.no_query)

validate_token-decode :
    (jwt : Jwt) (now : ℕ) (token : Text) (key : Bytes)
    → length key ≡ key_bytes
    → (claims : SessionClaims) → jwt.decode now token key ≡ ok claims
    → validate_token jwt now token key ≡ ok claims
unfolding validate_token
validate_token-decode jwt now token key l claims h =
    rw (l, validate_token) (rw (h, validate_token) refl)

validate_token-expired :
    (jwt : Jwt) (now : ℕ) (token : Text) (key : Bytes)
    → length key ≡ key_bytes
    → jwt.decode now token key ≡ err expired_signature
    → validate_token jwt now token key ≡ err token_expired
unfolding validate_token
validate_token-expired jwt now token key l h = rw (l, validate_token) (rw (h, validate_token) refl)

module _ (jwt : Jwt) (laws : IsJwt jwt) (fs : KeyAnswers) (file : Option Bytes) (username : Text)
    (issued now : ℕ) (req : Request) {key token : Bytes}
    (random_filled : length fs.random ≡ key_bytes) (loads : (load_or_create_key fs file).0 ≡ ok key)
    (created : create_token jwt username key issued ≡ ok token)
    (carried : CarriesCookie token req) where
  checked :
      {r : Reply}
      → check_token jwt now key req ≡ r
      → (auth_middleware_with_key_path jwt now fs file req).0 ≡ r
  unfolding auth_middleware_with_key_path
  checked {r} h = ground (arith, carried.is_protected, loads)

  extracted : extract_token req ≡ some token
  extracted =
      extract_token-cookie token req carried
        (laws.in_alphabet _ key token (create_token_parts jwt username key issued created))

  -- A session token that was created with the key of the server lets a request that carries it in
  -- its cookie pass as the user it names, until eight hours after it was issued, or until the
  -- largest 64-bit time.
  pub create_token-auth_middleware :
      now ≤ min (issued + session_duration_secs) u64_max
      → (auth_middleware_with_key_path jwt now fs file req).0 ≡ forwarded (some username)
  unfolding check_token
  create_token-auth_middleware h =
      let parts = create_token_parts jwt username key issued created in
      let l = (load_or_create_key_stored fs file random_filled loads).0 in
      checked (
        rw (extracted, check_token)
          (rw
            (
              validate_token-decode jwt now token key l _ (laws.decodes _ key token now parts h),
              check_token,
            )
            refl))

  -- A minute after the eight hours are over, the same request is answered with 401.
  pub create_token-expired :
      min (issued + session_duration_secs) u64_max + 60 < now
      → (auth_middleware_with_key_path jwt now fs file req).0 ≡ rejected 401 "token expired"
  unfolding check_token
  create_token-expired h =
      let parts = create_token_parts jwt username key issued created in
      let l = (load_or_create_key_stored fs file random_filled loads).0 in
      checked (
        rw (extracted, check_token)
          (rw
            (
              validate_token-expired jwt now token key l (laws.expires _ key token now parts h),
              check_token,
            )
            refl))
