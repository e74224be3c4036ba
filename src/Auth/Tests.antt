-- ===== src/Auth/Tests.antt =====
-- Runs and instances of the session and guard functions at concrete inputs.
use dayshield_core.Base.{
  Bool, true, false, ◌&&◌, Option, none, some, [], ◌∷◌, ◌≡◌, refl, inl, inr, ◌↔◌, ap, length, leb,
  ◌==◌, if◌then◌else◌, arith, ok, err, Bool-cases, ==_iff,
}
use dayshield_core.Base.Text.{
  Text, codes, text_eq, text_eq_iff, eq_ignore_ascii_case, to_ascii_lowercase, is_ascii_whitespace,
  is_ascii_alphanumeric, is_ascii_digit,
}
use dayshield_core.Auth.Session.{
  SessionClaims, Bytes, KeyAnswers, load_or_create_key, create_key, Jwt, IsJwt, create_token,
  create_token_with_lifetime, expired_signature, other_error, key_bytes,
}
use dayshield_core.Auth.Session.KeyFile.{load_or_create_key-stable}
use dayshield_core.Auth.Paths.{is_public_path, has_any_prefix, has_prefix, slice_to}
use dayshield_core.Auth.Paths.Public.{IsPublic, is_public_path_iff}
use dayshield_core.Auth.Extraction.{Request}
use dayshield_core.Auth.Guard.{forwarded, rejected, auth_middleware_with_key_path}
use dayshield_core.Auth.Guard.Admission.{IsAdmitted, auth_middleware-IsAdmitted}
use dayshield_core.Auth.Guard.Headers.{auth_middleware-two_words}
use dayshield_core.Auth.Guard.Cookies.{
  CarriesCookie, create_token-auth_middleware, create_token-expired,
}

abbrev server_key : Bytes
server_key = codes "0123456789abcdef0123456789abcdef"

abbrev good_fs : KeyAnswers
good_fs = record {
  readable = true;
  random = server_key;
  dir_created = true;
  removed = true;
  file_created = true;
  written = true;
  partly_written = [];
}

load_or_create_key-stable_example :
    (length server_key ≡ key_bytes)
    × (load_or_create_key good_fs (load_or_create_key good_fs (some (1 ∷ []))).1
        ≡ (ok server_key, some server_key))
unfolding load_or_create_key create_key
load_or_create_key-stable_example =
    load_or_create_key-stable good_fs good_fs (some (1 ∷ [])) refl refl refl

is_public_path_iff_example :
    (b : Bool) × (is_public_path (codes "/Portal/x") ≡ some b)
    × ((b ≡ true) ↔ IsPublic (codes "/Portal/x"))
is_public_path_iff_example = is_public_path_iff (codes "/Portal/x") refl

portal_is_public : is_public_path (codes "/Portal/x") ≡ some true
unfolding is_public_path has_any_prefix has_prefix slice_to eq_ignore_ascii_case to_ascii_lowercase
portal_is_public = refl

split_letter_panics : is_public_path (codes "/portaé") ≡ none
unfolding is_public_path has_any_prefix has_prefix slice_to eq_ignore_ascii_case to_ascii_lowercase
split_letter_panics = refl

-- An instance of the crate that knows one set of claims and one key.
abbrev admin_claims : SessionClaims
admin_claims = record { sub = codes "admin"; iat = 1000; exp = 29800 }

abbrev is_admin : SessionClaims → Bool
is_admin c = text_eq c.sub (codes "admin") && c.iat == 1000 && c.exp == 29800

abbrev test_jwt : Jwt
test_jwt = record {
  encode = λ c k. if is_admin c && text_eq k server_key then some (codes "aa.bb.cc") else none;
  decode = λ now t k.
      if text_eq t (codes "aa.bb.cc") && text_eq k server_key
      then (if leb now 29860 then ok admin_claims else err expired_signature)
      else err other_error;
}

encode_parts :
    (c : SessionClaims) (k : Bytes) (t : Text)
    → test_jwt.encode c k ≡ some t
    → (is_admin c ≡ true) × (text_eq k server_key ≡ true) × (t ≡ codes "aa.bb.cc")
encode_parts c k t h = elim (Bool-cases (is_admin c && text_eq k server_key)) [
  | inl e ↦ (ground arith, ground arith, ground arith)
  | inr e ↦ absurd (ground arith)
]

is_admin_claims : (c : SessionClaims) → is_admin c ≡ true → c ≡ admin_claims
is_admin_claims c h =
    let s : c.sub ≡ codes "admin" = (text_eq_iff c.sub (codes "admin")).0 (ground arith) in
    let a : c.iat ≡ 1000 = (==_iff c.iat 1000).0 (ground arith) in
    let e : c.exp ≡ 29800 = (==_iff c.exp 29800).0 (ground arith) in
    λ i. record { sub = s i; iat = a i; exp = e i }

test_jwt-IsJwt : IsJwt test_jwt
unfolding is_ascii_alphanumeric is_ascii_digit
test_jwt-IsJwt = record {
  in_alphabet = λ c k t h. rw (encode_parts c k t h).2 refl;
  decodes = λ c k t now h le.
      (let p = encode_parts c k t h in
        ground
          (arith, p.2, p.1, is_admin_claims c p.0, ap (λ x. x.exp) (is_admin_claims c p.0), le));
  expires = λ c k t now h lt.
      (let p = encode_parts c k t h in
        ground (arith, p.2, p.1, ap (λ x. x.exp) (is_admin_claims c p.0), lt));
}

abbrev request_with : Option Text → Option Text → Request
request_with authorization cookie = record {
  path = codes "/system/reboot";
  query = none;
  authorization = authorization;
  cookie = cookie;
}

abbrev cookie_request : Request
cookie_request = request_with none (some (codes "session=aa.bb.cc"))

protected_path : is_public_path (codes "/system/reboot") ≡ some false
unfolding is_public_path has_any_prefix has_prefix slice_to eq_ignore_ascii_case to_ascii_lowercase
protected_path = refl

key_loads : (load_or_create_key good_fs (some server_key)).0 ≡ ok server_key
unfolding load_or_create_key
key_loads = refl

cookie_carried : CarriesCookie (codes "aa.bb.cc") cookie_request
cookie_carried = record {
  cookie_is = refl;
  no_header = refl;
  no_query = refl;
  is_protected = protected_path;
}

token_created : create_token test_jwt (codes "admin") server_key 1000 ≡ ok (codes "aa.bb.cc")
unfolding create_token create_token_with_lifetime
token_created = refl

create_token-auth_middleware_example :
    (auth_middleware_with_key_path test_jwt 29800 good_fs (some server_key) cookie_request).0
    ≡ forwarded (some (codes "admin"))
create_token-auth_middleware_example =
    create_token-auth_middleware test_jwt test_jwt-IsJwt good_fs (some server_key) (codes "admin")
      1000 29800 cookie_request refl key_loads token_created cookie_carried (omega arith)

create_token-expired_example :
    (auth_middleware_with_key_path test_jwt 29861 good_fs (some server_key) cookie_request).0
    ≡ rejected 401 "token expired"
create_token-expired_example =
    create_token-expired test_jwt test_jwt-IsJwt good_fs (some server_key) (codes "admin") 1000
      29861 cookie_request refl key_loads token_created cookie_carried (omega arith)

auth_middleware-IsAdmitted_example :
    (u : Text) × (some (codes "admin") ≡ some u)
    × IsAdmitted test_jwt 29800 good_fs (some server_key) cookie_request u
auth_middleware-IsAdmitted_example =
    auth_middleware-IsAdmitted test_jwt 29800 good_fs (some server_key) cookie_request
      protected_path create_token-auth_middleware_example

auth_middleware-two_words_example :
    (auth_middleware_with_key_path test_jwt 29800 good_fs
      (some server_key)
      (request_with (some (codes "Bearer aa.bb.cc")) none)).0
    ≡ rejected 401 "unauthorized"
unfolding is_ascii_whitespace
auth_middleware-two_words_example =
    auth_middleware-two_words test_jwt 29800 good_fs (some server_key)
      (request_with (some (codes "Bearer aa.bb.cc")) none) (codes "Bearer") (codes "aa.bb.cc")
      (record { filled = refl; solid = refl }) (record { filled = refl; solid = refl }) refl refl
      refl protected_path key_loads
