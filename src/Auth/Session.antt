-- ===== src/Auth/Session.antt =====
-- The signing key and the session tokens: dayshield-core/src/auth/session.rs and model.rs.
pub mod KeyFile
use dayshield_core.Base.{
  ℕ, ◌+◌, ◌-◌, ◌*◌, ◌^◌, ◌≤◌, ◌<◌, Bool, true, false, ◌||◌, Option, none, some, List, [], ◌∷◌, ◌≡◌,
  refl, inl, inr, if◌then◌else◌, min, length, ◌==◌, all, arith, Outcome, ok, err, Bool-cases,
}
use dayshield_core.Base.Text.{Text, is_ascii_alphanumeric}

-- `AuthError`, with the operation that failed for the message of a storage error
pub data StorageFailure : Type 0 where
  read_key create_key_dir remove_corrupted_key create_key_file write_key encode_jwt : StorageFailure

pub data AuthError : Type 0 where
  invalid_credentials token_expired token_invalid : AuthError
  storage_error : StorageFailure → AuthError

pub record SessionClaims : Type 0 where
  pub sub : Text
  pub iat : ℕ
  pub exp : ℕ

abbrev pub Bytes : Type 0
Bytes = List ℕ

abbrev pub session_duration_secs : ℕ
session_duration_secs = 8 * 3600

abbrev pub key_bytes : ℕ
key_bytes = 32

abbrev pub u64_max : ℕ
u64_max = 2 ^ 64 - 1

-- what the file system and the generator of random bytes answer during one load of the key
pub record KeyAnswers : Type 0 where
  pub readable : Bool
  pub random : Bytes
  pub dir_created : Bool
  pub removed : Bool
  pub file_created : Bool
  pub written : Bool
  -- what a failing write leaves of the key
  pub partly_written : Bytes

abbrev write_new_key : KeyAnswers → Outcome AuthError Bytes × Option Bytes
write_new_key fs =
    if fs.file_created
    then (if fs.written
        then (ok fs.random, some fs.random)
        else (err (storage_error write_key), some fs.partly_written))
    else (err (storage_error create_key_file), none)

-- the part of `load_or_create_key` after the test of an existing key
unfoldable pub create_key : KeyAnswers → Option Bytes → Outcome AuthError Bytes × Option Bytes
create_key fs file =
    if fs.dir_created
    then elim file [
      | none ↦ write_new_key fs
      | some bytes ↦
          if fs.removed
          then write_new_key fs
          else (err (storage_error remove_corrupted_key), some bytes)
    ]
    else (err (storage_error create_key_dir), file)

-- The result and the key file afterwards.
unfoldable pub load_or_create_key :
    KeyAnswers → Option Bytes → Outcome AuthError Bytes × Option Bytes
unfolding create_key
load_or_create_key fs none = create_key fs none
load_or_create_key fs (some bytes) =
    if fs.readable
    then (if length bytes == key_bytes then (ok bytes, some bytes) else create_key fs (some bytes))
    else (err (storage_error read_key), some bytes)

pub data JwtError : Type 0 where
  expired_signature other_error : JwtError

-- `encode` and `decode` of jsonwebtoken for HS256, the latter with the time it reads
pub record Jwt : Type 0 where
  pub encode : SessionClaims → Bytes → Option Text
  pub decode : ℕ → Text → Bytes → Outcome JwtError SessionClaims

unfoldable pub create_token_with_lifetime : Jwt → Text → Bytes → ℕ → ℕ → Outcome AuthError Text
create_token_with_lifetime jwt username key now_secs lifetime_secs =
    elim (jwt.encode
      (record { sub = username; iat = now_secs; exp = min (now_secs + lifetime_secs) u64_max })
      key) [ some token ↦ ok token | none ↦ err (storage_error encode_jwt) ]

unfoldable pub create_token : Jwt → Text → Bytes → ℕ → Outcome AuthError Text
unfolding create_token_with_lifetime
create_token jwt username key now_secs =
    create_token_with_lifetime jwt username key now_secs session_duration_secs

unfoldable pub validate_token : Jwt → ℕ → Text → Bytes → Outcome AuthError SessionClaims
validate_token jwt now token key =
    if length key == 0 then err token_invalid else elim (jwt.decode now token key) [
      | ok claims ↦ ok claims
      | err expired_signature ↦ err token_expired
      | err other_error ↦ err token_invalid
    ]

-- the base64url alphabet and the dot between the parts of a token
abbrev pub is_token_char : ℕ → Bool
is_token_char c = is_ascii_alphanumeric c || c == b'-' || c == b'_' || c == b'.'

-- What jsonwebtoken documents: a token is of its alphabet, decodes to its claims with its own key
-- as long as it has not expired, and not at all once it has, with a leeway of 60 seconds.
pub record IsJwt (jwt : Jwt) : Type 0 where
  pub in_alphabet :
      (claims : SessionClaims) (key : Bytes) (token : Text)
      → jwt.encode claims key ≡ some token
      → all is_token_char token ≡ true
  pub decodes :
      (claims : SessionClaims) (key : Bytes) (token : Text) (now : ℕ)
      → jwt.encode claims key ≡ some token
      → now ≤ claims.exp
      → jwt.decode now token key ≡ ok claims
  pub expires :
      (claims : SessionClaims) (key : Bytes) (token : Text) (now : ℕ)
      → jwt.encode claims key ≡ some token
      → claims.exp + 60 < now
      → jwt.decode now token key ≡ err expired_signature
