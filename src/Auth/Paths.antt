-- ===== src/Auth/Paths.antt =====
-- The routes that need no token, and those that take one from the query string:
-- dayshield-core/src/auth/middleware.rs.
pub mod Public
use dayshield_core.Base.{
  ℕ, zero, suc, ◌+◌, ◌-◌, ◌≤◌, ◌<◌, Bool, true, false, ◌||◌, ◌&&◌, Option, none, some, List, [],
  ◌∷◌, ◌++◌, map, ◌≡◌, refl, inl, inr, ap, ◌↔◌, ◌⊎◌, if◌then◌else◌, ltb, leb, any, all, length,
  arith, Bool-cases, Option-cases,
}
use dayshield_core.Base.Text.{
  Text, utf8_len, byte_len, codes, to_ascii_lowercase, eq_ignore_ascii_case,
}

abbrev pub public_paths : List Text
public_paths = codes "/auth/login" ∷ codes "/auth/status" ∷ codes "/system/status" ∷ []

abbrev pub public_prefixes : List Text
public_prefixes = codes "/installer/" ∷ codes "/portal" ∷ []

abbrev pub query_token_allowed_paths : List Text
query_token_allowed_paths =
    codes "/logs/ws" ∷ codes "/logs/live" ∷ codes "/live-logs" ∷ codes "/metrics/ws" ∷ []

-- `&path[..n]`, which panics (`none`) where `n` lies inside a character or behind the end
unfoldable pub slice_to : ℕ → Text → Option Text
slice_to zero s = some []
slice_to (suc n) [] = none
slice_to (suc n) (c ∷ s) =
    let rest = slice_to (suc n - utf8_len c) s in
    if leb (utf8_len c) (suc n) then elim rest [ none ↦ none | some r ↦ some (c ∷ r) ] else none

unfoldable pub has_prefix : Text → Text → Option Bool
unfolding slice_to eq_ignore_ascii_case
has_prefix path prefix =
    if leb (byte_len prefix) (byte_len path)
    then elim (slice_to (byte_len prefix) path) [
      | none ↦ none
      | some start ↦ some (eq_ignore_ascii_case start prefix)
    ]
    else some false

unfoldable pub has_any_prefix : Text → List Text → Option Bool
unfolding has_prefix
has_any_prefix path [] = some false
has_any_prefix path (prefix ∷ prefixes) = elim (has_prefix path prefix) [
  | none ↦ none
  | some true ↦ some true
  | some false ↦ has_any_prefix path prefixes
]

-- `none` stands for the panic of the slice.
unfoldable pub is_public_path : Text → Option Bool
unfolding has_any_prefix eq_ignore_ascii_case
is_public_path path =
    if any (eq_ignore_ascii_case path) public_paths
    then some true
    else has_any_prefix path public_prefixes

unfoldable pub allows_query_token : Text → Bool
unfolding eq_ignore_ascii_case
allows_query_token path = any (eq_ignore_ascii_case path) query_token_allowed_paths
