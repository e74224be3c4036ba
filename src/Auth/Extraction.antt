-- ===== src/Auth/Extraction.antt =====
-- Where a request carries its token: dayshield-core/src/auth/middleware.rs.
use dayshield_core.Base.{not, Option, none, some, List, [], ◌∷◌, if◌then◌else◌}
use dayshield_core.Base.Text.{
  Text, codes, text_eq, is_empty, eq_ignore_ascii_case, trim, strip_prefix, split, split_once,
  split_ascii_whitespace,
}
use dayshield_core.Auth.Paths.{allows_query_token}

-- The parts of a request that the guard reads. A header that is absent and one that is no text
-- are alike.
pub record Request : Type 0 where
  pub path : Text
  pub query : Option Text
  pub authorization : Option Text
  pub cookie : Option Text

-- what the calls of `parts.next()` take from the words of the header, in their order
abbrev after_scheme : List Text → Option Text
after_scheme [] = none
after_scheme (skipped ∷ []) = none
after_scheme (skipped ∷ token ∷ []) = some token
after_scheme (skipped ∷ token ∷ more ∷ rest) = none

unfoldable pub header_token : List Text → Option Text
unfolding eq_ignore_ascii_case
header_token [] = none
header_token (scheme ∷ rest) =
    if not (eq_ignore_ascii_case scheme (codes "Bearer")) then none else after_scheme rest

unfoldable pub token_from_header : Request → Option Text
unfolding header_token split_ascii_whitespace
token_from_header req = elim req.authorization [
  | none ↦ none
  | some value ↦ header_token (split_ascii_whitespace value)
]

unfoldable pub cookie_token : List Text → Option Text
unfolding trim strip_prefix
cookie_token [] = none
cookie_token (part ∷ parts) = elim (strip_prefix (codes "session=") (trim part)) [
  | some val ↦ some val
  | none ↦ cookie_token parts
]

unfoldable pub token_from_cookie : Request → Option Text
unfolding cookie_token split
token_from_cookie req = elim req.cookie [
  | none ↦ none
  | some cookie_header ↦ cookie_token (split b';' cookie_header)
]

-- `pair.splitn(2, '=')`, with the empty text for a missing value
abbrev key_value : Text → Text × Text
key_value pair = elim (split_once b'=' pair) [ some kv ↦ kv | none ↦ (pair, []) ]

unfoldable pub query_token : List Text → Option Text
unfolding trim split_once
query_token [] = none
query_token (pair ∷ pairs) =
    let rest = query_token pairs in
    let (key, raw) = key_value pair in
    let value = trim raw in
    if not (text_eq (trim key) (codes "token"))
    then rest
    else if not (is_empty value)
    then some value
    else rest

unfoldable pub token_from_query : Request → Option Text
unfolding query_token split
token_from_query req = elim req.query [ none ↦ none | some query ↦ query_token (split b'&' query) ]

-- `Option::or_else`
abbrev or_else : Option Text → Option Text → Option Text
or_else (some t) rest = some t
or_else none rest = rest

unfoldable pub extract_token : Request → Option Text
unfolding token_from_header token_from_cookie token_from_query allows_query_token
extract_token req =
    or_else
      (or_else (token_from_header req)
        (if allows_query_token req.path then token_from_query req else none))
      (token_from_cookie req)
