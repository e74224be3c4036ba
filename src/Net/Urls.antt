-- ===== src/Net/Urls.antt =====
-- The check of a URL in dayshield-core/src/config/models.rs.
use dayshield_core.Base.{Bool, false, not, ◌||◌, none, some, List, [], ◌∷◌, ◌==◌}
use dayshield_core.Base.Text.{Text, codes, is_empty, strip_prefix, split_where}

-- the text up to the first `/` or `?` is not empty
abbrev pub has_host : List Text → Bool
has_host [] = false
has_host (first ∷ parts) = not (is_empty first)

unfoldable pub host_given : Text → Bool
unfolding split_where
host_given rest = has_host (split_where (λ c. c == b'/' || c == b'?') rest)

unfoldable pub validate_url : Text → Bool
unfolding strip_prefix host_given
validate_url url = elim (strip_prefix (codes "https://") url) [
  | some rest ↦ host_given rest
  | none ↦ elim (strip_prefix (codes "http://") url) [ some rest ↦ host_given rest | none ↦ false ]
]
