-- ===== src/Firewall/Aliases.antt =====
-- The checks of the firewall's aliases: dayshield-core/src/config/models.rs.
use dayshield_core.Base.{
  ℕ, Bool, false, ◌&&◌, ◌||◌, Option, none, some, List, [], ◌∷◌, if◌then◌else◌, ltb, leb, ◌==◌,
  within, all, isnt_empty, Outcome, ok, err,
}
use dayshield_core.Base.Text.{Text, byte_len, is_ascii_alphanumeric, split_once, parse_uint}
use dayshield_core.Firewall.Ruleset.{AliasType, host, network, port, url_table, FirewallAlias}
use dayshield_core.Net.Urls.{validate_url}
use dayshield_core.Net.Validation.{is_valid_ip, is_valid_cidr}

abbrev pub is_ascii_alphabetic : ℕ → Bool
is_ascii_alphabetic c = within b'a' b'z' c || within b'A' b'Z' c

unfoldable pub validate_alias_name : Text → Bool
unfolding is_ascii_alphanumeric
validate_alias_name [] = false
validate_alias_name (first ∷ chars) =
    leb (byte_len (first ∷ chars)) 63
    && (is_ascii_alphabetic first || first == b'_')
    && all (λ c. is_ascii_alphanumeric c || c == b'_') chars

abbrev pub is_range : Option ℕ → Option ℕ → Bool
is_range (some s) (some e) = ltb 0 s && ltb 0 e && leb s e
is_range s e = false

abbrev pub is_positive : Option ℕ → Bool
is_positive none = false
is_positive (some p) = ltb 0 p

unfoldable pub validate_port_or_range : Text → Bool
unfolding split_once parse_uint
validate_port_or_range port_or_range = elim (split_once b':' port_or_range) [
  | some (start, end) ↦ is_range (parse_uint 65535 start) (parse_uint 65535 end)
  | none ↦ is_positive (parse_uint 65535 port_or_range)
]

pub data AliasError : Type 0 where
  no_values : Text → AliasError
  invalid_value : Text → Text → AliasType → AliasError

abbrev pub fits_type : AliasType → Text → Bool
fits_type host v = is_valid_ip v
fits_type network v = is_valid_cidr v
fits_type port v = validate_port_or_range v
fits_type url_table v = validate_url v

unfoldable pub check_values : Text → AliasType → List Text → Outcome AliasError (Unit {0})
unfolding is_valid_ip is_valid_cidr validate_port_or_range validate_url
check_values name alias_type [] = ok tt
check_values name alias_type (v ∷ vs) =
    let rest = check_values name alias_type vs in
    if fits_type alias_type v then rest else err (invalid_value name v alias_type)

unfoldable pub validate_alias_values : FirewallAlias → Outcome AliasError (Unit {0})
unfolding check_values
validate_alias_values alias =
    if isnt_empty alias.values
    then check_values alias.name alias.alias_type alias.values
    else err (no_values alias.name)
