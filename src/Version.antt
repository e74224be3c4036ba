-- ===== src/Version.antt =====
-- Versions and file names of release artifacts: dayshield-core/src/update.rs.
pub mod Newer
pub mod Names
mod Tests
use dayshield_core.Base.{
  ℕ, zero, suc, ◌+◌, ◌^◌, ◌-◌, max, Bool, true, false, not, ◌&&◌, ◌||◌, Option, none, some, List,
  [], ◌∷◌, ◌++◌, length, all, ltb, leb, ◌==◌, if◌then◌else◌,
}
use dayshield_core.Base.Text.{
  Text, codes, text_eq, is_empty, is_ascii_digit, is_ascii_hexdigit, split, split_whitespace, lines,
  strip_prefix, strip_suffix, ends_with, parse_uint,
}

abbrev pub u64_max : ℕ
u64_max = 2 ^ 64 - 1

abbrev pub is_segment : Text → Bool
is_segment s = not (is_empty s) && all is_ascii_digit s

-- The loop counts the segments and leaves at the first that is no number.
abbrev count_segments : List Text → ℕ → Bool
count_segments [] n = leb 2 n
count_segments (s ∷ ss) n =
    let rest = count_segments ss (n + 1) in if is_segment s then rest else false

unfoldable pub is_artifact_version : Text → Bool
unfolding split is_ascii_digit
is_artifact_version version = count_segments (split b'.' version) 0

-- `collect` of the parsed segments into an `Option`
abbrev parse_segments : List Text → Option (List ℕ)
parse_segments [] = some []
parse_segments (s ∷ ss) = elim (parse_uint u64_max s) [
  | none ↦ none
  | some v ↦ elim (parse_segments ss) [ none ↦ none | some vs ↦ some (v ∷ vs) ]
]

unfoldable pub artifact_version_segments : Text → Option (List ℕ)
unfolding parse_uint split
artifact_version_segments version =
    if not (is_artifact_version version) then none else parse_segments (split b'.' version)

-- `segments.get(idx).copied().unwrap_or(0)`
abbrev pub segment : List ℕ → ℕ → ℕ
segment [] i = 0
segment (v ∷ vs) zero = v
segment (v ∷ vs) (suc i) = segment vs i

-- the loop over the indices from `idx`, of which `left` are left
pub newer_from : List ℕ → List ℕ → ℕ → ℕ → Bool
newer_from current remote idx zero = false
newer_from current remote idx (suc left) =
    let rest = newer_from current remote (suc idx) left in
    if not (segment remote idx == segment current idx)
    then ltb (segment current idx) (segment remote idx)
    else rest

pub newer_segments : List ℕ → List ℕ → Bool
newer_segments current remote = newer_from current remote 0 (max (length current) (length remote))

unfoldable pub is_remote_version_newer : Text → Text → Bool
unfolding newer_segments newer_from
is_remote_version_newer current remote = elim (artifact_version_segments current) [
  | none ↦ not (text_eq current remote)
  | some c ↦ elim (artifact_version_segments remote) [
    | none ↦ not (text_eq current remote)
    | some r ↦ newer_segments c r
  ]
]

abbrev if_version : Option Text → Option Text
if_version none = none
if_version (some v) = if is_artifact_version v then some v else none

abbrev strip_extension : Text → Text → Option Text
strip_extension component stripped = elim (strip_suffix (codes ".tar.zst") stripped) [
  | some v ↦ some v
  | none ↦
      if text_eq component (codes "rootfs") then strip_suffix (codes ".squashfs") stripped else none
]

unfoldable pub artifact_version_from_name : Text → Text → Option Text
unfolding strip_prefix strip_suffix
artifact_version_from_name component asset_name =
    elim (strip_prefix (component ++ codes "-v") asset_name) [
      | none ↦ none
      | some stripped ↦ if_version (strip_extension component stripped)
    ]

pub is_sha256_hex : Text → Bool
unfolding is_ascii_hexdigit
is_sha256_hex value = length value == 64 && all is_ascii_hexdigit value

-- `trim_start_matches('*')` and `trim_start_matches("./")`
abbrev trim_stars : Text → Text
trim_stars [] = []
trim_stars (c ∷ s) = let rest = trim_stars s in if c == b'*' then rest else c ∷ s

abbrev trim_dot_slashes : Text → Text
trim_dot_slashes [] = []
trim_dot_slashes (c ∷ []) = c ∷ []
trim_dot_slashes (c ∷ d ∷ s) =
    let rest = trim_dot_slashes s in if c == b'.' && d == b'/' then rest else c ∷ d ∷ s

-- Does a listed name stand for the file?
pub names_file : Text → Text → Bool
unfolding ends_with
names_file filename listed =
    let name = trim_dot_slashes (trim_stars listed) in
    text_eq name filename || ends_with (b'/' ∷ filename) name

-- what one line says: nothing, or the checksum to return
pub line_checksum : Text → List Text → Option Text
unfolding is_sha256_hex names_file
line_checksum filename [] = none
line_checksum filename (checksum ∷ []) = if is_sha256_hex checksum then some checksum else none
line_checksum filename (checksum ∷ listed ∷ parts) =
    if is_sha256_hex checksum && names_file filename listed then some checksum else none

abbrev first_checksum : Text → List Text → Option Text
first_checksum filename [] = none
first_checksum filename (l ∷ ls) = elim (line_checksum filename (split_whitespace l)) [
  | some checksum ↦ some checksum
  | none ↦ first_checksum filename ls
]

unfoldable pub checksum_from_text : Text → Text → Option Text
unfolding line_checksum split_whitespace lines
checksum_from_text text filename = first_checksum filename (lines text)
