-- ===== src/History.antt =====
-- The archived revisions of the configuration: dayshield-core/src/config/history.rs. The directory
-- of the revisions is the list of its files, in the order in which it is read, and a configuration
-- in JSON is a value of a type `V`.
pub mod Names
pub mod Archive
mod Tests
use dayshield_core.Base.{
  ℕ, zero, suc, ◌-◌, ◌%◌, ◌^◌, ℤ, pos, int_leb, Bool, true, false, not, ◌&&◌, ◌||◌, Option, none,
  some, List, [], ◌∷◌, ◌++◌, map, if◌then◌else◌, ltb, leb, ◌==◌, length, filter, take, sort_by,
  to_text, Outcome, ok, err,
}
use dayshield_core.Base.Text.{Text, codes, text_eq, is_empty, contains, strip_suffix}
use dayshield_core.Base.Text.Joins.{lacks}
use dayshield_core.Base.Text.Sorting.{text_leb}

-- `ConfigRevision`
pub record ConfigRevision : Type 0 where
  pub id : Text
  pub saved_at : ℤ
  pub schema_version : ℕ
  pub description : Option Text
  pub size_bytes : ℕ

-- `RevisionEnvelope`
pub record RevisionEnvelope (V : Type 0) : Type 0 where
  pub saved_at : ℤ
  pub schema_version : ℕ
  pub description : Option Text
  pub config : V

-- A file of the directory: its size, unless the metadata cannot be read, and its envelope, if it can
-- be read and parsed.
pub record RevisionFile (V : Type 0) : Type 0 where
  pub name : Text
  pub size : Option ℕ
  pub envelope : Option (RevisionEnvelope V)

pub data HistoryError : Type 0 where
  no_directory unparsed_config unlisted unserialised unwritten : HistoryError
  invalid_id missing_revision unreadable_revision undeleted : Text → HistoryError

-- `validate_id`
unfoldable pub validate_id : Text → Outcome HistoryError (Unit {0})
unfolding contains
validate_id id =
    if is_empty id
      || not (lacks b'/' id)
      || not (lacks 92 id)
      || contains (codes "..") id
      || not (lacks 0 id)
    then err (invalid_id id)
    else ok tt

unfoldable pub json_name : Text → Text
json_name id = id ++ codes ".json"

-- the file stem, if the extension is `json`
unfoldable pub json_stem : Text → Option Text
unfolding strip_suffix
json_stem name = elim (strip_suffix (codes ".json") name) [
  | none ↦ none
  | some stem ↦ if is_empty stem then none else some stem
]

abbrev is_some : {A : Type 0} → Option A → Bool
is_some none = false
is_some (some a) = true

unfoldable pub is_json : Text → Bool
unfolding json_stem
is_json name = is_some (json_stem name)

-- `schema_version_of`, from the number in the field if there is one
unfoldable pub schema_version_of : Option ℕ → ℕ
schema_version_of none = 0
schema_version_of (some v) = v % 2 ^ 32

module _ {V : Type 0} where
  abbrev pub named : Text → RevisionFile V → Bool
  named name f = text_eq f.name name

  -- the file of a name
  unfoldable pub find_file : Text → List (RevisionFile V) → Option (RevisionFile V)
  find_file name [] = none
  find_file name (f ∷ fs) = if named name f then some f else find_file name fs

  unfoldable pub without_file : Text → List (RevisionFile V) → List (RevisionFile V)
  without_file name dir = filter (λ f. not (named name f)) dir

  abbrev revision_of : Option Text → Option ℕ → Option (RevisionEnvelope V) → Option ConfigRevision
  revision_of (some id) (some size) (some e) = some (record {
    id = id;
    saved_at = e.saved_at;
    schema_version = e.schema_version;
    description = e.description;
    size_bytes = size;
  })
  revision_of id size e = none

  unfoldable pub to_revision : RevisionFile V → Option ConfigRevision
  unfolding json_stem
  to_revision f = revision_of (json_stem f.name) f.size f.envelope

  unfoldable pub revisions : List (RevisionFile V) → List ConfigRevision
  unfolding to_revision
  revisions [] = []
  revisions (f ∷ fs) = elim (to_revision f) [ none ↦ revisions fs | some r ↦ r ∷ revisions fs ]

-- the comparison of `list_revisions`: the newest first, then the greatest id
unfoldable pub newest_first : ConfigRevision → ConfigRevision → Bool
newest_first a b =
    if int_leb a.saved_at b.saved_at
    then int_leb b.saved_at a.saved_at && text_leb b.id a.id
    else true

-- The answers of the file system, of the clocks and of the source of ids during one archiving.
pub record Surroundings : Type 0 where
  pub dir_created : Bool
  pub dir_read : Bool
  pub serialised : Bool
  pub written : Bool
  pub prune_read : Bool
  pub now_secs : ℕ
  pub now_millis : ℕ
  pub uuid : Text
  -- the size of a written file, if its metadata can be read
  pub metadata : Option ℕ
  pub removable : Text → Bool

abbrev pub zeroes : ℕ → Text
zeroes zero = []
zeroes (suc n) = b'0' ∷ zeroes n

-- `format!("{:014}-{}", millis, uuid)`
unfoldable pub revision_id : ℕ → Text → Text
unfolding to_text
revision_id millis uuid = zeroes (14 - length (to_text millis)) ++ to_text millis ++ b'-' ∷ uuid

abbrev pub or_zero : Option ℕ → ℕ
or_zero none = 0
or_zero (some n) = n

module _ {V : Type 0} where
  -- `list_revisions`: a directory that does not exist has none
  unfoldable pub list_revisions :
      Bool → Option (List (RevisionFile V)) → Outcome HistoryError (List ConfigRevision)
  unfolding revisions newest_first
  list_revisions dir_read none = ok []
  list_revisions dir_read (some dir) =
      if dir_read then ok (sort_by newest_first (revisions dir)) else err unlisted

  abbrev envelope_config : Text → Option (RevisionFile V) → Outcome HistoryError V
  envelope_config id none = err (missing_revision id)
  envelope_config id (some f) = elim f.envelope [
    | none ↦ err (unreadable_revision id)
    | some e ↦ ok e.config
  ]

  unfoldable pub read_revision_config : Text → List (RevisionFile V) → Outcome HistoryError V
  unfolding validate_id find_file json_name
  read_revision_config id dir = elim (validate_id id) [
    | err e ↦ err e
    | ok u ↦ envelope_config id (find_file (json_name id) dir)
  ]

  unfoldable pub delete_revision :
      (Text → Bool)
      → Text
      → List (RevisionFile V)
      → Outcome HistoryError (Unit {0}) × List (RevisionFile V)
  unfolding validate_id find_file json_name without_file
  delete_revision removable id dir = elim (validate_id id) [
    | err e ↦ (err e, dir)
    | ok u ↦ elim (find_file (json_name id) dir) [
      | none ↦ (err (missing_revision id), dir)
      | some f ↦
          if removable (json_name id)
          then (ok tt, without_file (json_name id) dir)
          else (err (undeleted id), dir)
    ]
  ]

  -- the loop of `prune`, which goes on behind a file that cannot be removed
  unfoldable pub remove_files :
      (Text → Bool) → List Text → List (RevisionFile V) → List (RevisionFile V)
  unfolding without_file
  remove_files removable [] dir = dir
  remove_files removable (name ∷ names) dir =
      remove_files removable names (if removable name then without_file name dir else dir)

  unfoldable pub json_files : List (RevisionFile V) → List Text
  unfolding is_json
  json_files dir = filter is_json (map (λ f. f.name) dir)

  unfoldable pub prune : Bool → (Text → Bool) → ℕ → List (RevisionFile V) → List (RevisionFile V)
  unfolding json_files remove_files
  prune dir_read removable max_revisions dir =
      if max_revisions == 0 || not dir_read
      then dir
      else (if leb (length (json_files dir)) max_revisions
          then dir
          else remove_files removable
              (take (length (json_files dir) - max_revisions) (sort_by text_leb (json_files dir)))
              dir)

module _ {V : Type 0} (same : V → V → Bool) (schema_field : V → Option ℕ) where
  -- the newest revision has the configuration
  unfoldable pub is_unchanged : V → List ConfigRevision → List (RevisionFile V) → Bool
  unfolding read_revision_config
  is_unchanged config [] dir = false
  is_unchanged config (latest ∷ rest) dir = elim (read_revision_config latest.id dir) [
    | err e ↦ false
    | ok c ↦ same c config
  ]

  unfoldable pub archived_file : Surroundings → Option Text → V → RevisionFile V
  unfolding revision_id json_name schema_version_of
  archived_file s description config = record {
    name = json_name (revision_id s.now_millis s.uuid);
    size = s.metadata;
    envelope = some (record {
      saved_at = pos s.now_secs;
      schema_version = schema_version_of (schema_field config);
      description = description;
      config = config;
    });
  }

  unfoldable pub archived_revision : Surroundings → Option Text → V → ConfigRevision
  unfolding revision_id schema_version_of
  archived_revision s description config = record {
    id = revision_id s.now_millis s.uuid;
    saved_at = pos s.now_secs;
    schema_version = schema_version_of (schema_field config);
    description = description;
    size_bytes = or_zero s.metadata;
  }

  -- the write of the new file, and the pruning behind it
  unfoldable pub store_revision :
      Surroundings
      → Option Text
      → ℕ
      → V
      → List (RevisionFile V)
      → Outcome HistoryError (Option ConfigRevision) × List (RevisionFile V)
  unfolding archived_file archived_revision without_file prune
  store_revision s description max_revisions config dir =
      let file = archived_file s description config in
      if not s.serialised
      then (err unserialised, dir)
      else (if s.written
          then (
            ok (some (archived_revision s description config)),
            prune s.prune_read s.removable max_revisions (file ∷ without_file file.name dir),
          )
          else (err unwritten, dir))

  -- `write_revision`, for the bytes that parse as the configuration or do not
  unfoldable pub write_revision :
      Surroundings
      → Option V
      → Option Text
      → ℕ
      → List (RevisionFile V)
      → Outcome HistoryError (Option ConfigRevision) × List (RevisionFile V)
  unfolding list_revisions is_unchanged store_revision
  write_revision s parsed description max_revisions dir =
      if not s.dir_created then (err no_directory, dir) else elim parsed [
        | none ↦ (err unparsed_config, dir)
        | some config ↦ elim (list_revisions s.dir_read (some dir)) [
          | err e ↦ (err e, dir)
          | ok existing ↦
              if is_unchanged config existing dir
              then (ok none, dir)
              else store_revision s description max_revisions config dir
        ]
      ]
