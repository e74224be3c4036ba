-- ===== src/History/Archive.antt =====
-- What dayshield-core/src/config/history.rs archives can be read back, and is archived once.
use dayshield_core.Base.{
  ℕ, suc, ◌-◌, ◌≤◌, Bool, true, false, not, ◌||◌, Option, none, some, List, [], ◌∷◌, ◌≡◌, refl, sym,
  ap, arith, inl, inr, All, All-take, all, length, take, take-append, leb, ◌==◌, if◌then◌else◌,
  sort_by, insert_by-first, insert_by-last, length-sort_by, All-sort_by, Outcome, ok, err,
  Bool-cases, Option-cases,
}
use mathlib.Core.Path.{subst}
use dayshield_core.Base.Text.{Text, text_eq, text_eq_iff, is_ascii_alphanumeric}
use dayshield_core.Base.Text.Sorting.{text_leb}
use dayshield_core.History.{
  ConfigRevision, RevisionFile, HistoryError, no_directory, unserialised, unwritten, Surroundings,
  validate_id, json_name, json_stem, is_json, named, find_file, without_file, to_revision,
  revisions, newest_first, list_revisions, read_revision_config, remove_files, json_files, prune,
  is_unchanged, archived_file, archived_revision, store_revision, write_revision, revision_id,
}
use dayshield_core.History.Names.{
  validate_id-all, revision_id-all, revision_id-filled, json_stem-json_name,
}

text_eq_refl : (s : Text) → text_eq s s ≡ true
text_eq_refl s = (text_eq_iff s s).1 refl

text_leb_refl : (s : Text) → text_leb s s ≡ true
text_leb_refl [] = refl
text_leb_refl (c ∷ s) = ground (arith, text_leb_refl s)

-- a text that does not come before n is not n
not-named : (s n : Text) → text_leb s n ≡ false → text_eq s n ≡ false
not-named s n h = elim (Bool-cases (text_eq s n)) [
  | inr e ↦ e
  | inl e ↦ absurd (ground (arith, rw (sym ((text_eq_iff s n).0 e)) at h, text_leb_refl s))
]

-- The oldest names, without the greatest one.
oldest :
    (name : Text) (names : List Text) (max_revisions : ℕ)
    → 1 ≤ max_revisions
    → All (λ n. text_leb name n ≡ false) names
    → All
        (λ n. text_leb name n ≡ false)
        (take (suc (length names) - max_revisions) (sort_by text_leb (name ∷ names)))
oldest name names max_revisions h a =
    let later = All-sort_by text_leb (λ n. text_leb name n ≡ false) names a in
    let count : ℕ = suc (length names) - max_revisions in
    rw
      (
        insert_by-last text_leb name (sort_by text_leb names) later,
        take-append count (sort_by text_leb names) (name ∷ [])
            (omega (arith, length-sort_by text_leb names)),
      )
      (All-take (λ n. text_leb name n ≡ false) count (sort_by text_leb names) later)

module _ {V : Type 0} where
  All-without :
      (P : ConfigRevision → Type 0) (name : Text) (dir : List (RevisionFile V))
      → All P (revisions dir)
      → All P (revisions (without_file name dir))
  unfolding revisions without_file
  All-without P name [] a = tt
  All-without P name (f ∷ dir) a = elim (Option-cases (to_revision f)) [
    | inl e ↦
        let kept = All-without P name dir (rw (e, revisions) at a) in
        elim (Bool-cases (named name f)) [ inl g ↦ rw g kept | inr g ↦ rw (g, revisions, e) kept ]
    | inr (r, e) ↦
        let both : P r × All P (revisions dir) = rw (e, revisions) at a in
        let kept = All-without P name dir both.1 in
        elim (Bool-cases (named name f)) [
          | inl g ↦ rw g kept
          | inr g ↦ rw (g, revisions, e) (both.0, kept)
        ]
  ]

  names-without :
      (P : Text → Type 0) (name : Text) (dir : List (RevisionFile V))
      → All P (json_files dir)
      → All P (json_files (without_file name dir))
  unfolding json_files without_file
  names-without P name [] a = tt
  names-without P name (f ∷ dir) a = elim (Bool-cases (is_json f.name)) [
    | inl e ↦
        let both : P f.name × All P (json_files dir) = rw e at a in
        let kept = names-without P name dir both.1 in
        elim (Bool-cases (named name f)) [ inl g ↦ rw g kept | inr g ↦ rw (g, e) (both.0, kept) ]
    | inr e ↦
        let kept = names-without P name dir (rw e at a) in
        elim (Bool-cases (named name f)) [ inl g ↦ rw g kept | inr g ↦ rw (g, e) kept ]
  ]

  -- The removals leave the first file, if none of them names it, and no new revisions.
  remove_files-first :
      (P : ConfigRevision → Type 0) (removable : Text → Bool) (names : List Text)
      (f : RevisionFile V) (dir : List (RevisionFile V))
      → All (λ n. text_leb f.name n ≡ false) names
      → All P (revisions dir)
      → (rest : List (RevisionFile V)) × (remove_files removable names (f ∷ dir) ≡ f ∷ rest)
        × All P (revisions rest)
  unfolding remove_files without_file
  remove_files-first P removable [] f dir a q = (dir, refl, q)
  remove_files-first P removable (n ∷ names) f dir a q = elim (Bool-cases (removable n)) [
    | inr e ↦ rw e (remove_files-first P removable names f dir a.1 q)
    | inl e ↦
        rw (e, not-named f.name n a.0)
          (remove_files-first P removable names f (without_file n dir) a.1 (All-without P n dir q))
  ]

  -- The pruning leaves the file with the greatest name, and no new revisions.
  prune-first :
      (P : ConfigRevision → Type 0) (dir_read : Bool) (removable : Text → Bool) (max_revisions : ℕ)
      (f : RevisionFile V) (dir : List (RevisionFile V))
      → 1 ≤ max_revisions
      → is_json f.name ≡ true
      → All (λ n. text_leb f.name n ≡ false) (json_files dir)
      → All P (revisions dir)
      → (rest : List (RevisionFile V)) × (prune dir_read removable max_revisions (f ∷ dir)
          ≡ f ∷ rest)
        × All P (revisions rest)
  unfolding prune json_files
  prune-first P dir_read removable max_revisions f dir h j a q =
      elim (Bool-cases (max_revisions == 0 || not dir_read)) [
        | inl e ↦ (dir, rw e refl, q)
        | inr e ↦
            rw (e, j)
              (elim (Bool-cases (leb (suc (length (json_files dir))) max_revisions)) [
                | inl g ↦ (dir, rw g refl, q)
                | inr g ↦ rw g (
                    remove_files-first P removable
                      (take (suc (length (json_files dir)) - max_revisions)
                        (sort_by text_leb (f.name ∷ json_files dir)))
                      f dir (oldest f.name (json_files dir) max_revisions h a) q)
              ])
      ]

abbrev Result : Type 0 → Type 0
Result V = Outcome HistoryError (Option ConfigRevision) × List (RevisionFile V)

module _ {V : Type 0} (dir d2 dir' : List (RevisionFile V)) (r : ConfigRevision) where
  split_store :
      (serialised written : Bool) (rev : ConfigRevision)
      → let stop : Result V = (err unserialised, dir) in
        let unsaved : Result V = (err unwritten, dir) in
        (if not serialised then stop else (if written then (ok (some rev), d2) else unsaved))
          ≡ (ok (some r), dir')
        → (rev ≡ r) × (d2 ≡ dir')
  split_store false written rev h = absurd (ground arith)
  split_store true false rev h = absurd (ground arith)
  split_store true true rev h = (ground arith, ground arith)

  split_write :
      (created : Bool) (listing : Outcome HistoryError (List ConfigRevision))
      (unchanged : List ConfigRevision → Bool) (done : Result V)
      → let stop : Result V = (err no_directory, dir) in
        let fail : HistoryError → Result V = λ e. (err e, dir) in
        let skip : Result V = (ok none, dir) in
        (if not created then stop else elim listing [
          | err e ↦ fail e
          | ok existing ↦ if unchanged existing then skip else done
        ])
          ≡ (ok (some r), dir')
        → done ≡ (ok (some r), dir')
  split_write false listing unchanged done h = absurd (ground arith)
  split_write true (err e) unchanged done h = absurd (ground arith)
  split_write true (ok existing) unchanged done h = elim (Bool-cases (unchanged existing)) [
    | inl e ↦ absurd (ground (arith, rw e at h))
    | inr e ↦ rw e at h
  ]

module _ {V : Type 0} (same : V → V → Bool) (schema_field : V → Option ℕ) where
  module _ (s : Surroundings) (description : Option Text) (config : V)
      (hex : all is_ascii_alphanumeric s.uuid ≡ true) where
    abbrev file : RevisionFile V
    file = archived_file same schema_field s description config

    abbrev id : Text
    id = revision_id s.now_millis s.uuid

    valid_id : validate_id id ≡ ok tt
    valid_id =
        validate_id-all id (revision_id-filled s.now_millis s.uuid)
          (revision_id-all s.now_millis s.uuid hex)

    stem : json_stem (json_name id) ≡ some id
    stem = json_stem-json_name id (revision_id-filled s.now_millis s.uuid)

    file-is_json : is_json file.name ≡ true
    unfolding archived_file is_json
    file-is_json = rw stem refl

    file-to_revision :
        (size : ℕ)
        → s.metadata ≡ some size
        → to_revision file ≡ some (archived_revision same schema_field s description config)
    unfolding archived_file to_revision archived_revision
    file-to_revision size h = rw (stem, h) refl

    reads : (rest : List (RevisionFile V)) → read_revision_config id (file ∷ rest) ≡ ok config
    unfolding read_revision_config archived_file find_file
    reads rest = rw (read_revision_config, valid_id, find_file, text_eq_refl (json_name id)) refl

  -- The revision is the first in the list, its configuration can be read back, and the same
  -- configuration is not archived again.
  pub record IsArchived (config : V) (again : Surroundings) (description : Option Text)
      (max_revisions : ℕ) (revision : ConfigRevision) (dir : List (RevisionFile V)) : Type 0 where
    pub older : List ConfigRevision
    pub listed : list_revisions true (some dir) ≡ ok (revision ∷ older)
    pub reads : read_revision_config revision.id dir ≡ ok config
    pub repeated :
        write_revision same schema_field again (some config) description max_revisions dir
        ≡ (ok none, dir)

  abbrev IsNewer : ConfigRevision → ConfigRevision → Type 0
  IsNewer a b = newest_first a b ≡ true

  sorted :
      (s : Surroundings) (config : V) (description : Option Text) (size : ℕ)
      (rest : List (RevisionFile V))
      → all is_ascii_alphanumeric s.uuid ≡ true
      → s.metadata ≡ some size
      → All (IsNewer (archived_revision same schema_field s description config)) (revisions rest)
      → sort_by newest_first
          (revisions (archived_file same schema_field s description config ∷ rest))
        ≡ archived_revision same schema_field s description config
          ∷ sort_by newest_first (revisions rest)
  unfolding revisions
  sorted s config description size rest hex meta newer =
      let revision = archived_revision same schema_field s description config in
      rw
        (
          revisions,
          file-to_revision s description config hex size meta,
          insert_by-first newest_first revision (sort_by newest_first (revisions rest))
              (All-sort_by newest_first (IsNewer revision) (revisions rest) newer),
        )
        refl

  repeats :
      (again : Surroundings) (config : V) (description : Option Text) (max_revisions : ℕ)
      (revision : ConfigRevision) (older : List ConfigRevision) (dir : List (RevisionFile V))
      → same config config ≡ true
      → again.dir_created ≡ true
      → again.dir_read ≡ true
      → sort_by newest_first (revisions dir) ≡ revision ∷ older
      → read_revision_config revision.id dir ≡ ok config
      → write_revision same schema_field again (some config) description max_revisions dir
        ≡ (ok none, dir)
  unfolding write_revision is_unchanged list_revisions
  repeats again config description max_revisions revision older dir h c d l r =
      rw (write_revision, c, d, l, is_unchanged, r, h) refl

  stored :
      (s again : Surroundings) (config : V) (description description' : Option Text)
      (max_revisions max_revisions' size : ℕ) (dir : List (RevisionFile V))
      → same config config ≡ true
      → all is_ascii_alphanumeric s.uuid ≡ true
      → s.metadata ≡ some size
      → All (λ n. text_leb (json_name (revision_id s.now_millis s.uuid)) n ≡ false) (json_files dir)
      → All (IsNewer (archived_revision same schema_field s description config)) (revisions dir)
      → 1 ≤ max_revisions
      → again.dir_created ≡ true
      → again.dir_read ≡ true
      → IsArchived config again description' max_revisions'
          (archived_revision same schema_field s description config)
          (prune s.prune_read s.removable max_revisions (
            archived_file same schema_field s description config
            ∷ without_file (json_name (revision_id s.now_millis s.uuid)) dir))
  unfolding archived_file archived_revision list_revisions
  stored s again config description description' max max' size dir refl_same hex meta later newer h
        c d =
      let revision = archived_revision same schema_field s description config in
      let name = json_name (revision_id s.now_millis s.uuid) in
      let file = archived_file same schema_field s description config in
      let (rest, e, q) =
        prune-first (IsNewer revision) s.prune_read s.removable max file (without_file name dir) h
          (file-is_json s description config hex)
          (names-without (λ n. text_leb name n ≡ false) name dir later)
          (All-without (IsNewer revision) name dir newer) in
      let l = sorted s config description size rest hex meta q in
      let r = reads s description config hex rest in
      rw e (record {
        older = sort_by newest_first (revisions rest);
        listed = ap ok l;
        reads = r;
        repeated =
            repeats again config description' max' revision (sort_by newest_first (revisions rest))
              (file ∷ rest) refl_same c d l r;
      })

  -- With a fresh id that comes after those of the archive, a clock that is not behind the revisions
  -- in it, and at least one revision to keep, an archived revision is the first of the list, its
  -- configuration can be read back by its id, and archiving the same configuration again changes
  -- nothing. The hypotheses: a configuration is the same as itself, the random part of the id is
  -- alphanumeric, the metadata of the new file can be read, and in the second call the directory
  -- can be made and read.
  pub write_revision-IsArchived :
      (s again : Surroundings) (config : V) (description description' : Option Text)
      (max_revisions max_revisions' size : ℕ) (dir dir' : List (RevisionFile V))
      (revision : ConfigRevision)
      → same config config ≡ true
      → all is_ascii_alphanumeric s.uuid ≡ true
      → s.metadata ≡ some size
      → All (λ n. text_leb (json_name (revision_id s.now_millis s.uuid)) n ≡ false) (json_files dir)
      → All (IsNewer (archived_revision same schema_field s description config)) (revisions dir)
      → 1 ≤ max_revisions
      → again.dir_created ≡ true
      → again.dir_read ≡ true
      → write_revision same schema_field s (some config) description max_revisions dir
        ≡ (ok (some revision), dir')
      → IsArchived config again description' max_revisions' revision dir'
  unfolding write_revision store_revision
  write_revision-IsArchived s again config description description' max max' size dir dir' revision
        h hex meta later newer one c d w =
      let revision' = archived_revision same schema_field s description config in
      let file = archived_file same schema_field s description config in
      let dir'' = prune s.prune_read s.removable max (file ∷ without_file file.name dir) in
      let done = store_revision same schema_field s description max config dir in
      let (e, e') = split_store dir dir'' dir' revision s.serialised s.written revision' (
        split_write dir dir'' dir' revision s.dir_created (list_revisions s.dir_read (some dir))
          (λ existing. is_unchanged same schema_field config existing dir) done w) in
      let whole =
        stored s again config description description' max max' size dir h hex meta later newer one
          c d in
      subst (λ r. IsArchived config again description' max' r dir') e
        (subst (λ x. IsArchived config again description' max' revision' x) e' whole)
