-- ===== src/ConfigStore/Revisions.antt =====
-- The archive of revisions in the store: the second half of `save_with_rollback_described` and the
-- operations on revisions of dayshield-core/src/config/storage.rs, on History.
use dayshield_core.Base.{
  ℕ, Bool, Option, none, some, List, [], ◌∷◌, ◌++◌, if◌then◌else◌, Outcome, ok, err,
}
use dayshield_core.Base.Text.{Text, codes}
use dayshield_core.ConfigStore.{
  ConfigHistorySettings, default_history, effective_max_revisions, StoreError, read_failed, Format,
  Files, FsAnswers, load, save_with_rollback_described,
}
use dayshield_core.History.{
  ConfigRevision, RevisionFile, HistoryError, Surroundings, read_revision_config, write_revision,
}

-- The configuration in JSON, `V`: how a document is read as a value and a value as a configuration,
-- and what the archive asks of a value.
pub record Json (C D V : Type 0) : Type 0 where
  pub from_slice : D → Option V
  pub from_value : V → Option C
  pub same : V → V → Bool
  pub schema_field : V → Option ℕ
  pub set_history : ConfigHistorySettings → C → C

pub data RevisionError : Type 0 where
  history : HistoryError → RevisionError
  store : StoreError → RevisionError
  unparsed_revision : Text → RevisionError

-- the files of the configuration, and the directory of the revisions
pub record Archive (C D V : Type 0) : Type 0 where
  pub files : Files C D
  pub dir : List (RevisionFile V)

module _ {C D V : Type 0} (format : Format C D) (json : Json C D V) (fs : FsAnswers D)
    (around : Surroundings) where
  -- the calls of `write_revision` that a save asks for, the oldest first
  unfoldable pub archive_all :
      Option Text → List (D × ℕ) → List (RevisionFile V) → List (RevisionFile V)
  unfolding write_revision
  archive_all description [] dir = dir
  archive_all description ((document, max_revisions) ∷ calls) dir =
      let dir' = archive_all description calls dir in
      (write_revision json.same json.schema_field around (json.from_slice document) description
        max_revisions dir').1

  abbrev pub from_store : Outcome StoreError (Unit {0}) → Outcome RevisionError (Unit {0})
  from_store (ok u) = ok u
  from_store (err e) = err (store e)

  unfoldable pub save_and_archive :
      C → Option Text → Archive C D V → Outcome RevisionError (Unit {0}) × Archive C D V
  unfolding save_with_rollback_described archive_all
  save_and_archive config description a =
      let before : Files C D = record a.files { archived = [] } in
      let saved = save_with_rollback_described format fs config before in
      (
        from_store saved.0,
        record { files = saved.1; dir = archive_all description saved.1.archived a.dir },
      )

  unfoldable pub load_revision : Text → List (RevisionFile V) → Outcome RevisionError C
  unfolding read_revision_config
  load_revision id dir = elim (read_revision_config id dir) [
    | err e ↦ err (history e)
    | ok value ↦ elim (json.from_value value) [ none ↦ err (unparsed_revision id) | some c ↦ ok c ]
  ]

  unfoldable pub restore_revision :
      Text → Archive C D V → Outcome RevisionError (Unit {0}) × Archive C D V
  unfolding load_revision save_and_archive
  restore_revision id a = elim (load_revision id a.dir) [
    | err e ↦ (err e, a)
    | ok config ↦ save_and_archive config (some (codes "Restored revision " ++ id)) a
  ]

  abbrev pub history_or_default : Option ConfigHistorySettings → ConfigHistorySettings
  history_or_default none = default_history
  history_or_default (some s) = s

  unfoldable pub load_history_settings : Option D → Outcome StoreError ConfigHistorySettings
  unfolding load
  load_history_settings file = elim (load format fs file) [
    | err e ↦ err e
    | ok c ↦ ok (history_or_default (format.history_settings c))
  ]

  unfoldable pub save_history_settings :
      ConfigHistorySettings → Archive C D V → Outcome RevisionError (Unit {0}) × Archive C D V
  unfolding load save_and_archive
  save_history_settings settings a = elim (load format fs a.files.config) [
    | err e ↦ (err (store e), a)
    | ok c ↦
        save_and_archive (json.set_history settings c)
          (some (codes "Updated config history settings")) a
  ]

  abbrev pub settings_or_default : Outcome StoreError ConfigHistorySettings → ConfigHistorySettings
  settings_or_default (ok s) = s
  settings_or_default (err e) = default_history

  abbrev pub from_history :
      Outcome HistoryError (Option ConfigRevision) → Outcome RevisionError (Option ConfigRevision)
  from_history (ok r) = ok r
  from_history (err e) = err (history e)

  unfoldable pub snapshot_file :
      ConfigHistorySettings
      → Text
      → Option D
      → List (RevisionFile V)
      → Outcome RevisionError (Option ConfigRevision) × List (RevisionFile V)
  unfolding write_revision
  snapshot_file settings description none dir = (ok none, dir)
  snapshot_file settings description (some document) dir =
      if fs.readable
      then (let done =
            write_revision json.same json.schema_field around (json.from_slice document)
              (some description) (effective_max_revisions settings) dir in
          (from_history done.0, done.1))
      else (err (store read_failed), dir)

  unfoldable pub snapshot :
      Text → Archive C D V → Outcome RevisionError (Option ConfigRevision) × Archive C D V
  unfolding load_history_settings snapshot_file
  snapshot description a =
      let settings = settings_or_default (load_history_settings a.files.config) in
      if settings.enabled
      then (let done = snapshot_file settings description a.files.config a.dir in
          (done.0, record a { dir = done.1 }))
      else (ok none, a)
