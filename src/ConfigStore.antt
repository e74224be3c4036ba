-- ===== src/ConfigStore.antt =====
-- Saving the configuration with a backup: dayshield-core/src/config/storage.rs. The configuration's
-- own parts are not looked at here: how it is normalised, validated, written as a document and read
-- back are arguments.
pub mod Transaction
pub mod Revisions
pub mod Restoring
mod Tests
use dayshield_core.Base.{
  ℕ, Bool, true, false, ◌&&◌, Option, none, some, List, [], ◌∷◌, Outcome, ok, err, max,
  if◌then◌else◌,
}
use dayshield_core.Base.Operations.{Operation, ◌>>=◌, ◌>>◌}

-- `ConfigHistorySettings`
pub record ConfigHistorySettings : Type 0 where
  pub enabled : Bool
  pub max_revisions : ℕ

abbrev pub default_history : ConfigHistorySettings
default_history = record { enabled = true; max_revisions = 50 }

abbrev pub settings_or_default : Option ConfigHistorySettings → ConfigHistorySettings
settings_or_default none = default_history
settings_or_default (some s) = s

abbrev pub effective_max_revisions : ConfigHistorySettings → ℕ
effective_max_revisions settings = max settings.max_revisions 1

pub data StoreError : Type 0 where
  backup_failed invalid_config write_failed read_failed rolled_back : StoreError

-- what the store does with a configuration `C` and its documents `D`
pub record Format (C D : Type 0) : Type 0 where
  pub normalize_config : C → C
  pub validate : C → Bool
  pub serialise : C → D
  pub parse : D → Option C
  pub default : C
  pub history_settings : C → Option ConfigHistorySettings

-- The files of the configuration and of its backup, the calls that archive a revision (with the
-- number of revisions to keep) and those of the hook, the newest first.
pub record Files (C D : Type 0) : Type 0 where
  pub config : Option D
  pub bak : Option D
  pub archived : List (D × ℕ)
  pub notified : List C

-- What the file system answers during one save. A failing copy leaves `torn`.
pub record FsAnswers (D : Type 0) : Type 0 where
  pub bak_copied : Bool
  pub written : Bool
  pub readable : Bool
  -- the backup file resolves to a path in the directory of the configuration
  pub bak_in_dir : Bool
  pub restored : Bool
  pub torn : Option D
  pub bak_removed : Bool
  pub read_again : Bool

abbrev pub Op : Type 0 → Type 0 → Type 0 → Type 0
Op C D A = Operation StoreError (Files C D) A

module _ {C D : Type 0} (format : Format C D) (fs : FsAnswers D) where
  -- `load`, with the default for a missing file
  unfoldable pub load : Option D → Outcome StoreError C
  load none = ok format.default
  load (some d) =
      if fs.readable
      then elim (format.parse d) [ none ↦ err read_failed | some c ↦ ok c ]
      else err read_failed

  unfoldable pub validate : C → Outcome StoreError (Unit {0})
  validate c = if format.validate c then ok tt else err invalid_config

  -- the result of the write, and the file afterwards
  unfoldable pub write_valid : C → Option D → Outcome StoreError (Unit {0}) × Option D
  unfolding validate
  write_valid c file = elim (validate c) [
    | err e ↦ (err e, file)
    | ok u ↦ if fs.written then (ok tt, some (format.serialise c)) else (err write_failed, file)
  ]

  unfoldable pub save : C → Op C D (Unit {0})
  unfolding write_valid
  save config m =
      let (r, file) = write_valid (format.normalize_config config) m.config in
      (r, record m { config = file })

  -- the file of the configuration after a try to restore the backup
  unfoldable pub restored_config : Option D → Option D → Option D
  restored_config none config = config
  restored_config (some d) config =
      if fs.bak_in_dir then (if fs.restored then some d else fs.torn) else config

  unfoldable pub try_restore_backup : Files C D → Files C D
  unfolding restored_config
  try_restore_backup m = record m { config = restored_config m.bak m.config }

  -- the copy of the current file, if there is one
  abbrev pub copy_file : Option D → Option D → Outcome StoreError (Unit {0}) × Option D
  copy_file none bak = (ok tt, bak)
  copy_file (some d) bak = if fs.bak_copied then (ok tt, some d) else (err backup_failed, bak)

  unfoldable pub back_up : Op C D (Unit {0})
  back_up m = let (r, bak) = copy_file m.config m.bak in (r, record m { bak = bak })

  -- the calls with the revision to archive, if the history is enabled and the file can be read
  unfoldable pub archive : C → Option D → List (D × ℕ) → List (D × ℕ)
  archive c none calls = calls
  archive c (some d) calls =
      let settings = settings_or_default (format.history_settings c) in
      if settings.enabled && fs.read_again
      then (d, effective_max_revisions settings) ∷ calls
      else calls

  -- the end of a save whose file was read back and validated
  unfoldable pub commit : C → Files C D → Files C D
  unfolding archive
  commit c m = record m {
    bak = if fs.bak_removed then none else m.bak;
    archived = archive c m.config m.archived;
    notified = c ∷ m.notified;
  }

  -- `self.load().and_then(|c| self.validate(&c))`
  unfoldable pub revalidate : Option D → Outcome StoreError (Unit {0})
  unfolding load validate
  revalidate config = elim (load config) [ err e ↦ err e | ok c ↦ validate c ]

  unfoldable pub check_written : C → Op C D (Unit {0})
  unfolding revalidate commit try_restore_backup
  check_written c m = elim (revalidate m.config) [
    | ok u ↦ (ok tt, commit c m)
    | err e ↦ (err rolled_back, try_restore_backup m)
  ]

  -- the write, with the backup restored if it fails
  unfoldable pub write_or_restore : C → Op C D (Unit {0})
  unfolding save try_restore_backup
  write_or_restore c m =
      let (r, m') = save c m in
      elim r [ ok u ↦ (ok tt, m') | err e ↦ (err e, try_restore_backup m') ]

  unfoldable pub save_with_rollback_described : C → Op C D (Unit {0})
  unfolding back_up write_or_restore check_written
  save_with_rollback_described config = do
    back_up
    write_or_restore (format.normalize_config config)
    check_written (format.normalize_config config)
