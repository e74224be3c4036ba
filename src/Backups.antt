-- ===== src/Backups.antt =====
-- The scheduler of backups and the pruning of old ones: dayshield-core/src/backup/scheduler.rs. The
-- directory of backups is the list of the names of its files.
pub mod Pruning
mod Tests
use dayshield_core.Base.{
  ℕ, ◌-◌, ◌*◌, ◌^◌, Bool, true, false, not, ◌&&◌, ◌||◌, Option, none, some, List, [], ◌∷◌,
  if◌then◌else◌, min, ltb, leb, ◌==◌, length, filter, take, Outcome, ok, err,
}
use dayshield_core.Base.Text.{Text, codes, text_eq, starts_with, ends_with, contains}
use dayshield_core.Base.Text.Sorting.{sort}

pub record BackupScheduleConfig : Type 0 where
  pub enabled : Bool
  pub interval_hours : ℕ
  pub retain_count : ℕ
  pub encrypt : Bool
  pub passphrase : Option Text

abbrev pub default_schedule : BackupScheduleConfig
default_schedule = record {
  enabled = false;
  interval_hours = 24;
  retain_count = 7;
  encrypt = false;
  passphrase = none;
}

unfoldable pub is_backup_file : Text → Bool
unfolding starts_with contains ends_with
is_backup_file name =
    (starts_with (codes "dayshield-") name
      && contains (codes "-backup-") name
      && ends_with (codes ".tar") name)
    || (starts_with (codes "dayshield-") name
        && contains (codes "-backup-") name
        && ends_with (codes ".tar.enc") name)

pub data PruneError : Type 0 where
  read_dir_failed : PruneError
  delete_failed : Text → PruneError

abbrev pub without : Text → List Text → List Text
without name dir = filter (λ f. not (text_eq f name)) dir

-- the loop over the files to delete, which ends with the first that cannot be deleted
pub delete_files : (Text → Bool) → List Text → List Text → Outcome PruneError (Unit {0}) × List Text
delete_files deletable [] dir = (ok tt, dir)
delete_files deletable (name ∷ names) dir =
    if deletable name
    then delete_files deletable names (without name dir)
    else (err (delete_failed name), dir)

abbrev pub backup_files : List Text → List Text
backup_files dir = sort (filter is_backup_file dir)

-- `dir_readable` is the answer of `read_dir`.
pub prune_backups : Bool → (Text → Bool) → ℕ → List Text → Outcome PruneError (Unit {0}) × List Text
unfolding delete_files is_backup_file
prune_backups dir_readable deletable retain_count dir =
    if retain_count == 0
    then (ok tt, dir)
    else (if dir_readable
        then (if leb (length (backup_files dir)) retain_count
            then (ok tt, dir)
            else delete_files deletable
                (take (length (backup_files dir) - retain_count) (backup_files dir)) dir)
        else (err read_dir_failed, dir))
