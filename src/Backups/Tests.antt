-- ===== src/Backups/Tests.antt =====
-- Runs and instances of the pruning at a concrete directory.
use dayshield_core.Base.{true, List, [], ◌∷◌, ◌≡◌, refl, ok, arith}
use dayshield_core.Base.Text.{Text, codes, starts_with, ends_with, contains}
use dayshield_core.Backups.{is_backup_file, delete_files, prune_backups}
use dayshield_core.Backups.Pruning.{IsPruned, prune_backups-IsPruned}

abbrev files : List Text
files =
    codes "notes.txt"
    ∷ codes "dayshield-full-backup-v1-2024.tar"
    ∷ codes "dayshield-scheduled-backup-v1-2023.tar.enc"
    ∷ codes "dayshield-full-backup-v1-2025.tar"
    ∷ []

prune_backups-IsPruned_example :
    IsPruned (λ f. true) 2 files (prune_backups true (λ f. true) 2 files)
prune_backups-IsPruned_example = prune_backups-IsPruned (λ f. true) 2 files (omega arith)

newer_deleted : prune_backups true (λ f. true) 2 files ≡ (
  ok tt,
  codes "notes.txt"
      ∷ codes "dayshield-scheduled-backup-v1-2023.tar.enc"
      ∷ codes "dayshield-full-backup-v1-2025.tar"
      ∷ [],
)
unfolding prune_backups delete_files is_backup_file starts_with contains ends_with
newer_deleted = refl
