-- ===== src/Backups/Pruning.antt =====
-- Which backups dayshield-core/src/backup/scheduler.rs deletes.
use dayshield_core.Base.{
  ℕ, ◌-◌, ◌≤◌, Bool, true, false, List, [], ◌∷◌, ◌++◌, ◌≡◌, refl, ap, inl, inr, All, min, leb, ◌==◌,
  length, length-drop, filter, take, drop, take-append-drop, arith, Outcome, ok, err, Bool-cases,
}
use dayshield_core.Base.Text.{Text}
use dayshield_core.Base.Text.Sorting.{sort-IsSorted, Before, take-Before}
use dayshield_core.Backups.{
  is_backup_file, PruneError, delete_failed, without, delete_files, backup_files, prune_backups,
}

abbrev pub without_all : List Text → List Text → List Text
without_all [] dir = dir
without_all (name ∷ names) dir = without_all names (without name dir)

-- All the files are gone, or those before the first that cannot be deleted.
pub data IsDeleted (deletable : Text → Bool) (names dir : List Text)
    (result : Outcome PruneError (Unit {0}) × List Text) : Type 0 where
  all_gone : result ≡ (ok tt, without_all names dir) → IsDeleted deletable names dir result
  stopped :
      (gone : List Text) (name : Text) (rest : List Text)
      → names ≡ gone ++ name ∷ rest
      → deletable name ≡ false
      → result ≡ (err (delete_failed name), without_all gone dir)
      → IsDeleted deletable names dir result

delete_files-IsDeleted :
    (deletable : Text → Bool) (names dir : List Text)
    → IsDeleted deletable names dir (delete_files deletable names dir)
unfolding delete_files
delete_files-IsDeleted deletable [] dir = all_gone refl
delete_files-IsDeleted deletable (name ∷ names) dir = elim (Bool-cases (deletable name)) [
  | inr e ↦ stopped [] name names refl e (rw e refl)
  | inl e ↦ elim (delete_files-IsDeleted deletable names (without name dir)) [
    | all_gone r ↦ all_gone (rw e r)
    | stopped gone n rest w d r ↦ stopped (name ∷ gone) n rest (ap (λ l. name ∷ l) w) d (rw e r)
  ]
]

-- The backups in the order of their names are those to delete and then those to keep.
pub record IsPruned (deletable : Text → Bool) (retain_count : ℕ) (dir : List Text)
    (result : Outcome PruneError (Unit {0}) × List Text) : Type 0 where
  pub doomed : List Text
  pub kept : List Text
  pub whole : backup_files dir ≡ doomed ++ kept
  pub ordered : All (λ d. All (Before d) kept) doomed
  pub count : length kept ≡ min (length (backup_files dir)) retain_count
  pub deleted : IsDeleted deletable doomed dir result

-- With a directory that can be read and at least one backup to retain, the pruning keeps the last
-- backups in the order of their names, up to the number to retain. It deletes those before them
-- and no other file, in that order, and stops with an error at the first that cannot be deleted.
pub prune_backups-IsPruned :
    (deletable : Text → Bool) (retain_count : ℕ) (dir : List Text)
    → 1 ≤ retain_count
    → IsPruned deletable retain_count dir (prune_backups true deletable retain_count dir)
unfolding prune_backups
prune_backups-IsPruned deletable retain_count dir h =
    let none_zero : (retain_count == 0) ≡ false = ground arith in
    let files = backup_files dir in
    let over = length files - retain_count in
    record {
      doomed = take over files;
      kept = drop over files;
      whole = take-append-drop over files;
      ordered = take-Before over files (sort-IsSorted (filter is_backup_file dir));
      count = omega (arith, length-drop over files);
      deleted = rw none_zero (elim (Bool-cases (leb (length files) retain_count)) [
        | inr e ↦ rw e (delete_files-IsDeleted deletable (take over files) dir)
        | inl e ↦ let nothing : over ≡ 0 = ground arith in rw e (rw nothing (all_gone refl))
      ]);
    }
