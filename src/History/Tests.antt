-- ===== src/History/Tests.antt =====
-- Runs and instances of the archive of revisions, with numbers for configurations.
use dayshield_core.Base.{
  ℕ, ◌*◌, ◌==◌, true, Option, none, some, List, [], ◌∷◌, ◌≡◌, refl, ok, err, arith,
}
use dayshield_core.Base.Text.{Text, codes, is_ascii_alphanumeric}
use dayshield_core.History.{
  RevisionFile, Surroundings, invalid_id, validate_id, revision_id, json_name, json_files,
  newest_first, revisions, archived_file, archived_revision, write_revision, prune, delete_revision,
}
use dayshield_core.History.Archive.{IsArchived, write_revision-IsArchived}

abbrev around : ℕ → Text → Surroundings
around now uuid = record {
  dir_created = true;
  dir_read = true;
  serialised = true;
  written = true;
  prune_read = true;
  now_secs = now;
  now_millis = now * 1000;
  uuid = uuid;
  metadata = some 120;
  removable = λ n. true;
}

abbrev schema : ℕ → Option ℕ
schema c = some 1

abbrev file_of : ℕ → Text → ℕ → RevisionFile ℕ
file_of now uuid c = archived_file (λ a b. a == b) schema (around now uuid) none c

abbrev dir : List (RevisionFile ℕ)
dir = file_of 1700000000 (codes "a") 7 ∷ file_of 1700000005 (codes "b") 8 ∷ []

traversal_test : validate_id (codes "../config") ≡ err (invalid_id (codes "../config"))
unfolding validate_id
traversal_test = refl

prune_test : prune true (λ n. true) 1 dir ≡ file_of 1700000005 (codes "b") 8 ∷ []
unfolding prune archived_file
prune_test = refl

delete_test :
    delete_revision (λ n. true) (codes "01700000000000-a") dir
    ≡ (ok tt, file_of 1700000005 (codes "b") 8 ∷ [])
unfolding delete_revision archived_file
delete_test = refl

abbrev next : RevisionFile ℕ
next = file_of 1700000009 (codes "c") 9

written :
    write_revision (λ a b. a == b) schema (around 1700000009 (codes "c")) (some 9) none 2 dir ≡ (
      ok (some (archived_revision (λ a b. a == b) schema (around 1700000009 (codes "c")) none 9)),
      next ∷ file_of 1700000005 (codes "b") 8 ∷ [],
    )
unfolding write_revision archived_file archived_revision
written = refl

write_revision-IsArchived_example :
    IsArchived
      (λ a b. a == b)
      schema
      9
      (around 1700000012 (codes "d"))
      none
      2
      (archived_revision (λ a b. a == b) schema (around 1700000009 (codes "c")) none 9)
      (next ∷ file_of 1700000005 (codes "b") 8 ∷ [])
unfolding is_ascii_alphanumeric revision_id json_name json_files archived_file newest_first
    archived_revision revisions
write_revision-IsArchived_example =
    write_revision-IsArchived (λ a b. a == b) schema (around 1700000009 (codes "c"))
      (around 1700000012 (codes "d")) 9 none none 2 2 120 dir
      (next ∷ file_of 1700000005 (codes "b") 8 ∷ [])
      (archived_revision (λ a b. a == b) schema (around 1700000009 (codes "c")) none 9) refl refl
      refl (refl, (refl, tt)) (refl, (refl, tt)) (omega arith) refl refl written
