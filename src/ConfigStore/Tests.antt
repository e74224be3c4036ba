-- ===== src/ConfigStore/Tests.antt =====
-- Runs and instances of a save at concrete files, with numbers for configurations and documents.
use dayshield_core.Base.{ℕ, ◌*◌, ◌/◌, ◌==◌, pos, true, none, some, [], ◌∷◌, ◌≡◌, refl, ltb, err}
use dayshield_core.Base.Text.{codes}
use dayshield_core.Base.Operations.{Post, ◌>>=◌}
use dayshield_core.ConfigStore.{
  StoreError, invalid_config, Format, Files, FsAnswers, save_with_rollback_described,
}
use dayshield_core.ConfigStore.Revisions.{Json, Archive, history, restore_revision}
use dayshield_core.History.{Surroundings, missing_revision}
use dayshield_core.ConfigStore.Transaction.{
  IsCommitted, IsUnchanged, save_with_rollback_described-IsCommitted, stale_restore,
}

-- Numbers below 100 are valid, and a document is twice the number.
abbrev numbers : Format ℕ ℕ
numbers = record {
  normalize_config = λ c. c;
  validate = λ c. ltb c 100;
  serialise = λ c. c * 2;
  parse = λ d. some d;
  default = 0;
  history_settings = λ c. none;
}

abbrev works : FsAnswers ℕ
works = record {
  bak_copied = true;
  written = true;
  readable = true;
  bak_in_dir = true;
  restored = true;
  torn = none;
  bak_removed = true;
  read_again = true;
}

abbrev files : Files ℕ ℕ
files = record { config = some 8; bak = none; archived = []; notified = [] }

save_with_rollback_described-IsCommitted_example :
    Post {E = StoreError} {A = Unit {0}}
      (λ t m. IsCommitted numbers works 60 files m)
      (λ e m. IsUnchanged numbers works files m)
      (save_with_rollback_described numbers works 60 files)
save_with_rollback_described-IsCommitted_example =
    save_with_rollback_described-IsCommitted numbers works files 8 refl refl refl 60

abbrev stale_files : Files ℕ ℕ
stale_files = record { config = none; bak = some 6; archived = []; notified = [] }

stale_restore_example :
    ((save_with_rollback_described numbers works 100 stale_files).0 ≡ err invalid_config)
    × ((save_with_rollback_described numbers works 100 stale_files).1.config ≡ some 6)
stale_restore_example = stale_restore numbers works stale_files 6 100 refl refl refl refl refl

abbrev json : Json ℕ ℕ ℕ
json = record {
  from_slice = λ d. some (d / 2);
  from_value = λ v. some v;
  same = λ a b. a == b;
  schema_field = λ v. none;
  set_history = λ s c. c;
}

abbrev around : Surroundings
around = record {
  dir_created = true;
  dir_read = true;
  serialised = true;
  written = true;
  prune_read = true;
  now_secs = 1700000000;
  now_millis = 1700000000000;
  uuid = codes "a";
  metadata = some 120;
  removable = λ n. true;
}

abbrev old_archive : Archive ℕ ℕ ℕ
old_archive = record {
  files = files;
  dir =
      record {
        name = codes "first.json";
        size = some 99;
        envelope =
            some (record { saved_at = pos 5; schema_version = 0; description = none; config = 20 });
      }
      ∷ [];
}

restored_test :
    (restore_revision numbers json works around (codes "first") old_archive).1.files.config
    ≡ some 40
unfolding restore_revision ◌>>=◌
restored_test = refl

missing_test :
    (restore_revision numbers json works around (codes "other") old_archive).0
    ≡ err (history (missing_revision (codes "other")))
unfolding restore_revision ◌>>=◌
missing_test = refl
