-- ===== src/ConfigStore/Restoring.antt =====
-- A revision is restored as a whole or not at all: dayshield-core/src/config/storage.rs.
use dayshield_core.Base.{Option, some, [], ◌++◌, ◌≡◌, refl, Outcome, ok, err}
use dayshield_core.Base.Operations.{Post}
use dayshield_core.Base.Text.{Text, codes}
use dayshield_core.ConfigStore.{StoreError, Format, Files, FsAnswers}
use dayshield_core.ConfigStore.Transaction.{IsCommitted, IsUnchanged}
use dayshield_core.ConfigStore.Revisions.{Json, Archive, archive_all, from_store, load_revision}
use dayshield_core.History.{Surroundings}

module _ {C D V : Type 0} (format : Format C D) (json : Json C D V) (fs : FsAnswers D)
    (around : Surroundings) where
  -- The configuration of the revision is in the file, normalised and valid, and the revisions are
  -- those from before with the calls of the archive that the save made.
  pub record IsRestored (id : Text) (before after : Archive C D V) : Type 0 where
    pub config : C
    pub loaded : load_revision format json fs around id before.dir ≡ ok config
    pub committed : IsCommitted format fs config (record before.files { archived = [] }) after.files
    pub dir_is :
        after.dir
        ≡ archive_all format json fs around
            (some (codes "Restored revision " ++ id))
            after.files.archived
            before.dir

  -- the configuration, the calls of the hook and the revisions are as before
  pub record IsKept (before after : Archive C D V) : Type 0 where
    pub same_config : after.files.config ≡ before.files.config
    pub same_notified : after.files.notified ≡ before.files.notified
    pub same_dir : after.dir ≡ before.dir

  abbrev described : Text → Option Text
  described id = some (codes "Restored revision " ++ id)

  archived :
      (id : Text) (config : C) (a : Archive C D V)
      → load_revision format json fs around id a.dir ≡ ok config
      → (o : Outcome StoreError (Unit {0}) × Files C D)
      → Post
          (λ t m. IsCommitted format fs config (record a.files { archived = [] }) m)
          (λ e m. IsUnchanged format fs (record a.files { archived = [] }) m)
          o
      → Post
          (λ t a'. IsRestored id a a')
          (λ e a'. IsKept a a')
          (
            from_store format json fs around o.0,
            record {
              files = o.1;
              dir = archive_all format json fs around (described id) o.1.archived a.dir;
            },
          )
  unfolding archive_all
  archived id config a l (ok u, m) p = record {
    config = config;
    loaded = l;
    committed = p;
    dir_is = refl;
  }
  archived id config a l (err e, m) p = record {
    same_config = p.same_config;
    same_notified = p.same_notified;
    same_dir = rw p.same_archived refl;
  }
