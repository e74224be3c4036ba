-- ===== src/ConfigStore/Transaction.antt =====
-- A save either commits the configuration or leaves the file as it was:
-- dayshield-core/src/config/storage.rs.
use dayshield_core.Base.{
  ℕ, List, if◌then◌else◌, ◌&&◌, true, false, Option, none, some, ◌∷◌, ◌≡◌, refl, ap, sym, inl, inr,
  ◌⊎◌, ◌∙◌, ok, err, arith, Outcome-cases, Bool-cases,
}
use dayshield_core.Base.Operations.{◌>>=◌, Triple, Post, Triple-bind}
use dayshield_core.ConfigStore.{
  ConfigHistorySettings, effective_max_revisions, settings_or_default, StoreError, backup_failed,
  write_failed, invalid_config, Format, Files, FsAnswers, load, validate, save, restored_config,
  try_restore_backup, copy_file, write_valid, back_up, archive, commit, revalidate, check_written,
  write_or_restore, save_with_rollback_described,
}

module _ {C D : Type 0} (format : Format C D) (fs : FsAnswers D) where
  -- one call with the new document, if the history is enabled and the file can be read again
  abbrev pub archived_after : ConfigHistorySettings → D → List (D × ℕ) → List (D × ℕ)
  archived_after settings document calls =
      if settings.enabled && fs.read_again
      then (document, effective_max_revisions settings) ∷ calls
      else calls

  -- What is in the file is the normalised configuration, which can be read back and is valid, the
  -- hook was called with it, and with the history enabled its document is to be archived.
  pub record IsCommitted (config : C) (before after : Files C D) : Type 0 where
    pub written :
        after.config
        ≡ some (format.serialise (format.normalize_config (format.normalize_config config)))
    pub readable : C
    pub reads : load format fs after.config ≡ ok readable
    pub valid : format.validate readable ≡ true
    pub notified : after.notified ≡ format.normalize_config config ∷ before.notified
    pub archived :
        after.archived
        ≡ archived_after
            (settings_or_default (format.history_settings (format.normalize_config config)))
            (format.serialise (format.normalize_config (format.normalize_config config)))
            before.archived

  -- The file, the revisions and the calls of the hook are as before.
  pub record IsUnchanged (before after : Files C D) : Type 0 where
    pub same_config : after.config ≡ before.config
    pub same_archived : after.archived ≡ before.archived
    pub same_notified : after.notified ≡ before.notified

  -- between the backup and the end: the file may be written, the rest is as it was
  record IsBackedUp (before : Files C D) (m : Files C D) : Type 0 where
    bak_is : m.bak ≡ before.config
    kept_archived : m.archived ≡ before.archived
    kept_notified : m.notified ≡ before.notified

  module _ (before : Files C D) (old : D) (has_config : before.config ≡ some old)
      (in_dir : fs.bak_in_dir ≡ true) (restores : fs.restored ≡ true) where
    restore-IsUnchanged :
        (m : Files C D) → IsBackedUp before m → IsUnchanged before (try_restore_backup format fs m)
    unfolding try_restore_backup restored_config
    restore-IsUnchanged m p = record {
      same_config = ground (arith, p.bak_is, has_config, in_dir, restores);
      same_archived = p.kept_archived;
      same_notified = p.kept_notified;
    }

    copied :
        (file bak : Option D)
        → file ≡ some old
        → (copy_file format fs file bak ≡ (ok tt, some old))
          ⊎ ((e : StoreError) × (copy_file format fs file bak ≡ (err e, bak)))
    copied file bak h = elim (Bool-cases fs.bak_copied) [
      | inl e ↦ inl (rw h (rw e refl))
      | inr e ↦ inr (backup_failed, rw h (rw e refl))
    ]

    back_up_triple :
        Triple
          (λ m. m ≡ before)
          (back_up format fs)
          (λ t m. IsBackedUp before m)
          (λ e m. IsUnchanged before m)
    unfolding back_up
    back_up_triple = record {
      run = λ m p. elim (copied m.config m.bak (ap (λ x. x.config) p ∙ has_config)) [
        | inl e ↦ rw e (record {
          bak_is = sym has_config;
          kept_archived = ap (λ x. x.archived) p;
          kept_notified = ap (λ x. x.notified) p;
        })
        | inr (x, e) ↦ rw e (record {
          same_config = ap (λ y. y.config) p;
          same_archived = ap (λ y. y.archived) p;
          same_notified = ap (λ y. y.notified) p;
        })
      ];
    }

    written :
        (c : C) (file : Option D)
        → (write_valid format fs c file ≡ (ok tt, some (format.serialise c)))
          ⊎ ((e : StoreError) × (write_valid format fs c file ≡ (err e, file)))
    unfolding write_valid
    written c file = elim (Outcome-cases (validate format fs c)) [
      | inr (e, f) ↦ inr (e, rw (f, write_valid) refl)
      | inl (u, f) ↦ elim (Bool-cases fs.written) [
        | inl w ↦ inl (rw (f, write_valid) (rw (w, write_valid) refl))
        | inr w ↦ inr (write_failed, rw (f, write_valid) (rw (w, write_valid) refl))
      ]
    ]

    write_triple :
        (c : C)
        → Triple
            (IsBackedUp before)
            (write_or_restore format fs c)
            (λ t m.
              IsBackedUp before m
              × (m.config ≡ some (format.serialise (format.normalize_config c))))
            (λ e m. IsUnchanged before m)
    unfolding write_or_restore save
    write_triple c = record {
      run = λ m p. elim (written (format.normalize_config c) m.config) [
        | inl e ↦
            rw (e, write_or_restore, save)
              (
                record {
                  bak_is = p.bak_is;
                  kept_archived = p.kept_archived;
                  kept_notified = p.kept_notified;
                },
                ap (λ o. o.1) e,
              )
        | inr (x, e) ↦
            rw (e, write_or_restore, save)
              (restore-IsUnchanged _ (record {
                bak_is = p.bak_is;
                kept_archived = p.kept_archived;
                kept_notified = p.kept_notified;
              }))
      ];
    }

    revalidate_parts :
        (d : Option D)
        → revalidate format fs d ≡ ok tt
        → (c : C) × (load format fs d ≡ ok c) × (format.validate c ≡ true)
    unfolding revalidate validate
    revalidate_parts d h = elim (Outcome-cases (load format fs d)) [
      | inr (e, f) ↦ absurd (ground arith)
      | inl (c, f) ↦ (c, f, ground arith)
    ]

    commit_config :
        (c : C) (m : Files C D)
        → ((commit format fs c m).config ≡ m.config)
          × ((commit format fs c m).notified ≡ c ∷ m.notified)
    unfolding commit archive
    commit_config c m = (refl, refl)

    archived_lem :
        (c : C) (m : Files C D) (document : D)
        → m.config ≡ some document
        → IsBackedUp before m
        → (commit format fs c m).archived
          ≡ archived_after
              (settings_or_default (format.history_settings c))
              document
              before.archived
    unfolding commit archive
    archived_lem c m document h p =
        ap (λ o. archive format fs c o m.archived) h
        ∙ ap (archived_after (settings_or_default (format.history_settings c)) document)
            p.kept_archived

    check_triple :
        (config : C)
        → Triple
            (λ m.
              IsBackedUp before m
              × (m.config
                  ≡ some (
                      format.serialise (format.normalize_config (format.normalize_config config)))))
            (check_written format fs (format.normalize_config config))
            (λ t m. IsCommitted config before m)
            (λ e m. IsUnchanged before m)
    unfolding check_written
    check_triple config = record {
      run = λ m p. elim (Outcome-cases (revalidate format fs m.config)) [
        | inr (x, e) ↦ rw (e, check_written) (restore-IsUnchanged m p.0)
        | inl (u, e) ↦
            rw (e, check_written)
              (let (c, l, v) = revalidate_parts m.config e in
                let parts = commit_config (format.normalize_config config) m in
                record {
                  written = parts.0 ∙ p.1;
                  readable = c;
                  reads = ap (load format fs) parts.0 ∙ l;
                  valid = v;
                  notified =
                      parts.1 ∙ ap (λ x. format.normalize_config config ∷ x) p.0.kept_notified;
                  archived = archived_lem (format.normalize_config config) m _ p.1 p.0;
                })
      ];
    }

    save_triple :
        (config : C)
        → Triple
            (λ m. m ≡ before)
            (save_with_rollback_described format fs config)
            (λ t m. IsCommitted config before m)
            (λ e m. IsUnchanged before m)
    unfolding save_with_rollback_described
    save_triple config = Triple-bind back_up_triple (λ t.
        Triple-bind (write_triple (format.normalize_config config)) (λ t'. check_triple config))

    -- Where there is a configuration file, and its backup lies in the same directory and can be
    -- copied back, a save commits or changes nothing. If it succeeds, the file holds the normalised
    -- configuration, which was read back and found valid, the hook was called with it, and with the history
    -- enabled a revision with the same document is to be archived. If it fails, at any point, the file, the revisions and the calls of the hook are as before.
    pub save_with_rollback_described-IsCommitted :
        (config : C)
        → Post
            (λ t m. IsCommitted config before m)
            (λ e m. IsUnchanged before m)
            (save_with_rollback_described format fs config before)
    save_with_rollback_described-IsCommitted config = (save_triple config).run before refl

  -- Where there is no configuration file, but a backup of an earlier time, an invalid configuration
  -- is refused with its error, and the old backup becomes the configuration.
  pub stale_restore :
      (before : Files C D) (stale : D) (config : C)
      → before.config ≡ none
      → before.bak ≡ some stale
      → fs.bak_in_dir ≡ true
      → fs.restored ≡ true
      → format.validate (format.normalize_config (format.normalize_config config)) ≡ false
      → ((save_with_rollback_described format fs config before).0 ≡ err invalid_config)
        × ((save_with_rollback_described format fs config before).1.config ≡ some stale)
  unfolding save_with_rollback_described ◌>>=◌ back_up write_or_restore save write_valid validate
      try_restore_backup restored_config
  stale_restore before stale config h k d r v = ground (arith, h, k, d, r, v)
