-- ===== src/Rootfs/Update/Safety.antt =====
-- What an update leaves alone: dayshield-core/src/rootfs_update.rs.
use text.Mathlib.TextEquality.{eq_iff}
use dayshield_core.Base.{
  ℕ, none, some, String, ◌≡◌, ◌≢◌, ◌∙◌, refl, sym, ap, ◌⊎◌, inl, inr, arith, ok, Bool-cases,
  Outcome-cases,
}
use dayshield_core.Rootfs.Slots.{
  Slot, other, SlotsState, GrubEnv, Machine, Content, Tools, write_slots_state,
  load_or_default_slots_state, detect_running_slot,
}
use dayshield_core.Rootfs.Update.{
  Op, ◌>>=◌, grubenv_set, arm, apply_steps, check_target, format, extract, stage_boot_files,
  persist, apply_staged_image,
}

-- A step leaves a part of the machine as it is, whatever its result.
pub record Keeps {ℓ} {X : Type ℓ} {A : Type 0} (f : Machine → X) (op : Op A) : Type ℓ where
  pub at : (m : Machine) → f (op m).1 ≡ f m

module _ {ℓ} {X : Type ℓ} (f : Machine → X) where
  -- The rest of a chain need only keep the part for results that the first step can have.
  pub Keeps-bind_if :
      {A B : Type 0} (x : Op A) (k : A → Op B)
      → Keeps f x
      → ((v : A) (m : Machine) → (x m).0 ≡ ok v → Keeps f (k v))
      → Keeps f (x >>= k)
  unfolding ◌>>=◌
  Keeps-bind_if x k p q = record {
    at = λ m. elim (Outcome-cases (x m).0) [
      | inl (v, e) ↦ rw (e, ◌>>=◌) ((q v m e).at (x m).1 ∙ p.at m)
      | inr (u, e) ↦ rw (e, ◌>>=◌) (p.at m)
    ];
  }

  pub Keeps-bind :
      {A B : Type 0} (x : Op A) (k : A → Op B)
      → Keeps f x
      → ((v : A) → Keeps f (k v))
      → Keeps f (x >>= k)
  Keeps-bind x k p q = Keeps-bind_if x k p (λ v m e. q v)

module _ (tools : Tools) where
  check_target_state : (target : Slot) (m : Machine) → (check_target tools target m).1 ≡ m
  unfolding check_target ◌>>=◌
  check_target_state target m = ground arith

  -- A device passes the checks only if it is the target's, and not that of the running root.
  check_target-ok :
      (target : Slot) (device : String) (m : Machine)
      → (check_target tools target m).0 ≡ ok device
      → (tools.slot_device target ≡ some device)
        × (tools.mountpoint device ≡ none)
        × ((r : String) → tools.root_device ≡ some r → r ≢ "" → r ≢ device)
  unfolding check_target ◌>>=◌
  check_target-ok target device m h =
      (ground arith, ground arith, λ r e ne same. ground (arith, eq_iff r "", eq_iff r device))

  grubenv_set-Keeps {ℓ} :
      {X : Type ℓ} (f : Machine → X)
      → ((m : Machine) (g : GrubEnv) → f (record m { grubenv = g }) ≡ f m)
      → (n : ℕ) (edit : GrubEnv → GrubEnv) → Keeps f (grubenv_set tools n edit)
  unfolding grubenv_set
  grubenv_set-Keeps f ignores n edit = record {
    at = λ m. elim (Bool-cases (tools.grub_set_works n)) [
      | inl e ↦ rw (e, grubenv_set) (ignores m (edit m.grubenv))
      | inr e ↦ rw (e, grubenv_set)
    ];
  }

  arm-Keeps {ℓ} :
      {X : Type ℓ} (f : Machine → X)
      → ((m : Machine) (g : GrubEnv) → f (record m { grubenv = g }) ≡ f m)
      → (target running : Slot) → Keeps f (arm tools target running)
  unfolding arm
  arm-Keeps f ignores target running = search (Keeps-bind, grubenv_set-Keeps)

  write_slots_state-partition :
      (st : SlotsState) (m : Machine) → (write_slots_state tools st m).partition ≡ m.partition
  unfolding write_slots_state
  write_slots_state-partition st m = ground arith

  loaded-partition : (m : Machine) → (load_or_default_slots_state tools m).1.partition ≡ m.partition
  unfolding load_or_default_slots_state
  loaded-partition m = ground arith

  format-partition :
      (d device : String) → d ≢ device → Keeps (λ m. m.partition d) (format tools device)
  unfolding format
  format-partition d device ne = record { at = λ m. ground (arith, eq_iff d device) }

  extract-partition :
      (d device image : String)
      → d ≢ device
      → Keeps (λ m. m.partition d) (extract tools device image)
  unfolding extract
  extract-partition d device image ne = record { at = λ m. ground (arith, eq_iff d device) }

  stage-partition :
      (d : String) (target : Slot) (image : String)
      → Keeps (λ m. m.partition d) (stage_boot_files tools target image)
  unfolding stage_boot_files
  stage-partition d target image = record { at = λ m. ground arith }

  persist-partition : (d : String) (st : SlotsState) → Keeps (λ m. m.partition d) (persist tools st)
  unfolding persist
  persist-partition d st = record { at = λ m. ground arith }

  -- the slot that runs, as the operations find it
  abbrev pub running_slot : Machine → Slot
  running_slot m = detect_running_slot tools (load_or_default_slots_state tools m).1

  apply_steps-partition :
      (image : String) (target running : Slot) (applied : SlotsState) (d : String)
      → ((device : String) (m : Machine) → (check_target tools target m).0 ≡ ok device → d ≢ device)
      → Keeps (λ m. m.partition d) (apply_steps tools image target running applied)
  unfolding apply_steps
  apply_steps-partition image target running applied d spared =
      Keeps-bind_if f _ _ (record { at = λ m. ap f (check_target_state target m) })
        (λ device m passed.
          Keeps-bind f _ _ (format-partition d device (spared device m passed)) (λ _.
            Keeps-bind f _ _ (extract-partition d device image (spared device m passed)) (λ _.
              Keeps-bind f _ _ (stage-partition d target image) (λ _.
                Keeps-bind f _ _ (persist-partition d applied) (λ _.
                  Keeps-bind f _ _ (arm-Keeps f (λ _ _. refl) target running)
                    (λ _. record { at = λ _. refl }))))))
    where
      f : Machine → Content
      f m = m.partition d

  apply-partition :
      (image version : String) (m : Machine) (d : String)
      → ((device : String) (m' : Machine)
          → (check_target tools (other (running_slot m)) m').0 ≡ ok device
          → d ≢ device)
      → (apply_staged_image tools image version m).1.partition d ≡ m.partition d
  unfolding apply_staged_image
  apply-partition image version m d spared =
      (apply_steps-partition image _ _ _ d spared).at _
      ∙ ap (λ p. p d) (write_slots_state-partition _ _ ∙ loaded-partition m)

  -- On every path through an update, the failing ones included, a partition keeps its content unless
  -- it is the device of the slot that is not running; and the device of the running root keeps it
  -- even then, if it is known.
  pub apply_staged_image-partition :
      (image version : String) (m : Machine) (d : String)
      → (tools.slot_device (other (running_slot m)) ≢ some d)
        ⊎ ((tools.root_device ≡ some d) × (d ≢ ""))
      → (apply_staged_image tools image version m).1.partition d ≡ m.partition d
  apply_staged_image-partition image version m d (inl elsewhere) =
      apply-partition image version m d (λ device m' passed same.
        elsewhere ((check_target-ok _ device m' passed).0 ∙ ap some (sym same)))
  apply_staged_image-partition image version m d (inr (root, named)) =
      apply-partition image version m d
        (λ device m' passed. (check_target-ok _ device m' passed).2 d root named)
