-- ===== src/Rootfs/Update/Arming.antt =====
-- How an update or a rollback arms GRUB: dayshield-core/src/rootfs_update.rs.
use text.Mathlib.TextEquality.{eq_iff}
use dayshield_core.Base.{
  some, String, ◌≡◌, ◌≢◌, ◌∙◌, refl, arith, ok, err, Stored, missing, stored, if◌then◌else◌,
}
use dayshield_core.Rootfs.Slots.{
  Slot, other, grub_entry_id, SlotsState, GrubEnv, Recovered, Machine, Tools, rootfs,
  write_slots_state, load_or_default_slots_state, detect_running_slot,
}
use dayshield_core.Rootfs.Update.{
  UpdateError, grub_set_failed, ◌>>=◌, grubenv_set, arm, check_target, format, extract,
  stage_boot_files, persist, apply_staged_image, apply_steps,
}

-- The next boot is the target's, on probation, with the running slot to fall back on.
abbrev pub armed : Slot → Slot → GrubEnv
armed target running = record {
  saved_entry = some (grub_entry_id target);
  fallback_entry = some (grub_entry_id running);
  boot_state = some "trying";
  boot_attempts_left = some "3";
}

module _ (tools : Tools) (target running : Slot) where
  arm-ok :
      (m : Machine)
      → (arm tools target running m).0 ≡ ok tt
      → (arm tools target running m).1 ≡ record m { grubenv = armed target running }
  unfolding arm grubenv_set ◌>>=◌
  arm-ok m h = ground arith

  arm-err :
      (m : Machine) {e : UpdateError} → (arm tools target running m).0 ≡ err e → e ≡ grub_set_failed
  unfolding arm grubenv_set ◌>>=◌
  arm-err m h = ground arith

  -- What holds of the machine when the steps of an update end well.
  pub record IsApplied (image : String) (applied : SlotsState) (marker : Stored Recovered)
      (m : Machine) : Type 0 where
    pub grub : m.grubenv ≡ armed target running
    pub slots : m.slots_file ≡ stored applied
    pub boot_files : m.boot_dir target ≡ some image
    pub marker_gone : m.recovered ≡ (if tools.marker_removed then missing else marker)
    pub written :
        (device : String)
        → tools.slot_device target ≡ some device
        → m.partition device ≡ rootfs image

  steps-ok :
      (image : String) (applied : SlotsState) (marker : Stored Recovered) (m : Machine) {s : Slot}
      → m.recovered ≡ marker
      → (apply_steps tools image target running applied m).0 ≡ ok s
      → (s ≡ target)
        × IsApplied image applied marker (apply_steps tools image target running applied m).1
  unfolding apply_steps check_target format extract stage_boot_files persist ◌>>=◌ arm grubenv_set
  steps-ok image applied marker m e h = (
    ground arith,
    record {
      grub = ground arith;
      slots = ground arith;
      boot_files = ground arith;
      marker_gone = ground (arith, e, h);
      written = λ device f. ground (arith, eq_iff device device);
    },
  )

  -- The rest of the steps may end badly only after GRUB has been touched if a `set` failed.
  steps-err :
      (image : String) (applied : SlotsState) (m : Machine) {e : UpdateError}
      → (apply_steps tools image target running applied m).0 ≡ err e
      → e ≢ grub_set_failed
      → (apply_steps tools image target running applied m).1.grubenv ≡ m.grubenv
  unfolding apply_steps check_target format extract stage_boot_files persist ◌>>=◌ arm grubenv_set
  steps-err image applied m h ne = ground arith

module _ (tools : Tools) where
  abbrev pub running_slot : Machine → Slot
  running_slot m = detect_running_slot tools (load_or_default_slots_state tools m).1

  -- The slot state that an update of the given machine writes.
  abbrev pub applied_state : String → Machine → SlotsState
  applied_state version m = record (load_or_default_slots_state tools m).0 {
    current_slot = running_slot m;
    standby_slot = other (running_slot m);
    standby_version = version;
    recorded_at = tools.now 2;
    last_apply_at = some (tools.now 2);
    last_apply_started_at = some (tools.now 1);
  }

  loaded-recovered : (m : Machine) → (load_or_default_slots_state tools m).1.recovered ≡ m.recovered
  unfolding load_or_default_slots_state write_slots_state
  loaded-recovered m = ground arith

  write-recovered :
      (st : SlotsState) (m : Machine) → (write_slots_state tools st m).recovered ≡ m.recovered
  unfolding write_slots_state
  write-recovered st m = refl

  -- An update that ends well has written the image to the device of the slot that is not running,
  -- with its boot files, has recorded the version for that slot, and has armed GRUB to try that
  -- slot with the running one to fall back on. The marker of an earlier revert is gone, unless its
  -- removal failed, and then it is still there.
  pub apply_staged_image-IsApplied :
      (image version : String) (m : Machine) {s : Slot}
      → (apply_staged_image tools image version m).0 ≡ ok s
      → (s ≡ other (running_slot m))
        × IsApplied tools
            (other (running_slot m))
            (running_slot m)
            image
            (applied_state version m)
            m.recovered
            (apply_staged_image tools image version m).1
  unfolding apply_staged_image
  apply_staged_image-IsApplied image version m h =
      steps-ok tools (other (running_slot m)) (running_slot m) image _ m.recovered _
        (write-recovered _ _ ∙ loaded-recovered m) h

  loaded-grubenv : (m : Machine) → (load_or_default_slots_state tools m).1.grubenv ≡ m.grubenv
  unfolding load_or_default_slots_state
  loaded-grubenv m = ground arith

  write-grubenv :
      (st : SlotsState) (m : Machine) → (write_slots_state tools st m).grubenv ≡ m.grubenv
  unfolding write_slots_state
  write-grubenv st m = ground arith

  -- An update that fails for any reason but a failing `grub-editenv` leaves GRUB's environment, and
  -- so the next boot, as it was.
  pub grubenv-apply_staged_image :
      (image version : String) (m : Machine) {e : UpdateError}
      → (apply_staged_image tools image version m).0 ≡ err e
      → e ≢ grub_set_failed
      → (apply_staged_image tools image version m).1.grubenv ≡ m.grubenv
  unfolding apply_staged_image
  grubenv-apply_staged_image image version m h ne =
      steps-err tools (other (running_slot m)) (running_slot m) image _ _ h ne
      ∙ (write-grubenv _ _ ∙ loaded-grubenv m)
