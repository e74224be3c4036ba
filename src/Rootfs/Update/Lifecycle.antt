-- ===== src/Rootfs/Update/Lifecycle.antt =====
-- From an update or a rollback over the next boot to its confirmation, or to the automatic revert:
-- dayshield-core/src/rootfs_update.rs. GRUB itself is not part of the repository: a boot may count
-- `boot_attempts_left` down, starts a slot, and keeps the rest of the environment.
use dayshield_core.Base.{
  ℕ, true, Option, none, some, String, ◌≡◌, refl, arith, if◌then◌else◌, ok, Stored, missing, stored,
}
use dayshield_core.Rootfs.Slots.{
  Slot, a, b, slot_eq, other, label, grub_entry_id, SlotsState, GrubEnv, Recovered, Machine, Tools,
  write_slots_state, load_or_default_slots_state, detect_running_slot, read_build_version,
}
use dayshield_core.Rootfs.Update.{
  ◌>>=◌, grubenv_set, arm, clear_probation, apply_staged_image, rollback, signal_boot_success,
  confirm_boot, confirmed_state, recovery_marker,
}
use dayshield_core.Rootfs.Update.Arming.{
  armed, running_slot, applied_state, apply_staged_image-IsApplied,
}

abbrev pub boot : Option String → Machine → Machine
boot left m = record m { grubenv = record m.grubenv { boot_attempts_left = left } }

abbrev pub confirmed : Slot → GrubEnv
confirmed running = record {
  saved_entry = some (grub_entry_id running);
  fallback_entry = none;
  boot_state = some "confirmed";
  boot_attempts_left = none;
}

-- the version that the state records for a slot
abbrev pub recorded_version : SlotsState → Slot → String
recorded_version st s = if slot_eq s st.current_slot then st.current_version else st.standby_version

-- What a tool set that works, on a system that runs from the given slot, answers.
pub record Runs (tools : Tools) (booted : Slot) : Type 0 where
  pub on_slot : tools.root_label ≡ some (label booted)
  pub writable : tools.slots_writable ≡ true
  pub grub_works : (n : ℕ) → tools.grub_set_works n ≡ true
  pub removes : tools.marker_removed ≡ true
  pub writes : tools.marker_written ≡ true
  pub signals : tools.success_written ≡ true

detect-Runs :
    (tools : Tools) (booted : Slot) (m : Machine)
    → Runs tools booted
    → detect_running_slot tools m ≡ booted
unfolding detect_running_slot
detect-Runs tools a m r = rw (r.on_slot, detect_running_slot)
detect-Runs tools b m r = rw (r.on_slot, detect_running_slot)

clear_probation-Runs :
    (tools : Tools) (booted : Slot) (g : GrubEnv)
    → Runs tools booted
    → clear_probation tools booted g ≡ confirmed booted
unfolding clear_probation
clear_probation-Runs tools booted g r =
    ground (arith, r.grub_works 0, r.grub_works 1, r.grub_works 2, r.grub_works 3)

-- What a confirmation leaves behind on a machine that was armed to try a slot.
pub record IsConfirmed (tools : Tools) (before : SlotsState) (target booted : Slot) (m : Machine)
    : Type 0 where
  pub grub : m.grubenv ≡ confirmed booted
  pub marker : m.recovered ≡ (
      if slot_eq booted target
      then missing
      else stored (record {
        failed_slot = target;
        failed_version = before.standby_version;
        reverted_to = booted;
      }))
  pub success : m.boot_success ≡ true
  pub slots :
      m.slots_file
      ≡ stored (record before {
        current_slot = booted;
        current_version = elim (read_build_version tools) [
          | some v ↦ v
          | none ↦ recorded_version before booted
        ];
        standby_slot = other booted;
        standby_version =
            if slot_eq booted before.current_slot
            then before.standby_version
            else before.current_version;
        last_boot_success_at = some (tools.now 1);
        recorded_at = tools.now 2;
      })

marker-armed :
    (tools : Tools) (before : SlotsState) (target booted : Slot) (left : Option String)
    (marker : Stored Recovered)
    → tools.marker_removed ≡ true
    → tools.marker_written ≡ true
    → recovery_marker tools
        (record (armed target (other target)) { boot_attempts_left = left })
        booted
        before
        marker
      ≡ (if slot_eq booted target
          then missing
          else stored (record {
            failed_slot = target;
            failed_version = before.standby_version;
            reverted_to = booted;
          }))
unfolding recovery_marker
marker-armed tools before a a left marker r w = rw r refl
marker-armed tools before a b left marker r w = rw w refl
marker-armed tools before b a left marker r w = rw w refl
marker-armed tools before b b left marker r w = rw r refl

other-other : {s : Slot} → other (other s) ≡ s
other-other {s = a} = refl
other-other {s = b} = refl

confirm_boot-writable :
    (tools : Tools) (running : Slot) (slots : SlotsState) (m : Machine)
    → tools.slots_writable ≡ true
    → tools.success_written ≡ true
    → confirm_boot tools running slots m ≡ (
      ok tt,
      record m {
        recovered = recovery_marker tools m.grubenv running slots m.recovered;
        grubenv = clear_probation tools running m.grubenv;
        slots_file = stored (confirmed_state tools running slots);
        boot_success = true;
      },
    )
unfolding confirm_boot
confirm_boot-writable tools running slots m w success = ground (arith, w, success)

module _ (tools : Tools) (before : SlotsState) (target booted : Slot) (left : Option String)
    (m : Machine) (r : Runs tools booted) (is_armed : m.grubenv ≡ armed target (other target))
    (has_state : m.slots_file ≡ stored before) where
  found_slot : detect_running_slot tools (boot left m) ≡ booted
  found_slot = detect-Runs tools booted (boot left m) r

  loaded : load_or_default_slots_state tools (boot left m) ≡ (before, boot left m)
  unfolding load_or_default_slots_state
  loaded = ground arith

  confirm-armed :
      (n : Machine)
      → n.grubenv ≡ (boot left m).grubenv
      → ((confirm_boot tools booted before n).0 ≡ ok tt)
        × IsConfirmed tools before target booted (confirm_boot tools booted before n).1
  unfolding confirmed_state
  confirm-armed n same = rw (confirm_boot-writable tools booted before n r.writable r.signals) (
    refl,
    record {
      grub = clear_probation-Runs tools booted n.grubenv r;
      marker = rw same (
          rw is_armed
            (marker-armed tools before target booted left n.recovered r.removes r.writes));
      success = refl;
      slots = refl;
    },
  )

  confirm-booted :
      ((signal_boot_success tools (boot left m)).0 ≡ ok tt)
      × IsConfirmed tools before target booted (signal_boot_success tools (boot left m)).1
  unfolding signal_boot_success
  confirm-booted =
      rw (found_slot, signal_boot_success)
        (rw (loaded, signal_boot_success) (confirm-armed (boot left m) refl))

-- After an update that ended well, on a booted system whose tools and file system work, the next
-- boot is confirmed in one of two ways. If the updated
-- slot runs, it becomes the current one, and there is no marker. If GRUB fell back to the old slot,
-- that stays the current one, the next boot is its again, and the marker names the failed slot and
-- version. In both, the probation is over and the other slot keeps its version on standby.
pub confirm-update :
    (tools tools' : Tools) (image version : String) (m : Machine) {s : Slot} (booted : Slot)
    (left : Option String)
    → (apply_staged_image tools image version m).0 ≡ ok s
    → Runs tools' booted
    → let after = boot left (apply_staged_image tools image version m).1 in
      ((signal_boot_success tools' after).0 ≡ ok tt)
      × IsConfirmed tools'
          (applied_state tools version m)
          (other (running_slot tools m))
          booted
          (signal_boot_success tools' after).1
confirm-update tools tools' image version m booted left h r =
    let applied = (apply_staged_image-IsApplied tools image version m h).1 in
    confirm-booted tools' (applied_state tools version m) (other (running_slot tools m)) booted left
      (apply_staged_image tools image version m).1 r (rw other-other applied.grub) applied.slots

-- A rollback that ends well, on a system that can write the slot state, arms GRUB to try the other
-- slot, and changes no partition, no staged boot file and no recorded version.
pub rollback-IsArmed :
    (tools : Tools) (m : Machine) {s : Slot} {st : SlotsState}
    → m.slots_file ≡ stored st
    → tools.slots_writable ≡ true
    → (rollback tools m).0 ≡ ok s
    → let after = (rollback tools m).1 in
      (s ≡ other (running_slot tools m))
      × (after.grubenv ≡ armed (other (running_slot tools m)) (running_slot tools m))
      × (after.partition ≡ m.partition)
      × (after.boot_dir ≡ m.boot_dir)
      × ((x : Slot)
          → recorded_version (load_or_default_slots_state tools after).0 x ≡ recorded_version st x)
unfolding rollback arm grubenv_set ◌>>=◌ load_or_default_slots_state write_slots_state
rollback-IsArmed tools m stored_st w h =
    (ground arith, ground arith, ground arith, ground arith, λ x. ground arith)
