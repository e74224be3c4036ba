-- ===== src/Rootfs/Update/Tests.antt =====
-- Runs and instances of the rootfs updater at concrete inputs.
use text.Mathlib.TextEquality.{eq_iff}
use dayshield_core.Base.{
  true, false, none, some, String, [], ◌∷◌, ◌≡◌, refl, inr, arith, ok, err, stored, missing,
  unreadable,
}
use dayshield_core.Rootfs.Slots.{
  Slot, a, b, other, Machine, Tools, SlotsState, rootfs, blank, label, from_str,
  load_or_default_slots_state, detect_running_slot,
}
use dayshield_core.Rootfs.Update.{
  ◌>>=◌, apply_staged_image, apply_steps, rollback, arm, grubenv_set, signal_boot_success,
  mkfs_failed, check_target, format, extract, stage_boot_files, persist,
}
use dayshield_core.Rootfs.Update.Safety.{apply_staged_image-partition}
use dayshield_core.Rootfs.Update.Arming.{
  armed, running_slot, applied_state, IsApplied, apply_staged_image-IsApplied,
  grubenv-apply_staged_image,
}
use dayshield_core.Rootfs.Update.Lifecycle.{
  boot, IsConfirmed, recorded_version, confirm-update, rollback-IsArmed,
}

abbrev device : Slot → String
device a = "/dev/sda2"
device b = "/dev/sda3"

-- an appliance that runs from a slot, with tools that all work
abbrev working : Slot → Tools
working s = record {
  root_label = some (label s);
  version_file = some "1.4";
  slot_device = λ x. some (device x);
  root_device = some (device s);
  mountpoint = λ d. none;
  failed_content = blank;
  mkfs_works = true;
  mount_works = true;
  unsquashfs_works = true;
  boot_files_copied = true;
  slots_writable = true;
  failed_slots = λ file. unreadable;
  marker_removed = true;
  marker_written = true;
  failed_marker = λ file. unreadable;
  success_written = true;
  staging_cleaned = true;
  grub_set_works = λ n. true;
  now = λ n. "now";
}

abbrev before : SlotsState
before = record {
  current_slot = a;
  current_version = "1.4";
  standby_slot = b;
  standby_version = "1.3";
  recorded_at = "then";
  last_apply_at = none;
  last_boot_success_at = none;
  last_apply_started_at = none;
}

abbrev appliance : Machine
appliance = record {
  slots_file = stored before;
  grubenv = record {
    saved_entry = some "ds_a";
    fallback_entry = none;
    boot_state = some "confirmed";
    boot_attempts_left = none;
  };
  recovered = missing;
  boot_success = true;
  partition = λ d. rootfs "1.4";
  boot_dir = λ s. some "1.4";
  staged_images = true;
}

from_str_trims : from_str (32 ∷ 98 ∷ 10 ∷ []) ≡ some b
unfolding from_str
from_str_trims = refl

apply_staged_image-partition_example :
    (apply_staged_image (working a) "image" "1.5" appliance).1.partition "/dev/sda2" ≡ rootfs "1.4"
apply_staged_image-partition_example =
    apply_staged_image-partition (working a) "image" "1.5" appliance "/dev/sda2"
      (inr (refl, λ e. ground (arith, eq_iff "/dev/sda2" "")))

applies : (apply_staged_image (working a) "image" "1.5" appliance).0 ≡ ok b
unfolding apply_staged_image apply_steps check_target format extract stage_boot_files persist arm
    grubenv_set ◌>>=◌ load_or_default_slots_state detect_running_slot
applies = refl

apply_staged_image-IsApplied_example :
    (b ≡ other (running_slot (working a) appliance))
    × IsApplied
        (working a)
        (other (running_slot (working a) appliance))
        (running_slot (working a) appliance)
        "image"
        (applied_state (working a) "1.5" appliance)
        missing
        (apply_staged_image (working a) "image" "1.5" appliance).1
apply_staged_image-IsApplied_example =
    apply_staged_image-IsApplied (working a) "image" "1.5" appliance applies

-- the same appliance, where mkfs.ext4 fails
abbrev no_mkfs : Tools
no_mkfs = record (working a) { mkfs_works = false }

fails : (apply_staged_image no_mkfs "image" "1.5" appliance).0 ≡ err mkfs_failed
unfolding apply_staged_image apply_steps check_target format extract stage_boot_files persist arm
    grubenv_set ◌>>=◌ load_or_default_slots_state detect_running_slot
fails = refl

grubenv-apply_staged_image_example :
    (apply_staged_image no_mkfs "image" "1.5" appliance).1.grubenv ≡ appliance.grubenv
grubenv-apply_staged_image_example =
    grubenv-apply_staged_image no_mkfs "image" "1.5" appliance fails (λ e. ground arith)

-- the boot of the new slot fails, and GRUB falls back to the old one
confirm-update_example :
    let after = boot (some "0") (apply_staged_image (working a) "image" "1.5" appliance).1 in
    ((signal_boot_success (working a) after).0 ≡ ok tt)
    × IsConfirmed
        (working a)
        (applied_state (working a) "1.5" appliance)
        (other (running_slot (working a) appliance))
        a
        (signal_boot_success (working a) after).1
confirm-update_example =
    confirm-update (working a) (working a) "image" "1.5" appliance a (some "0") applies (record {
      on_slot = refl;
      writable = refl;
      grub_works = λ n. refl;
      removes = refl;
      writes = refl;
      signals = refl;
    })

rolls_back : (rollback (working a) appliance).0 ≡ ok b
unfolding rollback arm grubenv_set ◌>>=◌ load_or_default_slots_state detect_running_slot
rolls_back = refl

rollback-IsArmed_example :
    let after = (rollback (working a) appliance).1 in
    (b ≡ other (running_slot (working a) appliance))
    × (after.grubenv
        ≡ armed (other (running_slot (working a) appliance)) (running_slot (working a) appliance))
    × (after.partition ≡ appliance.partition)
    × (after.boot_dir ≡ appliance.boot_dir)
    × ((x : Slot)
        → recorded_version (load_or_default_slots_state (working a) after).0 x
          ≡ recorded_version before x)
rollback-IsArmed_example = rollback-IsArmed (working a) appliance refl refl rolls_back
