-- ===== src/Rootfs/Update.antt =====
-- Applying a staged image, rolling back, and confirming a boot: dayshield-core/src/rootfs_update.rs.
-- Each operation is a chain of steps that change the machine and may fail, under the operation
-- lock, so that no other operation comes between its steps.
pub mod Safety
pub mod Arming
pub mod Lifecycle
mod Tests
use text.Mathlib.Text.{◌==◌ as str_eq}
use dayshield_core.Base.{
  ℕ, Bool, true, false, not, ◌&&◌, Option, none, some, String, if◌then◌else◌, Outcome, ok, err,
  Stored, stored, missing, unreadable,
}
use dayshield_core.Rootfs.Slots.{
  Slot, slot_eq, other, grub_entry_id, SlotsState, GrubEnv, Machine, Tools, Content, rootfs, blank,
  Recovered, read_build_version, write_slots_state, load_or_default_slots_state,
  detect_running_slot, remove_marker, write_marker,
}

pub data UpdateError : Type 0 where
  no_device same_partition mounted mkfs_failed mount_failed unsquashfs_failed boot_copy_failed :
      UpdateError
  slots_not_written grub_set_failed : UpdateError

abbrev pub Op : Type 0 → Type 0
Op A = Machine → Outcome UpdateError A × Machine

infixl 5 ◌>>=◌ ◌>>◌
unfoldable pub ◌>>=◌ : {A B : Type 0} → Op A → (A → Op B) → Op B
◌>>=◌ x f m = let (r, m') = x m in elim r [ ok v ↦ f v m' | err e ↦ (err e, m') ]

abbrev pub ◌>>◌ : {A B : Type 0} → Op A → Op B → Op B
x >> y = x >>= λ _. y

abbrev pub set_partition : String → Content → Machine → Machine
set_partition device c m = record m {
  partition = λ d. if str_eq d device then c else m.partition d;
}

abbrev pub or_empty : Option String → String
or_empty none = ""
or_empty (some d) = d

-- `grubenv_set`, the n-th of an operation
pub grubenv_set : Tools → ℕ → (GrubEnv → GrubEnv) → Op (Unit {0})
grubenv_set tools n edit m = elim (tools.grub_set_works n) [
  | true ↦ (ok tt, record m { grubenv = edit m.grubenv })
  | false ↦ (err grub_set_failed, m)
]

-- Both `apply_staged_image` and `rollback` set these four keys, in this order.
pub arm : Tools → Slot → Slot → Op (Unit {0})
arm tools target running = do
  grubenv_set tools 0 (λ g. record g { saved_entry = some (grub_entry_id target) })
  grubenv_set tools 1 (λ g. record g { fallback_entry = some (grub_entry_id running) })
  grubenv_set tools 2 (λ g. record g { boot_state = some "trying" })
  grubenv_set tools 3 (λ g. record g { boot_attempts_left = some "3" })

-- the device of the target slot, after the safety checks
pub check_device : Tools → Option String → Outcome UpdateError String
check_device tools none = err no_device
check_device tools (some device) =
    let running_dev = or_empty tools.root_device in
    if not (str_eq running_dev "") && str_eq running_dev device
    then err same_partition
    else elim (tools.mountpoint device) [ some mp ↦ err mounted | none ↦ ok device ]

pub check_target : Tools → Slot → Op String
unfolding check_device
check_target tools target m = (check_device tools (tools.slot_device target), m)

pub format : Tools → String → Op (Unit {0})
format tools device m = elim tools.mkfs_works [
  | true ↦ (ok tt, set_partition device blank m)
  | false ↦ (err mkfs_failed, set_partition device tools.failed_content m)
]

pub extract : Tools → String → String → Op (Unit {0})
extract tools device image m = elim tools.mount_works [
  | false ↦ (err mount_failed, m)
  | true ↦ elim tools.unsquashfs_works [
    | true ↦ (ok tt, set_partition device (rootfs image) m)
    | false ↦ (err unsquashfs_failed, set_partition device tools.failed_content m)
  ]
]

pub stage_boot_files : Tools → Slot → String → Op (Unit {0})
stage_boot_files tools target image m = elim tools.boot_files_copied [
  | true ↦
      (ok tt, record m { boot_dir = λ s. if slot_eq s target then some image else m.boot_dir s })
  | false ↦ (err boot_copy_failed, m)
]

pub persist : Tools → SlotsState → Op (Unit {0})
persist tools state m = elim tools.slots_writable [
  | true ↦ (ok tt, record m { slots_file = stored state })
  | false ↦ (err slots_not_written, record m { slots_file = tools.failed_slots m.slots_file })
]

-- the removal of the marker and the cleanup of the images, whose failures are ignored
abbrev pub finish_apply : Tools → Slot → Op Slot
finish_apply tools target m = (
  ok target,
  record m {
    recovered = remove_marker tools m.recovered;
    staged_images = if tools.staging_cleaned then false else m.staged_images;
  },
)

-- The steps of `apply_staged_image` that may end it.
pub apply_steps : Tools → String → Slot → Slot → SlotsState → Op Slot
apply_steps tools image target running applied = do
  device ← check_target tools target
  format tools device
  extract tools device image
  stage_boot_files tools target image
  persist tools applied
  arm tools target running
  finish_apply tools target

-- The image that is written is named by `image`; the slot that it went to is returned.
pub apply_staged_image : Tools → String → String → Op Slot
apply_staged_image tools image version m =
    let (slots, m₀) = load_or_default_slots_state tools m in
    let running = detect_running_slot tools m₀ in
    let target = other running in
    let started = record slots { last_apply_started_at = some (tools.now 1) } in
    let applied = record started {
      standby_slot = target;
      standby_version = version;
      current_slot = running;
      last_apply_at = some (tools.now 2);
      recorded_at = tools.now 2;
    } in
    apply_steps tools image target running applied (write_slots_state tools started m₀)

pub rollback : Tools → Op Slot
rollback tools m =
    let (slots, m₀) = load_or_default_slots_state tools m in
    let running = detect_running_slot tools m₀ in
    let target = other running in
    let recorded = record slots { last_apply_at = some (tools.now 1); recorded_at = tools.now 1 } in
    let steps : Op Slot = do
      arm tools target running
      λ m'. (ok target, write_slots_state tools recorded m')
    in steps m₀

abbrev pub is_some_str : String → Option String → Bool
is_some_str k none = false
is_some_str k (some v) = str_eq v k

-- GRUB armed `trying` for the other slot, and this one was booted.
abbrev pub reverted : GrubEnv → Slot → Bool
reverted g running =
    is_some_str "trying" g.boot_state && is_some_str (grub_entry_id (other running)) g.saved_entry

-- `let _ = Command::new(GRUB_EDITENV_BIN)..`: a failure is ignored
abbrev pub try_edit : Tools → ℕ → (GrubEnv → GrubEnv) → GrubEnv → GrubEnv
try_edit tools n edit g = if tools.grub_set_works n then edit g else g

pub clear_probation : Tools → Slot → GrubEnv → GrubEnv
clear_probation tools running g =
    let g₀ = try_edit tools 0 (λ h. record h { saved_entry = some (grub_entry_id running) }) g in
    let g₁ = try_edit tools 1 (λ h. record h { boot_state = some "confirmed" }) g₀ in
    let g₂ = try_edit tools 2 (λ h. record h { boot_attempts_left = none }) g₁ in
    try_edit tools 3 (λ h. record h { fallback_entry = none }) g₂

-- the slot state that `signal_boot_success` writes
pub confirmed_state : Tools → Slot → SlotsState → SlotsState
confirmed_state tools running slots =
    let on_current = slot_eq running slots.current_slot in
    let running_version : String = elim (read_build_version tools) [
      | some v ↦ v
      | none ↦ if on_current then slots.current_version else slots.standby_version
    ] in
    let other_version = if on_current then slots.standby_version else slots.current_version in
    record slots {
      current_slot = running;
      current_version = running_version;
      standby_slot = other running;
      standby_version = other_version;
      last_boot_success_at = some (tools.now 1);
      recorded_at = tools.now 2;
    }

pub recovery_marker : Tools → GrubEnv → Slot → SlotsState → Stored Recovered → Stored Recovered
recovery_marker tools g running slots marker =
    if reverted g running
    then write_marker tools
        (record {
          failed_slot = other running;
          failed_version = slots.standby_version;
          reverted_to = running;
        })
        marker
    else remove_marker tools marker

-- `signal_boot_success` once the running slot and the state are known
pub confirm_boot : Tools → Slot → SlotsState → Op (Unit {0})
confirm_boot tools running slots m =
    let m₁ = record m {
      recovered = recovery_marker tools m.grubenv running slots m.recovered;
      grubenv = clear_probation tools running m.grubenv;
    } in
    elim tools.slots_writable [
      | false ↦ (err slots_not_written, record m₁ { slots_file = tools.failed_slots m.slots_file })
      | true ↦ (
        ok tt,
        record m₁ {
          slots_file = stored (confirmed_state tools running slots);
          boot_success = if tools.success_written then true else m.boot_success;
        },
      )
    ]

pub signal_boot_success : Tools → Op (Unit {0})
signal_boot_success tools m =
    let running = detect_running_slot tools m in
    let (slots, m₀) = load_or_default_slots_state tools m in confirm_boot tools running slots m₀
