-- ===== src/Rootfs/Slots.antt =====
-- The two slots, the persisted slot state and the machine that the updater works on:
-- dayshield-core/src/rootfs_update.rs.
-- External programs (findmnt, blkid, mkfs.ext4, mount, unsquashfs, grub-editenv) and the file
-- system answer through `Tools`; partitions are addressed by device path.
use text.Mathlib.Text.{◌==◌ as str_eq}
use dayshield_core.Base.{
  ℕ, Bool, true, false, not, ◌&&◌, Option, none, some, String, if◌then◌else◌, Stored, missing,
  stored, map,
}
use dayshield_core.Base.Text.{Text, codes, trim, to_ascii_uppercase, text_eq}

pub data Slot : Type 0 where
  a b : Slot

abbrev pub slot_eq : Slot → Slot → Bool
slot_eq a a = true
slot_eq b b = true
slot_eq _ _ = false

abbrev pub as_str : Slot → String
as_str a = "A"
as_str b = "B"

abbrev pub other : Slot → Slot
other a = b
other b = a

abbrev pub label : Slot → String
label a = "DS_ROOT_A"
label b = "DS_ROOT_B"

abbrev pub grub_entry_id : Slot → String
grub_entry_id a = "ds_a"
grub_entry_id b = "ds_b"

abbrev pub boot_dir_name : Slot → String
boot_dir_name a = "slot-a"
boot_dir_name b = "slot-b"

-- `none` is the error "invalid slot identifier".
unfoldable pub from_str : Text → Option Slot
unfolding trim to_ascii_uppercase
from_str s =
    let name = map to_ascii_uppercase (trim s) in
    if text_eq name (codes "A") then some a else if text_eq name (codes "B") then some b else none

pub record SlotsState : Type 0 where
  pub current_slot : Slot
  pub current_version : String
  pub standby_slot : Slot
  pub standby_version : String
  pub recorded_at : String
  pub last_apply_at : Option String
  pub last_boot_success_at : Option String
  pub last_apply_started_at : Option String

-- /boot/grub/grubenv: the four keys that the updater reads and writes.
pub record GrubEnv : Type 0 where
  pub saved_entry : Option String
  pub fallback_entry : Option String
  pub boot_state : Option String
  pub boot_attempts_left : Option String

-- The marker file that tells the UI of an automatic revert.
pub record Recovered : Type 0 where
  pub failed_slot : Slot
  pub failed_version : String
  pub reverted_to : Slot

pub data Content : Type 0 where
  rootfs : String → Content
  blank : Content

pub record Machine : Type 0 where
  pub slots_file : Stored SlotsState
  pub grubenv : GrubEnv
  pub recovered : Stored Recovered
  pub boot_success : Bool
  pub partition : String → Content  -- by device
  pub boot_dir : Slot → Option String  -- the image that the staged kernel and initrd came from
  pub staged_images : Bool

-- What the external programs and the file system answer.
pub record Tools : Type 0 where
  pub root_label : Option String  -- findmnt, trimmed; `none` if it fails
  pub version_file : Option String  -- /etc/dayshield/version, trimmed
  pub slot_device : Slot → Option String  -- blkid -L, trimmed; `none` if it fails or is empty
  pub root_device : Option String
  pub mountpoint : String → Option String
  pub failed_content : Content  -- what a failed mkfs.ext4 or unsquashfs leaves behind
  pub mkfs_works : Bool
  pub mount_works : Bool
  pub unsquashfs_works : Bool
  pub boot_files_copied : Bool
  pub slots_writable : Bool
  -- what a failing write leaves of the slot state: the file is written in place
  pub failed_slots : Stored SlotsState → Stored SlotsState
  pub marker_removed : Bool
  pub marker_written : Bool
  pub failed_marker : Stored Recovered → Stored Recovered
  pub success_written : Bool
  pub staging_cleaned : Bool
  pub grub_set_works : ℕ → Bool  -- the n-th `grub-editenv set` of an operation
  pub now : ℕ → String  -- the n-th reading of the clock

unfoldable pub read_build_version : Tools → Option String
read_build_version tools = elim tools.version_file [
  | none ↦ none
  | some v ↦
      if not (str_eq v "") && not (str_eq v "unknown") && not (str_eq v "initial")
      then some v
      else none
]

abbrev pub or_unknown : Option String → String
or_unknown none = "unknown"
or_unknown (some v) = v

unfoldable pub default_slots_state : Tools → SlotsState
default_slots_state tools = record {
  current_slot = a;
  current_version = or_unknown (read_build_version tools);
  standby_slot = b;
  standby_version = or_unknown (read_build_version tools);
  recorded_at = tools.now 0;
  last_apply_at = none;
  last_boot_success_at = none;
  last_apply_started_at = none;
}

unfoldable pub write_slots_state : Tools → SlotsState → Machine → Machine
write_slots_state tools state m = record m {
  slots_file = if tools.slots_writable then stored state else tools.failed_slots m.slots_file;
}

-- `let _ = remove_file(RECOVERED_MARKER)`
abbrev pub remove_marker : Tools → Stored Recovered → Stored Recovered
remove_marker tools marker = if tools.marker_removed then missing else marker

-- `let _ = write(RECOVERED_MARKER, …)`
abbrev pub write_marker : Tools → Recovered → Stored Recovered → Stored Recovered
write_marker tools r marker = if tools.marker_written then stored r else tools.failed_marker marker

-- The state, and the machine after the defaults may have been written.
unfoldable pub load_or_default_slots_state : Tools → Machine → SlotsState × Machine
unfolding write_slots_state
load_or_default_slots_state tools m = elim m.slots_file [
  | stored state ↦ (state, m)
  | _ ↦ (default_slots_state tools, write_slots_state tools (default_slots_state tools) m)
]

unfoldable pub detect_running_slot : Tools → Machine → Slot
unfolding load_or_default_slots_state
detect_running_slot tools m =
    let fallback = (load_or_default_slots_state tools m).0.current_slot in
    elim tools.root_label [
      | none ↦ fallback
      | some l ↦ if str_eq l "DS_ROOT_A" then a else if str_eq l "DS_ROOT_B" then b else fallback
    ]

unfoldable pub normalize_version : Option String → Option String
normalize_version none = none
normalize_version (some v) = if not (str_eq v "") && not (str_eq v "unknown") then some v else none

unfoldable pub version_for_slot : Tools → SlotsState → Slot → Option String
unfolding normalize_version read_build_version
version_for_slot tools state slot =
    if slot_eq slot state.current_slot
    then normalize_version (some state.current_version)
    else if slot_eq slot state.standby_slot
    then normalize_version (some state.standby_version)
    else normalize_version (read_build_version tools)
