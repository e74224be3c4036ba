-- ===== src/Lib.antt =====
-- A verification library for dayshield-core, the core service of a firewall appliance.
--
-- The service keeps one configuration on disk, and applies it to the firewall and to daemons. Around
-- it stand the parts that are modelled here, each from the files named with it (paths from the
-- repository's root):
--
-- Schedules (dayshield-core/src/schedules.rs): the jobs that the administrator schedules.
--   Schedules.antt has the types and the functions of the module under their names (validate_config,
--   save_config, load_config, upsert_runtime_status, build_response, execute_job, is_due,
--   run_job_now); scheduler_loop is tick and ticks, with visit_job for the body of its inner loop. A
--   file of JSON is missing, unreadable or a value. The children prove: Config on the job list,
--   Status on the status list, Spacing on when jobs run.
--
-- Rootfs (dayshield-core/src/rootfs_update.rs): updates of the root file system in two slots.
--   Rootfs/Slots.antt has the slots, the state on disk and the state of the machine (partitions,
--   boot directories, GRUB's environment); Rootfs/Update.antt has apply_staged_image, rollback and
--   signal_boot_success as chains of steps. A failing write leaves a file of any content, and the
--   best-effort writes and removals of markers may fail. Its children prove what an update may touch (Safety),
--   what it leaves (Arming) and what the next boot makes of it (Lifecycle).
--
-- Version (dayshield-core/src/update.rs): versions of artifacts, in names and in order.
--
-- Auth (dayshield-core/src/auth): the key file and the tokens (Session), the public routes (Paths),
--   the token of a request (Extraction) and the middleware (Guard).
--
-- Net (dayshield-core/src/config/models.rs): the validation helpers on addresses and names, on the
--   address parsers of the standard library, which Net/Parsing.antt writes out.
--
--   Net/Characters.antt and its child follow the characters that the parsers let through, and
--   Net/Printing.antt writes out how the standard library prints addresses. Net/Cidr.antt has the
--   masks and networks; what the code has twice, for u32 and for u128, is one function there.
--
-- Interfaces (dayshield-core/src/config/models.rs): the records of interfaces and system settings.
--
-- Firewall (dayshield-core/src/config/models.rs and engine/nftables/mod.rs): the rules and settings,
--   their validation (Validation; what it accepts in Validity; Aliases), when a schedule is active
--   (Schedule), the rules that the system adds (System with Rules), which rules are emitted and in
--   which order (Selection), the text of a rule (Format), NAT rules with their validation and tables
--   (Nat), the captive portal's part (Captive), and the whole ruleset (Ruleset with Chains). A text
--   that the code builds by pushes is the list of the pieces, joined at the end. Ruleset/Statements
--   compares the validation with the text, Ruleset/DefaultDeny and Ruleset/AntiLockout say where
--   the rules of the system stand among those of the user, on System/Access.
--
-- CaptivePortal (dayshield-core/src/captive_portal.rs): when a session is active (Sessions), how a
--   voucher is redeemed (Vouchers), how the configuration is normalised and checked (Config), the
--   files and the ruleset (Store) and the handlers of clients, of administrators and of the reaper
--   (Handlers), as operations on a state that may fail. The handlers use Net for addresses, which
--   are compared as texts, as the code does. Uniqueness, Limits and Invariant prove what they keep.
--   Of the ruleset the state has what it was made of: the configuration and the active sessions. The
--   chains that follow from them are in Firewall/Captive; they let clients through also where the
--   portal is not active, and those with bypassed MAC addresses. Retained and Applied follow these
--   arguments through the handlers, Access says for whom they are after an authorisation or a logout.
--
-- ConfigStore (dayshield-core/src/config/storage.rs): the save with a backup and a rollback, for any
--   format of configurations and documents. Revisions has the second half of the save, which
--   archives what was committed, and the operations on revisions; Restoring composes the two.
--
-- History (dayshield-core/src/config/history.rs): the archive of revisions on a directory of files.
--   The functions have their names; Names follows the ids, Archive what an archiving leaves.
--
-- PrefixDelegation (dayshield-core/src/engine/prefix_delegation/mod.rs): the address of an interface
--   that tracks a delegated prefix, on u128 as numbers, with the parser and the printer of Net.
--   Address takes the address apart again, by the lemmas of Base/Bits.antt on masks and shifts.
--
-- Metrics (dayshield-core/src/metrics/buffer.rs): the bounded buffer of snapshots.
--
-- Notify (dayshield-core/src/notify/rate_limit.rs): the rate limiter of mails.
--
-- Backups (dayshield-core/src/backup/scheduler.rs): which old backups are deleted.
--
-- Base holds what they share: Boolean tests and lists over native numbers, texts as lists of code
-- points with the methods of str in use (Base/Text.antt and its children), the result type with its
-- chain, and operations on a state with triples (Base/Operations.antt).
--
-- What is not part of the code is an argument of the definitions: the answers of external programs
-- and of the file system, the readings of clocks, fresh ids and random bytes, the crates for times
-- and for tokens, the hash behind the ids of system rules. The laws that a theorem needs of them are its hypotheses, and the Tests modules
-- apply each theorem to concrete ones. A file that is written through a temporary file and a rename
-- is replaced or left as it is. Machine integers keep their bounds where the code can reach them
-- (saturating additions of u32 and u64, the clamp of the seconds to i64); subtractions that the code
-- saturates are those of the natural numbers. All loops are over lists, so there is no fuel but in
-- the comparison of versions, which is bounded by the longer one, and in the printing of numbers,
-- where it is above the number of digits. A panic that the code can run into
-- is a value of its own (Auth, CaptivePortal).
--
-- Not modelled: the HTTP handlers and pages apart from those named, the engines that write the
-- configuration of daemons and call them, the collectors of metrics and logs, the heuristics of the
-- AI parts, and the download of updates. They are mostly input and output.
pub mod Auth
pub mod Backups
pub mod Base
pub mod CaptivePortal
pub mod ConfigStore
pub mod Firewall
pub mod History
pub mod Interfaces
pub mod Metrics
pub mod Net
pub mod Notify
pub mod PrefixDelegation
pub mod Rootfs
pub mod Schedules
pub mod Version
