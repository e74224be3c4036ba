-- ===== src/Rootfs.antt =====
-- The A/B rootfs updater: dayshield-core/src/rootfs_update.rs.
pub mod Slots
pub mod Update
