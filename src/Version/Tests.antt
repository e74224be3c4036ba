-- ===== src/Version/Tests.antt =====
-- Runs and instances of the version functions at concrete inputs.
use dayshield_core.Base.{true, false, some, [], ◌∷◌, ◌≡◌, refl, ◌↔◌}
use dayshield_core.Base.Text.{Text, codes}
use dayshield_core.Version.{
  is_artifact_version, artifact_version_segments, is_remote_version_newer,
  artifact_version_from_name,
}
use dayshield_core.Version.Newer.{
  IsNewer, is_remote_version_newer_iff, is_remote_version_newer_order,
}
use dayshield_core.Version.Names.{asset_name, IsExtension, artifact_version_from_name_iff}

segments_of : artifact_version_segments (codes "1.10") ≡ some (1 ∷ 10 ∷ [])
unfolding artifact_version_segments is_artifact_version
segments_of = refl

older_segments : artifact_version_segments (codes "1.9.2") ≡ some (1 ∷ 9 ∷ 2 ∷ [])
unfolding artifact_version_segments is_artifact_version
older_segments = refl

oldest_segments : artifact_version_segments (codes "1.9") ≡ some (1 ∷ 9 ∷ [])
unfolding artifact_version_segments is_artifact_version
oldest_segments = refl

is_remote_version_newer_iff_example :
    (is_remote_version_newer (codes "1.9.2") (codes "1.10") ≡ true)
    ↔ IsNewer (1 ∷ 9 ∷ 2 ∷ []) (1 ∷ 10 ∷ [])
is_remote_version_newer_iff_example =
    is_remote_version_newer_iff (codes "1.9.2") (codes "1.10") (1 ∷ 9 ∷ 2 ∷ []) (1 ∷ 10 ∷ [])
      older_segments segments_of

first_step : is_remote_version_newer (codes "1.9") (codes "1.9.2") ≡ true
unfolding is_remote_version_newer artifact_version_segments is_artifact_version
first_step = refl

second_step : is_remote_version_newer (codes "1.9.2") (codes "1.10") ≡ true
unfolding is_remote_version_newer artifact_version_segments is_artifact_version
second_step = refl

is_remote_version_newer_order_example :
    (is_remote_version_newer (codes "1.9") (codes "1.10") ≡ true)
    × (is_remote_version_newer (codes "1.10") (codes "1.9") ≡ false)
    × (is_remote_version_newer (codes "1.9") (codes "1.9") ≡ false)
is_remote_version_newer_order_example =
    is_remote_version_newer_order (codes "1.9") (codes "1.9.2") (codes "1.10") oldest_segments
      older_segments segments_of first_step second_step

artifact_version_from_name_iff_example :
    (artifact_version_from_name (codes "rootfs") (codes "rootfs-v1.10.squashfs")
      ≡ some (codes "1.10"))
    ↔ ((is_artifact_version (codes "1.10") ≡ true)
        × ((e : Text) × IsExtension (codes "rootfs") e
            × (codes "rootfs-v1.10.squashfs" ≡ asset_name (codes "rootfs") (codes "1.10") e)))
artifact_version_from_name_iff_example =
    artifact_version_from_name_iff (codes "rootfs") (codes "rootfs-v1.10.squashfs") (codes "1.10")
