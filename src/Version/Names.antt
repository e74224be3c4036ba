-- ===== src/Version/Names.antt =====
-- Which versions the names of release assets carry: dayshield-core/src/update.rs.
use dayshield_core.Base.{
  true, Option, none, some, ◌++◌, ◌≡◌, refl, ap, ◌∙◌, ◌↔◌, ◌⊎◌, inl, inr, arith, Bool-cases,
  Option-cases,
}
use dayshield_core.Base.Text.{Text, codes, text_eq, text_eq_iff, strip_prefix, strip_suffix}
use dayshield_core.Base.Text.Affixes.{
  strip_prefix-append, strip_prefix-some, strip_suffix-append, strip_suffix-some,
}
use dayshield_core.Version.{
  is_artifact_version, if_version, strip_extension, artifact_version_from_name,
}
use mathlib.Core.List.{reverse-append}

-- The name of a component's asset.
abbrev pub asset_name : Text → Text → Text → Text
asset_name component version extension = (component ++ codes "-v") ++ (version ++ extension)

-- The extensions that a component's assets may have.
abbrev pub IsExtension : Text → Text → Type 0
IsExtension component extension =
    (extension ≡ codes ".tar.zst")
    ⊎ ((component ≡ codes "rootfs") × (extension ≡ codes ".squashfs"))

no_archive :
    (version : Text) → strip_suffix (codes ".tar.zst") (version ++ codes ".squashfs") ≡ none
unfolding strip_suffix
no_archive version = rw (reverse-append version (codes ".squashfs"), strip_suffix)

strip_extension_complete :
    (component version extension : Text)
    → IsExtension component extension
    → strip_extension component (version ++ extension) ≡ some version
strip_extension_complete component version extension (inl e) =
    rw e (rw (strip_suffix-append (codes ".tar.zst") version, strip_extension))
strip_extension_complete component version extension (inr (c, e)) =
    rw (c, e)
      (rw (no_archive version, strip_extension) (strip_suffix-append (codes ".squashfs") version))

strip_extension_sound :
    (component stripped : Text) {v : Text}
    → strip_extension component stripped ≡ some v
    → (e : Text) × IsExtension component e × (stripped ≡ v ++ e)
strip_extension_sound component stripped {v} h =
    elim (Option-cases (strip_suffix (codes ".tar.zst") stripped)) [
      | inr (w, e) ↦
          let same : w ≡ v = ground arith in
          (
            codes ".tar.zst",
            inl refl,
            strip_suffix-some (codes ".tar.zst") stripped (e ∙ ap some same),
          )
      | inl e ↦ elim (Bool-cases (text_eq component (codes "rootfs"))) [
        | inl r ↦ (
          codes ".squashfs",
          inr ((text_eq_iff component (codes "rootfs")).0 r, refl),
          strip_suffix-some (codes ".squashfs") stripped (ground arith),
        )
        | inr r ↦ absurd (ground arith)
      ]
    ]

if_version-some :
    (o : Option Text) (v : Text)
    → if_version o ≡ some v
    → (o ≡ some v) × (is_artifact_version v ≡ true)
if_version-some none v h = absurd (ground arith)
if_version-some (some w) v h = elim (Bool-cases (is_artifact_version w)) [
  | inl valid ↦ (let same : w ≡ v = ground arith in (ap some same, rw same at valid))
  | inr invalid ↦ absurd (ground arith)
]

-- The name of an asset carries a version exactly when it is the component, `-v`, that version in its
-- dotted form, and `.tar.zst`, or `.squashfs` for the rootfs.
pub artifact_version_from_name_iff :
    (component name version : Text)
    → (artifact_version_from_name component name ≡ some version) ↔ (
        (is_artifact_version version ≡ true)
        × ((e : Text) × IsExtension component e × (name ≡ asset_name component version e)))
unfolding artifact_version_from_name
artifact_version_from_name_iff component name version = (sound, complete)
  where
    sound :
        artifact_version_from_name component name ≡ some version
        → (is_artifact_version version ≡ true)
          × ((e : Text) × IsExtension component e × (name ≡ asset_name component version e))
    sound h = elim (Option-cases (strip_prefix (component ++ codes "-v") name)) [
      | inl n ↦ absurd (ground arith)
      | inr (stripped, p) ↦
          let checked =
            if_version-some (strip_extension component stripped) version
              (rw (p, artifact_version_from_name) at h) in
          let found = strip_extension_sound component stripped checked.0 in
          (
            checked.1,
            (
              found.0,
              found.1,
              strip_prefix-some (component ++ codes "-v") name p
                  ∙ ap (λ t. (component ++ codes "-v") ++ t) found.2,
            ),
          )
    ]

    complete :
        (is_artifact_version version ≡ true)
          × ((e : Text) × IsExtension component e × (name ≡ asset_name component version e))
        → artifact_version_from_name component name ≡ some version
    complete (valid, (e, ext, named)) = rw named (
        rw
          (strip_prefix-append (component ++ codes "-v") (version ++ e), artifact_version_from_name)
          (rw (strip_extension_complete component version e ext) (rw valid)))
