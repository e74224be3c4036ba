-- ===== src/Version/Newer.antt =====
-- The order of artifact versions: dayshield-core/src/update.rs.
use dayshield_core.Base.{
  ℕ, zero, suc, ◌+◌, ◌<◌, ◌≤◌, max, Bool, true, false, some, List, [], ◌∷◌, ◌≡◌, refl, ◌↔◌, ◌⊎◌,
  inl, inr, length, ltb, leb, leb→le, ◌==◌, arith, Bool-cases,
}
use dayshield_core.Base.Text.{Text}
use dayshield_core.Version.{
  segment, newer_from, newer_segments, artifact_version_segments, is_remote_version_newer,
}

-- The remote version is greater at the first place where the two differ; missing segments are 0.
pub record IsNewer (current remote : List ℕ) : Type 0 where
  pub place : ℕ
  pub same_before : (j : ℕ) → j < place → segment current j ≡ segment remote j
  pub greater : segment current place < segment remote place

segment-beyond : (vs : List ℕ) (i : ℕ) → length vs ≤ i → segment vs i ≡ 0
segment-beyond [] i h = refl
segment-beyond (v ∷ vs) zero h = absurd (omega arith)
segment-beyond (v ∷ vs) (suc i) h = segment-beyond vs i (omega arith)

lt_cases : (j i : ℕ) → j < suc i → (j ≡ i) ⊎ (j < i)
lt_cases j i h = grind arith

newer_from_sound :
    (c r : List ℕ) (idx left : ℕ)
    → ((j : ℕ) → j < idx → segment c j ≡ segment r j)
    → newer_from c r idx left ≡ true
    → IsNewer c r
unfolding newer_from
newer_from_sound c r idx zero same h = ground arith
newer_from_sound c r idx (suc left) same h = elim (Bool-cases (segment r idx == segment c idx)) [
  | inl e ↦
      newer_from_sound c r (suc idx) left
        (λ j lt. elim (lt_cases j idx lt) [
          | inl at ↦ rw at (ground arith)
          | inr before ↦ same j before
        ])
        (ground arith)
  | inr ne ↦ record { place = idx; same_before = same; greater = ground arith }
]

newer_from_complete :
    (c r : List ℕ) (idx left : ℕ) (n : IsNewer c r)
    → idx ≤ n.place
    → n.place < idx + left
    → newer_from c r idx left ≡ true
unfolding newer_from
newer_from_complete c r idx zero n h k = absurd (omega arith)
newer_from_complete c r idx (suc left) n h k = elim (lt_cases idx n.place (omega arith)) [
  | inl at ↦ (let g : segment c idx < segment r idx = rw at n.greater in ground arith)
  | inr before ↦ ground (
    arith,
    n.same_before idx before,
    newer_from_complete c r (suc idx) left n before (omega arith),
  )
]

place-lt-max : (c r : List ℕ) (n : IsNewer c r) → n.place < 0 + max (length c) (length r)
place-lt-max c r n = elim (Bool-cases (leb (length r) n.place)) [
  | inl beyond ↦
      absurd (omega (arith, n.greater, segment-beyond r n.place (leb→le (length r) n.place beyond)))
  | inr inside ↦ ground arith
]

newer_segments_iff : (c r : List ℕ) → (newer_segments c r ≡ true) ↔ IsNewer c r
unfolding newer_segments
newer_segments_iff c r = (
  newer_from_sound c r 0 (max (length c) (length r)) (λ j h. elim h [ ]),
  λ n. newer_from_complete c r 0 (max (length c) (length r)) n (omega arith) (place-lt-max c r n),
)

segments_irrefl : (c : List ℕ) → ¬ IsNewer c c
segments_irrefl c n = absurd (omega (arith, n.greater))

-- Of two places where a version is newer, the first decides.
IsNewer-trans : (c d e : List ℕ) → IsNewer c d → IsNewer d e → IsNewer c e
IsNewer-trans c d e m n = elim (Bool-cases (ltb n.place m.place)) [
  | inl first ↦ record {
    place = n.place;
    same_before = λ j lt. ground (arith, m.same_before j, n.same_before j);
    greater = ground (arith, n.greater, m.same_before n.place);
  }
  | inr later ↦ record {
    place = m.place;
    same_before = λ j lt. ground (arith, m.same_before j, n.same_before j);
    greater = elim (lt_cases m.place n.place (ground arith)) [
      | inl at ↦
          (let g : segment d m.place < segment e m.place = rw at n.greater in
            omega (arith, m.greater))
      | inr before ↦ omega (arith, m.greater, n.same_before m.place before)
    ];
  }
]

never_true : {x : Bool} → ¬ (x ≡ true) → x ≡ false
never_true {x = true} h = absurd (h refl)
never_true {x = false} h = refl

module _ (current remote : Text) (c r : List ℕ)
    (has_current : artifact_version_segments current ≡ some c)
    (has_remote : artifact_version_segments remote ≡ some r) where
  -- Between two texts that are versions, the remote one counts as newer exactly when its number is
  -- greater at the first segment where they differ, with 0 for a missing segment.
  pub is_remote_version_newer_iff : (is_remote_version_newer current remote ≡ true) ↔ IsNewer c r
  unfolding is_remote_version_newer
  is_remote_version_newer_iff =
      rw (has_current, is_remote_version_newer)
        (rw (has_remote, is_remote_version_newer) (newer_segments_iff c r))

-- "Newer" never runs in a circle over versions: one that is newer than a second, which is newer than
-- a third, is newer than the third, and the third is not newer than it, nor any than itself.
pub is_remote_version_newer_order :
    (t u v : Text) {c d e : List ℕ}
    → artifact_version_segments t ≡ some c
    → artifact_version_segments u ≡ some d
    → artifact_version_segments v ≡ some e
    → is_remote_version_newer t u ≡ true
    → is_remote_version_newer u v ≡ true
    → (is_remote_version_newer t v ≡ true)
      × (is_remote_version_newer v t ≡ false)
      × (is_remote_version_newer t t ≡ false)
is_remote_version_newer_order t u v {c} {d} {e} ht hu hv m n =
    let far =
      IsNewer-trans c d e ((is_remote_version_newer_iff t u c d ht hu).0 m)
        ((is_remote_version_newer_iff u v d e hu hv).0 n) in
    (
      (is_remote_version_newer_iff t v c e ht hv).1 far,
      never_true (λ back.
          segments_irrefl c
            (IsNewer-trans c e c far ((is_remote_version_newer_iff v t e c hv ht).0 back))),
      never_true (λ self. segments_irrefl c ((is_remote_version_newer_iff t t c c ht ht).0 self)),
    )
