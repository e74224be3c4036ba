-- ===== src/Base/Text/Splits.antt =====
-- Splitting and trimming texts of known parts.
use dayshield_core.Base.Tests.{◌==◌, Bool-cases, Option-cases}
use dayshield_core.Base.Lists.{all}
use dayshield_core.Base.Text.{
  Text, is_empty, is_whitespace, is_ascii_whitespace, trim_start, trim, split, non_empty,
  split_where, split_ascii_whitespace, split_once,
}
use Prim.Native.Nat.{ℕ}
use mathlib.Core.Path.{◌≡◌, refl, ap, ◌∙◌}
use mathlib.Core.Logic.{inl, inr}
use mathlib.Core.Option.{some}
use mathlib.Core.Bool.{Bool, true, false, not, ◌&&◌}
use mathlib.Core.List.{List, [], ◌∷◌, ◌++◌, reverse, reverse-append, reverse-reverse}
use native.Mathlib.Omega.{arith}

pub all-append : (p : ℕ → Bool) (s t : Text) → all p (s ++ t) ≡ (all p s && all p t)
all-append p [] t = refl
all-append p (c ∷ s) t = ground (arith, all-append p s t)

all-reverse : (p : ℕ → Bool) (s : Text) → all p s ≡ true → all p (reverse s) ≡ true
all-reverse p [] h = refl
all-reverse p (c ∷ s) h =
    ap (all p) (reverse-append (c ∷ []) s)
    ∙ rw (all-append p (reverse s) (c ∷ [])) (ground (arith, all-reverse p s (ground arith)))

trim_start-all : (s : Text) → all (λ c. not (is_whitespace c)) s ≡ true → trim_start s ≡ s
unfolding trim_start
trim_start-all [] h = refl
trim_start-all (c ∷ s) h = ground arith

-- a text without whitespace is trimmed
pub trim-all : (s : Text) → all (λ c. not (is_whitespace c)) s ≡ true → trim s ≡ s
unfolding trim
trim-all s h = rw (trim_start-all s h) (
    rw (trim_start-all (reverse s) (all-reverse (λ c. not (is_whitespace c)) s h))
      (reverse-reverse s))

-- a text without the separator is its only part
pub split-all : (sep : ℕ) (s : Text) → all (λ c. not (c == sep)) s ≡ true → split sep s ≡ s ∷ []
unfolding split
split-all sep [] h = refl
split-all sep (c ∷ s) h = ground (arith, split-all sep s)

split_where-all :
    (p : ℕ → Bool) (s : Text) → all (λ c. not (p c)) s ≡ true → split_where p s ≡ s ∷ []
unfolding split_where
split_where-all p [] h = refl
split_where-all p (c ∷ s) h = ground (arith, split_where-all p s)

split_where-append :
    (p : ℕ → Bool) (s : Text) (c : ℕ) (t : Text)
    → all (λ x. not (p x)) s ≡ true
    → p c ≡ true
    → split_where p (s ++ c ∷ t) ≡ s ∷ split_where p t
unfolding split_where
split_where-append p [] c t h k = ground arith
split_where-append p (x ∷ s) c t h k = ground (arith, split_where-append p s c t)

-- a word: not empty and without ASCII whitespace
pub record IsWord (s : Text) : Type 0 where
  pub filled : is_empty s ≡ false
  pub solid : all (λ c. not (is_ascii_whitespace c)) s ≡ true

non_empty-cons :
    (s : Text) (ss : List Text) → is_empty s ≡ false → non_empty (s ∷ ss) ≡ s ∷ non_empty ss
unfolding non_empty
non_empty-cons [] ss h = absurd (ground arith)
non_empty-cons (c ∷ s) ss h = refl

pub split_ascii_whitespace-two :
    (s t : Text) → IsWord s → IsWord t → split_ascii_whitespace (s ++ b' ' ∷ t) ≡ s ∷ t ∷ []
unfolding split_ascii_whitespace is_ascii_whitespace
split_ascii_whitespace-two s t a b =
    rw (split_where-append is_ascii_whitespace s b' ' t a.solid refl) (
      rw (split_where-all is_ascii_whitespace t b.solid) (
        rw (non_empty-cons s (t ∷ []) a.filled)
          (rw (non_empty-cons t [] b.filled, non_empty) refl)))

-- the text around the first separator
pub split_once-append : (sep : ℕ) (s l r : Text) → split_once sep s ≡ some (l, r) → s ≡ l ++ sep ∷ r
unfolding split_once
split_once-append sep [] l r h = absurd (ground arith)
split_once-append sep (c ∷ s) l r h = elim (Option-cases (split_once sep s)) [
  | inl e ↦ ground (arith, rw e at h)
  | inr ((l', r'), e) ↦ elim (Bool-cases (c == sep)) [
    | inl f ↦ ground (arith, rw (e, f) at h)
    | inr f ↦ ground (arith, split_once-append sep s l' r' e, rw (e, f) at h)
  ]
]
