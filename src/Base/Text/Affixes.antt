-- ===== src/Base/Text/Affixes.antt =====
-- Laws of prefixes and suffixes of texts.
use mathlib.Core.Path.{◌≡◌, refl, sym, ap, ap₂, ◌∙◌}
use mathlib.Core.Logic.{inl, inr}
use mathlib.Core.Option.{some}
use mathlib.Core.List.{[], ◌∷◌, ◌++◌, reverse, reverse-append, reverse-reverse}
use native.Mathlib.Omega.{arith}
use dayshield_core.Base.Tests.{Option-cases}
use dayshield_core.Base.Text.{Text, strip_prefix, strip_suffix}

pub strip_prefix-append : (p s : Text) → strip_prefix p (p ++ s) ≡ some s
unfolding strip_prefix
strip_prefix-append [] s = refl
strip_prefix-append (c ∷ p) s = ground (arith, strip_prefix-append p s)

pub strip_prefix-some : (p s : Text) {r : Text} → strip_prefix p s ≡ some r → s ≡ p ++ r
unfolding strip_prefix
strip_prefix-some [] s h = ground arith
strip_prefix-some (c ∷ p) [] h = ground arith
strip_prefix-some (c ∷ p) (d ∷ s) {r} h = ground (arith, strip_prefix-some p s {r = r})

pub strip_suffix-append : (p s : Text) → strip_suffix p (s ++ p) ≡ some s
unfolding strip_suffix
strip_suffix-append p s =
    rw (reverse-append s p, strip_suffix)
      (rw (strip_prefix-append (reverse p) (reverse s), strip_suffix) (ap some (reverse-reverse s)))

pub strip_suffix-some : (p s : Text) {r : Text} → strip_suffix p s ≡ some r → s ≡ r ++ p
unfolding strip_suffix
strip_suffix-some p s {r} h = elim (Option-cases (strip_prefix (reverse p) (reverse s))) [
  | inl e ↦ ground arith
  | inr (q, e) ↦
      let whole = strip_prefix-some (reverse p) (reverse s) e in
      let front : reverse q ≡ r = ground arith in
      sym (reverse-reverse s)
      ∙ (ap reverse whole
          ∙ (reverse-append (reverse p) q ∙ ap₂ (λ x y. x ++ y) front (reverse-reverse p)))
]
