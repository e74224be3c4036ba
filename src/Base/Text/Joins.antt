-- ===== src/Base/Text/Joins.antt =====
-- Texts joined from parts with a separator, as the inverse of splitting them.
use dayshield_core.Base.Tests.{◌==◌, ==_iff, Bool-cases}
use dayshield_core.Base.Lists.{all, any, any-append}
use dayshield_core.Base.Text.{Text, split, cons_head}
use dayshield_core.Base.Text.Splits.{split-all}
use Prim.Native.Nat.{ℕ}
use mathlib.Core.Path.{◌≡◌, refl, sym, ap, ap₂, ◌∙◌}
use mathlib.Core.Logic.{inl, inr}
use mathlib.Core.Bool.{Bool, true, false, not}
use mathlib.Core.List.{List, [], ◌∷◌, ◌++◌}
use native.Mathlib.Omega.{arith}

-- the first part and the others, each after a separator
abbrev pub join : ℕ → Text → List Text → Text
join sep p [] = p
join sep p (q ∷ qs) = p ++ sep ∷ join sep q qs

abbrev pub lacks : ℕ → Text → Bool
lacks sep s = all (λ c. not (c == sep)) s

split-append :
    (sep : ℕ) (s t : Text) → lacks sep s ≡ true → split sep (s ++ sep ∷ t) ≡ s ∷ split sep t
unfolding split
split-append sep [] t h = ground arith
split-append sep (c ∷ s) t h = ground (arith, split-append sep s t)

-- parts without the separator are what a split of the joined text gives
pub split-join :
    (sep : ℕ) (p : Text) (ps : List Text)
    → lacks sep p ≡ true
    → all (lacks sep) ps ≡ true
    → split sep (join sep p ps) ≡ p ∷ ps
split-join sep p [] h k = split-all sep p h
split-join sep p (q ∷ qs) h k =
    rw (split-append sep p (join sep q qs) h)
      (ap (λ r. p ∷ r) (split-join sep q qs (ground arith) (ground arith)))

join-cons : (sep c : ℕ) (p : Text) (ps : List Text) → join sep (c ∷ p) ps ≡ c ∷ join sep p ps
join-cons sep c p [] = refl
join-cons sep c p (q ∷ qs) = refl

-- a text is its parts joined again
pub join-split :
    (sep : ℕ) (s : Text)
    → (p : Text) × (ps : List Text) × (split sep s ≡ p ∷ ps) × (s ≡ join sep p ps)
unfolding split
join-split sep [] = ([], [], refl, refl)
join-split sep (c ∷ s) =
    let (p, ps, e, j) = join-split sep s in
    elim (Bool-cases (c == sep)) [
      | inl h ↦
          let same : c ≡ sep = (==_iff c sep).0 h in
          ([], p ∷ ps, rw h (ap (λ r. [] ∷ r) e), ap₂ (λ x t. x ∷ t) same j)
      | inr h ↦
          (c ∷ p, ps, rw h (ap (cons_head c) e), ap (λ t. c ∷ t) j ∙ sym (join-cons sep c p ps))
    ]

pub any-join :
    (sep : ℕ) (p q : Text) (qs : List Text) → any (λ c. c == sep) (join sep p (q ∷ qs)) ≡ true
any-join sep p q qs = rw (any-append (λ c. c == sep) p (sep ∷ join sep q qs)) (ground arith)

any-lacks : (x : ℕ) (s : Text) → lacks x s ≡ true → any (λ c. c == x) s ≡ false
any-lacks x [] h = refl
any-lacks x (c ∷ s) h = ground (arith, any-lacks x s)

-- a character that is no separator and in no part is not in the joined text
pub any-join-false :
    (x sep : ℕ) (p : Text) (ps : List Text)
    → (sep == x) ≡ false
    → lacks x p ≡ true
    → all (lacks x) ps ≡ true
    → any (λ c. c == x) (join sep p ps) ≡ false
any-join-false x sep p [] n h k = any-lacks x p h
any-join-false x sep p (q ∷ qs) n h k =
    rw (any-append (λ c. c == x) p (sep ∷ join sep q qs))
      (ground (arith, any-lacks x p h, any-join-false x sep q qs n (ground arith) (ground arith)))

-- a separator at the end leaves an empty last part
pub split-trailing : (sep : ℕ) (s : Text) → split sep (s ++ sep ∷ []) ≡ split sep s ++ [] ∷ []
unfolding split
split-trailing sep [] = ground arith
split-trailing sep (c ∷ s) =
    let (p, ps, e, j) = join-split sep s in
    rw (split-trailing sep s, split)
      (rw (e, split) (elim (Bool-cases (c == sep)) [ inl h ↦ rw h refl | inr h ↦ rw h refl ]))
