-- ===== src/Base/Text/Sorting.antt =====
-- Texts in the order of their bytes, which is that of their code points, and lists sorted by it.
use dayshield_core.Base.Tests.{ltb, ◌==◌, if◌then◌else◌, Bool-cases}
use dayshield_core.Base.Lists.{All, take, drop}
use dayshield_core.Base.Text.{Text}
use Prim.Native.Nat.{ℕ, suc, zero}
use mathlib.Core.Path.{◌≡◌, refl}
use mathlib.Core.Logic.{inl, inr}
use mathlib.Core.Bool.{Bool, true, false}
use mathlib.Core.List.{List, [], ◌∷◌}
use native.Mathlib.Omega.{arith}

abbrev pub text_leb : Text → Text → Bool
text_leb [] t = true
text_leb (c ∷ s) [] = false
text_leb (c ∷ s) (d ∷ t) =
    let rest = text_leb s t in if ltb c d then true else (if c == d then rest else false)

abbrev pub insert : Text → List Text → List Text
insert x [] = x ∷ []
insert x (y ∷ ys) = let rest = insert x ys in if text_leb x y then x ∷ y ∷ ys else y ∷ rest

abbrev pub sort : List Text → List Text
sort [] = []
sort (x ∷ xs) = insert x (sort xs)

abbrev pub Before : Text → Text → Type 0
Before x y = text_leb x y ≡ true

abbrev pub IsSorted : List Text → Type 0
IsSorted [] = Unit
IsSorted (x ∷ xs) = All (Before x) xs × IsSorted xs

text_leb_total : (s t : Text) → text_leb s t ≡ false → text_leb t s ≡ true
text_leb_total [] t h = absurd (ground arith)
text_leb_total (c ∷ s) [] h = refl
text_leb_total (c ∷ s) (d ∷ t) h = ground (arith, text_leb_total s t)

text_leb_trans : (r s t : Text) → Before r s → Before s t → Before r t
text_leb_trans [] s t h k = refl
text_leb_trans (c ∷ r) [] t h k = absurd (ground arith)
text_leb_trans (c ∷ r) (d ∷ s) [] h k = absurd (ground arith)
text_leb_trans (c ∷ r) (d ∷ s) (e ∷ t) h k = ground (arith, text_leb_trans r s t)

All-trans : (x y : Text) (ys : List Text) → Before x y → All (Before y) ys → All (Before x) ys
All-trans x y [] h a = tt
All-trans x y (z ∷ zs) h a = (text_leb_trans x y z h a.0, All-trans x y zs h a.1)

All-insert :
    (z x : Text) (ys : List Text) → Before z x → All (Before z) ys → All (Before z) (insert x ys)
All-insert z x [] h a = (h, tt)
All-insert z x (y ∷ ys) h a = elim (Bool-cases (text_leb x y)) [
  | inl e ↦ rw e (h, a)
  | inr e ↦ rw e (a.0, All-insert z x ys h a.1)
]

insert-IsSorted : (x : Text) (ys : List Text) → IsSorted ys → IsSorted (insert x ys)
insert-IsSorted x [] s = (tt, tt)
insert-IsSorted x (y ∷ ys) s = elim (Bool-cases (text_leb x y)) [
  | inl e ↦ rw e ((e, All-trans x y ys e s.0), s)
  | inr e ↦ rw e (All-insert y x ys (text_leb_total x y e) s.0, insert-IsSorted x ys s.1)
]

pub sort-IsSorted : (xs : List Text) → IsSorted (sort xs)
sort-IsSorted [] = tt
sort-IsSorted (x ∷ xs) = insert-IsSorted x (sort xs) (sort-IsSorted xs)

All-drop : (P : Text → Type 0) (n : ℕ) (xs : List Text) → All P xs → All P (drop n xs)
All-drop P zero xs a = a
All-drop P (suc n) [] a = tt
All-drop P (suc n) (x ∷ xs) a = All-drop P n xs a.1

-- the first texts of a sorted list come before the others
pub take-Before :
    (n : ℕ) (xs : List Text) → IsSorted xs → All (λ x. All (Before x) (drop n xs)) (take n xs)
take-Before zero xs s = tt
take-Before (suc n) [] s = tt
take-Before (suc n) (x ∷ xs) s = (All-drop (Before x) n xs s.0, take-Before n xs s.1)
