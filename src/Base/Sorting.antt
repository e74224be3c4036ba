-- ===== src/Base/Sorting.antt =====
-- A stable sort by a test, `slice::sort_by_key`, and what it does to a list.
use dayshield_core.Base.Tests.{if◌then◌else◌, Bool-cases}
use dayshield_core.Base.Lists.{All, filter, length}
use Prim.Native.Nat.{suc}
use mathlib.Core.Path.{◌≡◌, refl, ap, ◌∙◌}
use mathlib.Core.Logic.{inl, inr}
use mathlib.Core.Bool.{Bool, true, false}
use mathlib.Core.List.{List, [], ◌∷◌, ◌++◌, Perm}
use mathlib.Core.List.Perm
use native.Mathlib.Omega.{arith}

module _ {ℓ} {A : Type ℓ} (before : A → A → Bool) where
  -- in front of the first that it may come before, which keeps the order of equals
  abbrev pub insert_by : A → List A → List A
  insert_by x [] = x ∷ []
  insert_by x (y ∷ ys) = let rest = insert_by x ys in if before x y then x ∷ y ∷ ys else y ∷ rest

  abbrev pub sort_by : List A → List A
  sort_by [] = []
  sort_by (x ∷ xs) = insert_by x (sort_by xs)

  abbrev pub IsOrdered : List A → Type 0
  IsOrdered [] = Unit
  IsOrdered (x ∷ xs) = All (λ y. before x y ≡ true) xs × IsOrdered xs

  insert_by-Perm : (x : A) (ys : List A) → Perm (insert_by x ys) (x ∷ ys)
  insert_by-Perm x [] = Perm.refl (x ∷ [])
  insert_by-Perm x (y ∷ ys) = elim (Bool-cases (before x y)) [
    | inl e ↦ rw e (Perm.refl (x ∷ y ∷ ys))
    | inr e ↦ rw e (Perm.trans (Perm.cons y (insert_by-Perm x ys)) (Perm.swap x y ys))
  ]

  pub sort_by-Perm : (xs : List A) → Perm (sort_by xs) xs
  sort_by-Perm [] = Perm.nil
  sort_by-Perm (x ∷ xs) = Perm.trans (insert_by-Perm x (sort_by xs)) (Perm.cons x (sort_by-Perm xs))

  All-insert : (P : A → Type 0) (x : A) (ys : List A) → P x → All P ys → All P (insert_by x ys)
  All-insert P x [] h a = (h, tt)
  All-insert P x (y ∷ ys) h a = elim (Bool-cases (before x y)) [
    | inl e ↦ rw e (h, a)
    | inr e ↦ rw e (a.0, All-insert P x ys h a.1)
  ]

  pub All-sort_by : (P : A → Type 0) (xs : List A) → All P xs → All P (sort_by xs)
  All-sort_by P [] a = tt
  All-sort_by P (x ∷ xs) a = All-insert P x (sort_by xs) a.0 (All-sort_by P xs a.1)

  -- an element that comes before all others, and one that comes before none
  pub insert_by-first :
      (x : A) (ys : List A) → All (λ y. before x y ≡ true) ys → insert_by x ys ≡ x ∷ ys
  insert_by-first x [] a = refl
  insert_by-first x (y ∷ ys) a = rw a.0 refl

  pub insert_by-last :
      (x : A) (ys : List A) → All (λ y. before x y ≡ false) ys → insert_by x ys ≡ ys ++ x ∷ []
  insert_by-last x [] a = refl
  insert_by-last x (y ∷ ys) a = rw a.0 (ap (λ l. y ∷ l) (insert_by-last x ys a.1))

  length-insert_by : (x : A) (ys : List A) → length (insert_by x ys) ≡ suc (length ys)
  length-insert_by x [] = refl
  length-insert_by x (y ∷ ys) = elim (Bool-cases (before x y)) [
    | inl e ↦ rw e refl
    | inr e ↦ rw e (ap suc (length-insert_by x ys))
  ]

  pub length-sort_by : (xs : List A) → length (sort_by xs) ≡ length xs
  length-sort_by [] = refl
  length-sort_by (x ∷ xs) = length-insert_by x (sort_by xs) ∙ ap suc (length-sort_by xs)

  module _ (total : (a b : A) → before a b ≡ false → before b a ≡ true)
      (trans : (a b c : A) → before a b ≡ true → before b c ≡ true → before a c ≡ true) where
    All-trans :
        (x y : A) (ys : List A)
        → before x y ≡ true
        → All (λ z. before y z ≡ true) ys
        → All (λ z. before x z ≡ true) ys
    All-trans x y [] h a = tt
    All-trans x y (z ∷ zs) h a = (trans x y z h a.0, All-trans x y zs h a.1)

    All-insert_by :
        (z x : A) (ys : List A)
        → before z x ≡ true
        → All (λ y. before z y ≡ true) ys
        → All (λ y. before z y ≡ true) (insert_by x ys)
    All-insert_by z x [] h a = (h, tt)
    All-insert_by z x (y ∷ ys) h a = elim (Bool-cases (before x y)) [
      | inl e ↦ rw e (h, a)
      | inr e ↦ rw e (a.0, All-insert_by z x ys h a.1)
    ]

    insert_by-IsOrdered : (x : A) (ys : List A) → IsOrdered ys → IsOrdered (insert_by x ys)
    insert_by-IsOrdered x [] s = (tt, tt)
    insert_by-IsOrdered x (y ∷ ys) s = elim (Bool-cases (before x y)) [
      | inl e ↦ rw e ((e, All-trans x y ys e s.0), s)
      | inr e ↦ rw e (All-insert_by y x ys (total x y e) s.0, insert_by-IsOrdered x ys s.1)
    ]

    pub sort_by-IsOrdered : (xs : List A) → IsOrdered (sort_by xs)
    sort_by-IsOrdered [] = tt
    sort_by-IsOrdered (x ∷ xs) = insert_by-IsOrdered x (sort_by xs) (sort_by-IsOrdered xs)

  -- a class whose members may all come before each other stays in its order
  module _ (same : A → Bool)
      (equal : (a b : A) → same a ≡ true → same b ≡ true → before a b ≡ true) where
    filter-insert_by : (x : A) (ys : List A) → filter same (insert_by x ys) ≡ filter same (x ∷ ys)
    filter-insert_by x [] = refl
    filter-insert_by x (y ∷ ys) = elim (Bool-cases (before x y)) [
      | inl e ↦ rw e refl
      | inr e ↦ rw e (ground (arith, filter-insert_by x ys, equal x y))
    ]

    pub filter-sort_by : (xs : List A) → filter same (sort_by xs) ≡ filter same xs
    filter-sort_by [] = refl
    filter-sort_by (x ∷ xs) =
        filter-insert_by x (sort_by xs) ∙ ap (λ r. if same x then x ∷ r else r) (filter-sort_by xs)
