-- ===== src/Base/Members.antt =====
-- Members of lists, by recursion, so that they are taken apart freely.
use dayshield_core.Base.Tests.{Bool-cases}
use dayshield_core.Base.Lists.{All, filter}
use dayshield_core.Base.Sorting.{insert_by, sort_by, IsOrdered}
use mathlib.Core.Path.{◌≡◌, sym, ap, ◌∙◌, subst}
use mathlib.Core.Logic.{◌⊎◌, inl, inr}
use mathlib.Core.Bool.{Bool, true}
use mathlib.Core.List.{List, [], ◌∷◌, ◌++◌, map}

module _ {A : Type 0} where
  abbrev pub IsIn : A → List A → Type 0
  IsIn x [] = ⊥
  IsIn x (y ∷ ys) = (x ≡ y) ⊎ IsIn x ys

  pub All-IsIn : (P : A → Type 0) (x : A) (ys : List A) → All P ys → IsIn x ys → P x
  All-IsIn P x [] a i = absurd i
  All-IsIn P x (y ∷ ys) a (inl e) = subst P (sym e) a.0
  All-IsIn P x (y ∷ ys) a (inr i) = All-IsIn P x ys a.1 i

  pub IsIn-append_left : (x : A) (ys zs : List A) → IsIn x ys → IsIn x (ys ++ zs)
  IsIn-append_left x [] zs i = absurd i
  IsIn-append_left x (y ∷ ys) zs (inl e) = inl e
  IsIn-append_left x (y ∷ ys) zs (inr i) = inr (IsIn-append_left x ys zs i)

  pub IsIn-append_right : (x : A) (ys zs : List A) → IsIn x zs → IsIn x (ys ++ zs)
  IsIn-append_right x [] zs i = i
  IsIn-append_right x (y ∷ ys) zs i = inr (IsIn-append_right x ys zs i)

  pub IsIn-filter :
      (p : A → Bool) (x : A) (ys : List A) → p x ≡ true → IsIn x ys → IsIn x (filter p ys)
  IsIn-filter p x [] h i = absurd i
  IsIn-filter p x (y ∷ ys) h (inl e) = rw (sym (ap p e) ∙ h) (inl e)
  IsIn-filter p x (y ∷ ys) h (inr i) = elim (Bool-cases (p y)) [
    | inl f ↦ rw f (inr (IsIn-filter p x ys h i))
    | inr f ↦ rw f (IsIn-filter p x ys h i)
  ]

  IsIn-insert_by :
      (before : A → A → Bool) (x y : A) (ys : List A)
      → (x ≡ y) ⊎ IsIn x ys
      → IsIn x (insert_by before y ys)
  IsIn-insert_by before x y [] i = i
  IsIn-insert_by before x y (z ∷ zs) i = elim (Bool-cases (before y z)) [
    | inl f ↦ rw f i
    | inr f ↦ rw f (swapped (IsIn-insert_by before x y zs) i)
  ]
    where
      swapped :
          ((x ≡ y) ⊎ IsIn x zs → IsIn x (insert_by before y zs))
          → (x ≡ y) ⊎ ((x ≡ z) ⊎ IsIn x zs)
          → (x ≡ z) ⊎ IsIn x (insert_by before y zs)
      swapped inserted (inl e) = inr (inserted (inl e))
      swapped inserted (inr (inl e)) = inl e
      swapped inserted (inr (inr j)) = inr (inserted (inr j))

  pub IsIn-sort_by :
      (before : A → A → Bool) (x : A) (ys : List A) → IsIn x ys → IsIn x (sort_by before ys)
  IsIn-sort_by before x [] i = i
  IsIn-sort_by before x (y ∷ ys) (inl e) = IsIn-insert_by before x y (sort_by before ys) (inl e)
  IsIn-sort_by before x (y ∷ ys) (inr i) =
      IsIn-insert_by before x y (sort_by before ys) (inr (IsIn-sort_by before x ys i))

  -- a member of an ordered list, with what stands before and after it
  pub record IsPlaced (before : A → A → Bool) (x : A) (ys : List A) : Type 0 where
    pub ahead : List A
    pub behind : List A
    pub whole : ys ≡ ahead ++ x ∷ behind
    pub ahead_before : All (λ y. before y x ≡ true) ahead
    pub behind_after : All (λ y. before x y ≡ true) behind

  pub IsIn-IsPlaced :
      (before : A → A → Bool) (x : A) (ys : List A)
      → IsOrdered before ys
      → IsIn x ys
      → IsPlaced before x ys
  IsIn-IsPlaced before x [] s i = absurd i
  IsIn-IsPlaced before x (y ∷ ys) s (inl e) = record {
    ahead = [];
    behind = ys;
    whole = ap (λ z. z ∷ ys) (sym e);
    ahead_before = tt;
    behind_after = subst (λ z. All (λ w. before z w ≡ true) ys) (sym e) s.0;
  }
  IsIn-IsPlaced before x (y ∷ ys) s (inr i) =
      let rest = IsIn-IsPlaced before x ys s.1 i in
      record {
        ahead = y ∷ rest.ahead;
        behind = rest.behind;
        whole = ap (λ zs. y ∷ zs) rest.whole;
        ahead_before = (All-IsIn (λ w. before y w ≡ true) x ys s.0 i, rest.ahead_before);
        behind_after = rest.behind_after;
      }

pub IsIn-map : {A B : Type 0} (f : A → B) (x : A) (ys : List A) → IsIn x ys → IsIn (f x) (map f ys)
IsIn-map f x [] i = absurd i
IsIn-map f x (y ∷ ys) (inl e) = inl (ap f e)
IsIn-map f x (y ∷ ys) (inr i) = inr (IsIn-map f x ys i)
