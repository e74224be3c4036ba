-- ===== src/Auth/Paths/Public.antt =====
-- Which paths are public: the list of dayshield-core/src/auth/middleware.rs.
use dayshield_core.Base.{
  ℕ, zero, suc, ◌-◌, ◌≤◌, Bool, true, ◌||◌, ◌&&◌, some, List, [], ◌∷◌, ◌++◌, map, ◌≡◌, refl, inl,
  inr, ◌↔◌, ltb, leb, any, all, length, take, leb→le, arith, Bool-cases,
}
use dayshield_core.Base.Text.{
  Text, utf8_len, byte_len, codes, to_ascii_lowercase, eq_ignore_ascii_case,
}
use dayshield_core.Auth.Paths.{
  public_paths, public_prefixes, slice_to, has_prefix, has_any_prefix, is_public_path,
}

abbrev pub is_ascii : Text → Bool
is_ascii s = all (λ c. ltb c 0x80) s

abbrev pub lower : Text → Text
lower s = map to_ascii_lowercase s

abbrev pub StartsWith : Text → Text → Type 0
StartsWith p s = (r : Text) × (lower s ≡ p ++ r)

-- The three fixed paths and the two namespaces, in any case of their letters.
pub data IsPublic (path : Text) : Type 0 where
  login : lower path ≡ codes "/auth/login" → IsPublic path
  status : lower path ≡ codes "/auth/status" → IsPublic path
  system_status : lower path ≡ codes "/system/status" → IsPublic path
  installer : StartsWith (codes "/installer/") path → IsPublic path
  portal : StartsWith (codes "/portal") path → IsPublic path

eq_ignore_ascii_case_iff : (s t : Text) → (eq_ignore_ascii_case s t ≡ true) ↔ (lower s ≡ lower t)
unfolding eq_ignore_ascii_case
eq_ignore_ascii_case_iff [] [] = ground arith
eq_ignore_ascii_case_iff [] (y ∷ t) = ground arith
eq_ignore_ascii_case_iff (x ∷ s) [] = ground arith
eq_ignore_ascii_case_iff (x ∷ s) (y ∷ t) = ground (arith, eq_ignore_ascii_case_iff s t)

byte_len_ascii : (s : Text) → is_ascii s ≡ true → byte_len s ≡ length s
byte_len_ascii [] h = refl
byte_len_ascii (c ∷ s) h = ground (arith, byte_len_ascii s)

slice_to_ascii :
    (n : ℕ) (s : Text) → is_ascii s ≡ true → n ≤ length s → slice_to n s ≡ some (take n s)
unfolding slice_to
slice_to_ascii zero s a h = refl
slice_to_ascii (suc n) [] a h = ground arith
slice_to_ascii (suc n) (c ∷ s) a h =
    let one : utf8_len c ≡ 1 = ground arith in
    let ih = slice_to_ascii n s (ground arith) (ground arith) in
    let less : suc n - 1 ≡ n = omega arith in
    rw (one, slice_to) (rw (less, slice_to) (rw (ih, slice_to) (ground arith)))

starts_sound :
    (p s : Text)
    → length p ≤ length s
    → eq_ignore_ascii_case (take (length p) s) p ≡ true
    → (q : Text) × (lower s ≡ lower p ++ q)
unfolding eq_ignore_ascii_case
starts_sound [] s h e = (lower s, refl)
starts_sound (c ∷ p) [] h e = ground arith
starts_sound (c ∷ p) (d ∷ s) h e =
    let (q, t) = starts_sound p s (ground arith) (ground arith) in (q, ground arith)

starts_complete :
    (p s q : Text)
    → lower s ≡ lower p ++ q
    → (length p ≤ length s) × (eq_ignore_ascii_case (take (length p) s) p ≡ true)
unfolding eq_ignore_ascii_case
starts_complete [] s q e = (ground arith, refl)
starts_complete (c ∷ p) [] q e = ground arith
starts_complete (c ∷ p) (d ∷ s) q e =
    let ih = starts_complete p s q (ground arith) in (ground arith, ground arith)

-- for an ASCII path no slice panics
has_prefix_ascii :
    (path prefix : Text)
    → is_ascii path ≡ true
    → is_ascii prefix ≡ true
    → has_prefix path prefix
      ≡ some (
          leb (length prefix) (length path)
          && eq_ignore_ascii_case (take (length prefix) path) prefix)
unfolding has_prefix
has_prefix_ascii path prefix a b = rw (byte_len_ascii path a) (
    rw (byte_len_ascii prefix b) (elim (Bool-cases (leb (length prefix) (length path))) [
      | inl e ↦ rw e (
          rw
            (
              slice_to_ascii (length prefix) path a (leb→le (length prefix) (length path) e),
              has_prefix,
            )
            refl)
      | inr e ↦ rw e refl
    ]))

-- the decision of one prefix of the list
abbrev starts : Text → Text → Bool
starts path prefix =
    leb (length prefix) (length path) && eq_ignore_ascii_case (take (length prefix) path) prefix

starts_iff :
    (path prefix : Text)
    → lower prefix ≡ prefix
    → (starts path prefix ≡ true) ↔ StartsWith prefix path
starts_iff path prefix e = (
  λ h. rw e at (
      starts_sound prefix path (leb→le (length prefix) (length path) (ground arith))
        (ground arith)),
  λ s. (let (l, t) = starts_complete prefix path s.0 (rw e s.1) in ground (arith, l, t)),
)

has_any_prefix_ascii :
    (path : Text) (prefixes : List Text)
    → is_ascii path ≡ true
    → all is_ascii prefixes ≡ true
    → has_any_prefix path prefixes ≡ some (any (starts path) prefixes)
unfolding has_any_prefix
has_any_prefix_ascii path [] a b = refl
has_any_prefix_ascii path (p ∷ ps) a b =
    rw (has_prefix_ascii path p a (ground arith), has_any_prefix)
      (elim (Bool-cases (starts path p)) [
        | inl e ↦ rw e refl
        | inr e ↦ rw e (has_any_prefix_ascii path ps a (ground arith))
      ])

is_public_path_ascii :
    (path : Text)
    → is_ascii path ≡ true
    → is_public_path path
      ≡ some (any (eq_ignore_ascii_case path) public_paths || any (starts path) public_prefixes)
unfolding is_public_path
is_public_path_ascii path a =
    rw (has_any_prefix_ascii path public_prefixes a refl, is_public_path)
      (elim (Bool-cases (any (eq_ignore_ascii_case path) public_paths)) [
        | inl e ↦ rw e refl
        | inr e ↦ rw e refl
      ])

-- For a path of ASCII characters the test of the public paths gives a result, and passes exactly
-- the three fixed paths and the two namespaces, in any case of their letters.
pub is_public_path_iff :
    (path : Text)
    → is_ascii path ≡ true
    → (b : Bool) × (is_public_path path ≡ some b) × ((b ≡ true) ↔ IsPublic path)
unfolding to_ascii_lowercase
is_public_path_iff path a = (
  any (eq_ignore_ascii_case path) public_paths || any (starts path) public_prefixes,
  is_public_path_ascii path a,
  (λ h. sound h, λ p. complete p),
)
  where
    literal : (t : Text) → lower t ≡ t → (eq_ignore_ascii_case path t ≡ true) ↔ (lower path ≡ t)
    literal t e = rw e at (eq_ignore_ascii_case_iff path t)

    sound :
        (any (eq_ignore_ascii_case path) public_paths || any (starts path) public_prefixes) ≡ true
        → IsPublic path
    sound h = elim (Bool-cases (eq_ignore_ascii_case path (codes "/auth/login"))) [
      | inl e ↦ login ((literal (codes "/auth/login") refl).0 e)
      | inr n ↦ elim (Bool-cases (eq_ignore_ascii_case path (codes "/auth/status"))) [
        | inl e ↦ status ((literal (codes "/auth/status") refl).0 e)
        | inr m ↦ elim (Bool-cases (eq_ignore_ascii_case path (codes "/system/status"))) [
          | inl e ↦ system_status ((literal (codes "/system/status") refl).0 e)
          | inr o ↦ elim (Bool-cases (starts path (codes "/installer/"))) [
            | inl e ↦ installer ((starts_iff path (codes "/installer/") refl).0 e)
            | inr q ↦ portal ((starts_iff path (codes "/portal") refl).0 (ground arith))
          ]
        ]
      ]
    ]

    complete :
        IsPublic path
        → (any (eq_ignore_ascii_case path) public_paths || any (starts path) public_prefixes) ≡ true
    complete (login e) = ground (arith, (literal (codes "/auth/login") refl).1 e)
    complete (status e) = ground (arith, (literal (codes "/auth/status") refl).1 e)
    complete (system_status e) = ground (arith, (literal (codes "/system/status") refl).1 e)
    complete (installer e) = ground (arith, (starts_iff path (codes "/installer/") refl).1 e)
    complete (portal e) = ground (arith, (starts_iff path (codes "/portal") refl).1 e)
