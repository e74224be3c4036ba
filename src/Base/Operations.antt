-- ===== src/Base/Operations.antt =====
-- Operations on a state that may fail, and triples that say what they make of it: the handlers
-- that load files, change them and save them, with `?` between the calls.
use dayshield_core.Base.Results.{Outcome, ok, err}
use native.Mathlib.Omega.{arith}
use mathlib.Core.Path.{◌≡◌, refl, ap, subst}

abbrev pub Operation : Type 0 → Type 0 → Type 0 → Type 0
Operation E S A = S → Outcome E A × S

module _ {E S : Type 0} where
  infixl 5 ◌>>=◌ ◌>>◌
  unfoldable pub ◌>>=◌ : {A B : Type 0} → Operation E S A → (A → Operation E S B) → Operation E S B
  ◌>>=◌ x f m = let (r, m') = x m in elim r [ ok a ↦ f a m' | err e ↦ (err e, m') ]

  abbrev pub ◌>>◌ : {A B : Type 0} → Operation E S A → Operation E S B → Operation E S B
  x >> y = x >>= λ _. y

  -- a result that leaves the state alone
  unfoldable pub lift : {A : Type 0} → Outcome E A → Operation E S A
  lift r m = (r, m)

  unfoldable pub return : {A : Type 0} → A → Operation E S A
  unfolding lift
  return a = lift (ok a)

  -- `map_err`
  unfoldable pub map_err : {E' A : Type 0} → (E' → E) → Operation E' S A → Operation E S A
  map_err f x m = let (r, m') = x m in (elim r [ ok a ↦ ok a | err e ↦ err (f e) ], m')

  -- what holds of a result and the state after it
  abbrev pub Post : {A : Type 0} → (A → S → Type 0) → (E → S → Type 0) → Outcome E A × S → Type 0
  Post Q F (ok a, m) = Q a m
  Post Q F (err e, m) = F e m

  -- From a state with P the operation ends well with Q or fails with F.
  pub record Triple {A : Type 0} (P : S → Type 0) (op : Operation E S A) (Q : A → S → Type 0)
      (F : E → S → Type 0) : Type 0 where
    pub run : (m : S) → P m → Post Q F (op m)

  Post-bind :
      {A B : Type 0} {Q : A → S → Type 0} {R : B → S → Type 0} {F : E → S → Type 0}
      (o : Outcome E A × S) (f : A → Operation E S B)
      → Post Q F o
      → ((a : A) → Triple (Q a) (f a) R F)
      → Post R F (elim o.0 [ ok a ↦ f a o.1 | err e ↦ (err e, o.1) ])
  Post-bind (ok a, m) f h k = (k a).run m h
  Post-bind (err e, m) f h k = h

  pub Triple-bind :
      {A B : Type 0} {P : S → Type 0} {Q : A → S → Type 0} {R : B → S → Type 0} {F : E → S → Type 0}
      {x : Operation E S A} {f : A → Operation E S B}
      → Triple P x Q F
      → ((a : A) → Triple (Q a) (f a) R F)
      → Triple P (x >>= f) R F
  unfolding ◌>>=◌
  Triple-bind {x} {f} h k = record { run = λ m p. Post-bind (x m) f (h.run m p) k }

  pub Triple-lift :
      {A : Type 0} {P : S → Type 0} (r : Outcome E A)
      → Triple P (lift r) (λ a m. P m × (r ≡ ok a)) (λ e m. P m)
  unfolding lift
  Triple-lift (ok a) = record { run = λ m p. (p, refl) }
  Triple-lift (err e) = record { run = λ m p. p }

  pub Triple-return :
      {A : Type 0} {P : S → Type 0} {F : E → S → Type 0} (a : A)
      → Triple P (return a) (λ b m. P m × (a ≡ b)) F
  unfolding return lift
  Triple-return a = record { run = λ m p. (p, refl) }

  Post-weaken :
      {A : Type 0} {Q Q' : A → S → Type 0} {F F' : E → S → Type 0} (o : Outcome E A × S)
      → Post Q F o
      → ((a : A) (m : S) → Q a m → Q' a m)
      → ((e : E) (m : S) → F e m → F' e m)
      → Post Q' F' o
  Post-weaken (ok a, m) h q f = q a m h
  Post-weaken (err e, m) h q f = f e m h

  -- the rule of consequence
  pub Triple-weaken :
      {A : Type 0} {P P' : S → Type 0} {Q Q' : A → S → Type 0} {F F' : E → S → Type 0}
      {op : Operation E S A}
      → Triple P op Q F
      → ((m : S) → P' m → P m)
      → ((a : A) (m : S) → Q a m → Q' a m)
      → ((e : E) (m : S) → F e m → F' e m)
      → Triple P' op Q' F'
  Triple-weaken {op} t p q f = record { run = λ m h. Post-weaken (op m) (t.run m (p m h)) q f }

  pub Triple-map_err :
      {A : Type 0} {P : S → Type 0} {Q : A → S → Type 0} {F F' : E → S → Type 0}
      {op : Operation E S A} (f : E → E)
      → Triple P op Q F
      → ((e : E) (m : S) → F e m → F' (f e) m)
      → Triple P (map_err f op) Q F'
  unfolding map_err
  Triple-map_err {Q} {F} {F'} {op} f t k = record { run = λ m p. mapped (op m) (t.run m p) }
    where
      mapped :
          (o : Outcome E _ × S)
          → Post Q F o
          → Post Q F' (elim o.0 [ ok a ↦ ok a | err e ↦ err (f e) ], o.1)
      mapped (ok a, n) h = h
      mapped (err e, n) h = k e n h

  Post-ok :
      {A : Type 0} (Q : A → S → Type 0) (F : E → S → Type 0) (o : Outcome E A × S) {a : A}
      → Post Q F o
      → o.0 ≡ ok a
      → Q a o.1
  Post-ok Q F (ok b, n) q e = subst (λ x. Q x n) (ap (λ r. elim r [ ok x ↦ x | err y ↦ b ]) e) q
  Post-ok Q F (err x, n) q e = absurd (ground arith)

  -- what a triple says of a run that is known to end well
  pub Triple-ok :
      {A : Type 0} {P : S → Type 0} {Q : A → S → Type 0} {F : E → S → Type 0} {op : Operation E S A}
      {a : A} (m : S)
      → Triple P op Q F
      → P m
      → (op m).0 ≡ ok a
      → Q a (op m).1
  Triple-ok {op} m t p h = Post-ok _ _ (op m) (t.run m p) h

  -- a step of which only its result matters
  pub Triple-bind_fact :
      {A B : Type 0} {P : S → Type 0} {R : A → Type 0} {Q : B → S → Type 0} {F : E → S → Type 0}
      {x : Operation E S A} {f : A → Operation E S B}
      → Triple P x (λ a m. R a) F
      → ((a : A) → R a → Triple (λ m. Unit {0}) (f a) Q F)
      → Triple P (x >>= f) Q F
  Triple-bind_fact h k = Triple-bind h (λ a. record { run = λ m p. (k a p).run m tt })

  -- a step that gives a fact on its result and something that holds of the state
  pub Triple-bind_keep :
      {A B : Type 0} {P I : S → Type 0} {R : A → Type 0} {Q : B → S → Type 0} {F : E → S → Type 0}
      {x : Operation E S A} {f : A → Operation E S B}
      → Triple P x (λ a m. I m × R a) F
      → ((a : A) → R a → Triple I (f a) Q F)
      → Triple P (x >>= f) Q F
  Triple-bind_keep h k = Triple-bind h (λ a. record { run = λ m p. (k a p.1).run m p.0 })
