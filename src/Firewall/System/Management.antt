-- ===== src/Firewall/System/Management.antt =====
-- The management ports: effective_management_ports of dayshield-core/src/config/models.rs.
use dayshield_core.Base.{
  ℕ, ◌<◌, true, Option, none, some, List, [], ◌∷◌, ◌≡◌, ◌⊎◌, ◌↔◌, inl, inr, refl, ltb, ◌==◌, All,
  arith, Bool-cases, IsIn, ltb→lt, ==_iff, ◌∙◌,
}
use dayshield_core.Net.Validation.{is_valid_port}
use dayshield_core.Interfaces.{SystemSettings}
use dayshield_core.Firewall.{FirewallSettings}
use dayshield_core.Firewall.System.{
  insert_port, insert_valid, insert_all, insert_settings, effective_management_ports,
}

abbrev pub IsIncreasing : List ℕ → Type 0
IsIncreasing [] = Unit
IsIncreasing (p ∷ ps) = All (λ q. p < q) ps × IsIncreasing ps

All-insert_port : (P : ℕ → Type 0) (p : ℕ) (qs : List ℕ) → P p → All P qs → All P (insert_port p qs)
All-insert_port P p [] h a = (h, tt)
All-insert_port P p (q ∷ qs) h a = elim (Bool-cases (ltb p q)) [
  | inl e ↦ rw e (h, a)
  | inr e ↦ elim (Bool-cases (p == q)) [
    | inl f ↦ rw (e, f) a
    | inr f ↦ rw (e, f) (a.0, All-insert_port P p qs h a.1)
  ]
]

All-less : (p q : ℕ) (qs : List ℕ) → p < q → All (λ r. q < r) qs → All (λ r. p < r) qs
All-less p q [] h a = tt
All-less p q (r ∷ rs) h a = (omega (arith, h, a.0), All-less p q rs h a.1)

insert_port-IsIncreasing : (p : ℕ) (qs : List ℕ) → IsIncreasing qs → IsIncreasing (insert_port p qs)
insert_port-IsIncreasing p [] s = (tt, tt)
insert_port-IsIncreasing p (q ∷ qs) s = elim (Bool-cases (ltb p q)) [
  | inl e ↦ rw e ((ltb→lt p q e, All-less p q qs (ltb→lt p q e) s.0), s)
  | inr e ↦ elim (Bool-cases (p == q)) [
    | inl f ↦ rw (e, f) s
    | inr f ↦
        rw (e, f)
          (All-insert_port (λ r. q < r) p qs (ground arith) s.0, insert_port-IsIncreasing p qs s.1)
  ]
]

IsIn-insert_port : (x p : ℕ) (qs : List ℕ) → IsIn x (insert_port p qs) ↔ ((x ≡ p) ⊎ IsIn x qs)
IsIn-insert_port x p [] = (λ i. i, λ i. i)
IsIn-insert_port x p (q ∷ qs) = elim (Bool-cases (ltb p q)) [
  | inl e ↦ rw e (λ i. i, λ i. i)
  | inr e ↦ elim (Bool-cases (p == q)) [
    | inl f ↦ rw (e, f) (λ i. inr i, λ i. elim i [ inl g ↦ inl (g ∙ (==_iff p q).0 f) | inr j ↦ j ])
    | inr f ↦
        let rest = IsIn-insert_port x p qs in
        rw (e, f)
          (
            λ i. elim i [
              | inl g ↦ inr (inl g)
              | inr j ↦ elim (rest.0 j) [ inl g ↦ inl g | inr k ↦ inr (inr k) ]
            ],
            λ i. elim i [
              | inl g ↦ inr (rest.1 (inl g))
              | inr j ↦ elim j [ inl g ↦ inl g | inr k ↦ inr (rest.1 (inr k)) ]
            ],
          )
  ]
]

valid_port : (p : ℕ) → (is_valid_port p ≡ true) ↔ (0 < p)
unfolding is_valid_port
valid_port p = ground arith

IsIn-insert_valid :
    (x p : ℕ) (qs : List ℕ) → IsIn x (insert_valid p qs) ↔ (((x ≡ p) × (0 < p)) ⊎ IsIn x qs)
unfolding insert_valid
IsIn-insert_valid x p qs = elim (Bool-cases (is_valid_port p)) [
  | inl e ↦
      let one = IsIn-insert_port x p qs in
      rw e (
        λ i. elim (one.0 i) [ inl f ↦ inl (f, (valid_port p).0 e) | inr j ↦ inr j ],
        λ i. one.1 (elim i [ inl f ↦ inl f.0 | inr j ↦ inr j ]),
      )
  | inr e ↦ rw e (
    λ i. inr i,
    λ i. elim i [ inl f ↦ absurd (ground (arith, (valid_port p).1 f.1, e)) | inr j ↦ j ],
  )
]

insert_valid-IsIncreasing :
    (p : ℕ) (qs : List ℕ) → IsIncreasing qs → IsIncreasing (insert_valid p qs)
unfolding insert_valid
insert_valid-IsIncreasing p qs s = elim (Bool-cases (is_valid_port p)) [
  | inl e ↦ rw e (insert_port-IsIncreasing p qs s)
  | inr e ↦ rw e s
]

insert_all-IsIncreasing : (ps qs : List ℕ) → IsIncreasing qs → IsIncreasing (insert_all ps qs)
insert_all-IsIncreasing [] qs s = s
insert_all-IsIncreasing (p ∷ ps) qs s =
    insert_all-IsIncreasing ps (insert_valid p qs) (insert_valid-IsIncreasing p qs s)

IsIn-insert_all :
    (x : ℕ) (ps qs : List ℕ) → IsIn x (insert_all ps qs) ↔ (((0 < x) × IsIn x ps) ⊎ IsIn x qs)
IsIn-insert_all x [] qs = (λ i. inr i, λ i. elim i [ inl f ↦ absurd f.1 | inr j ↦ j ])
IsIn-insert_all x (p ∷ ps) qs =
    let rest = IsIn-insert_all x ps (insert_valid p qs) in
    let one = IsIn-insert_valid x p qs in
    (
      λ i. elim (rest.0 i) [
        | inl f ↦ inl (f.0, inr f.1)
        | inr j ↦ elim (one.0 j) [ inl g ↦ inl (omega (arith, g.0, g.1), inl g.0) | inr k ↦ inr k ]
      ],
      λ i. rest.1 (elim i [
        | inl f ↦ elim f.1 [
          | inl g ↦ inr (one.1 (inl (g, omega (arith, g, f.0))))
          | inr j ↦ inl (f.0, j)
        ]
        | inr k ↦ inr (one.1 (inr k))
      ]),
    )

-- a port of the system: that of the web interface, and of SSH where it is enabled
abbrev pub IsSystemPort : Option SystemSettings → ℕ → Type 0
IsSystemPort none p = ⊥
IsSystemPort (some s) p = (p ≡ s.web_port) ⊎ ((s.ssh_enabled ≡ true) × (p ≡ s.ssh_port))

insert_settings-IsIncreasing :
    (o : Option SystemSettings) (qs : List ℕ)
    → IsIncreasing qs
    → IsIncreasing (insert_settings o qs)
insert_settings-IsIncreasing none qs s = s
insert_settings-IsIncreasing (some system) qs s =
    let web = insert_valid-IsIncreasing system.web_port qs s in
    elim (Bool-cases system.ssh_enabled) [
      | inl e ↦
          rw e (insert_valid-IsIncreasing system.ssh_port (insert_valid system.web_port qs) web)
      | inr e ↦ rw e web
    ]

IsIn-insert_settings :
    (x : ℕ) (o : Option SystemSettings) (qs : List ℕ)
    → IsIn x (insert_settings o qs) ↔ (((0 < x) × IsSystemPort o x) ⊎ IsIn x qs)
IsIn-insert_settings x none qs = (λ i. inr i, λ i. elim i [ inl f ↦ absurd f.1 | inr j ↦ j ])
IsIn-insert_settings x (some s) qs =
    let web = IsIn-insert_valid x s.web_port qs in
    let ssh = IsIn-insert_valid x s.ssh_port (insert_valid s.web_port qs) in
    elim (Bool-cases s.ssh_enabled) [
      | inl e ↦ rw e (
        λ i. elim (ssh.0 i) [
          | inl f ↦ inl (omega (arith, f.0, f.1), inr (refl, f.0))
          | inr j ↦ elim (web.0 j) [
            | inl f ↦ inl (omega (arith, f.0, f.1), inl f.0)
            | inr k ↦ inr k
          ]
        ],
        λ i. ssh.1 (elim i [
          | inl f ↦ elim f.1 [
            | inl g ↦ inr (web.1 (inl (g, omega (arith, g, f.0))))
            | inr g ↦ inl (g.1, omega (arith, g.1, f.0))
          ]
          | inr k ↦ inr (web.1 (inr k))
        ]),
      )
      | inr e ↦ rw e (
        λ i. elim (web.0 i) [ inl f ↦ inl (omega (arith, f.0, f.1), inl f.0) | inr k ↦ inr k ],
        λ i. web.1 (elim i [
          | inl f ↦ elim f.1 [
            | inl g ↦ inl (g, omega (arith, g, f.0))
            | inr g ↦ absurd (ground (arith, g.0))
          ]
          | inr k ↦ inr k
        ]),
      )
    ]

-- The management ports are in ascending order, each once, and they are exactly the positive ones of
-- the configured ports, the port of the web interface, and that of SSH where it is enabled.
pub effective_management_ports_lem :
    (settings : FirewallSettings) (system : Option SystemSettings)
    → IsIncreasing (effective_management_ports settings system)
      × ((p : ℕ)
          → IsIn p (effective_management_ports settings system)
            ↔ ((0 < p) × (IsSystemPort system p ⊎ IsIn p settings.management_ports)))
unfolding effective_management_ports
effective_management_ports_lem settings system =
    let configured = insert_all settings.management_ports [] in
    (
      insert_settings-IsIncreasing system configured
          (insert_all-IsIncreasing settings.management_ports [] tt),
      λ p.
          let outer = IsIn-insert_settings p system configured in
          let inner = IsIn-insert_all p settings.management_ports [] in
          (
            λ i. elim (outer.0 i) [
              | inl f ↦ (f.0, inl f.1)
              | inr j ↦ elim (inner.0 j) [ inl g ↦ (g.0, inr g.1) | inr k ↦ absurd k ]
            ],
            λ h. outer.1 (elim h.1 [ inl f ↦ inl (h.0, f) | inr j ↦ inr (inner.1 (inl (h.0, j))) ]),
          ),
    )
