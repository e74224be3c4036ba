-- ===== src/Metrics/Eviction.antt =====
-- What the buffer of dayshield-core/src/metrics/buffer.rs holds after any number of pushes.
use dayshield_core.Base.{
  ℕ, suc, ◌+◌, ◌-◌, ◌≤◌, ◌<◌, List, [], ◌∷◌, ◌++◌, ◌≡◌, refl, ap, sym, ◌∙◌, inl, inr, leb, length,
  length-append, length-drop, drop, arith, Bool-cases, leb→le,
}
use mathlib.Core.List.{append_assoc, append-nil}
use dayshield_core.Metrics.{MetricsBuffer, new, push, push_all}

module _ {A : Type 0} where
  drop-tail : (n : ℕ) (h t : List A) → 1 ≤ length h → drop n (drop 1 h ++ t) ≡ drop (suc n) (h ++ t)
  drop-tail n [] t k = absurd (ground arith)
  drop-tail n (y ∷ h) t k = refl

  -- a buffer that is not over its bound, after more pushes
  push_all_lem :
      (xs : List A) (b : MetricsBuffer A)
      → 1 ≤ b.max_entries
      → length b.history ≤ b.max_entries
      → (push_all xs b).history
        ≡ drop (length b.history + length xs - b.max_entries) (b.history ++ xs)
  unfolding push
  push_all_lem [] b m l =
      let none_over : length b.history + 0 - b.max_entries ≡ 0 = omega (arith, l) in
      sym (ap (λ n. drop n (b.history ++ [])) none_over ∙ append-nil b.history)
  push_all_lem (x ∷ xs) b m l = elim (Bool-cases (leb b.max_entries (length b.history))) [
    | inl e ↦
        let full = leb→le b.max_entries (length b.history) e in
        let next : (push x b).history ≡ drop 1 b.history ++ x ∷ [] = rw e refl in
        let size : length (drop 1 b.history ++ x ∷ []) ≡ b.max_entries =
          omega (
            arith,
            length-append (drop 1 b.history) (x ∷ []),
            length-drop 1 b.history,
            full,
            l,
            m,
          ) in
        let bound : length (push x b).history ≤ b.max_entries = rw next (omega (arith, size)) in
        let over : length (drop 1 b.history ++ x ∷ []) + length xs - b.max_entries ≡ length xs =
          omega (arith, size) in
        let same : suc (length xs) ≡ length b.history + suc (length xs) - b.max_entries =
          omega (arith, full, l) in
        push_all_lem xs (push x b) m bound
        ∙ (ap (λ h. drop (length h + length xs - b.max_entries) (h ++ xs)) next
            ∙ (ap (λ n. drop n ((drop 1 b.history ++ x ∷ []) ++ xs)) over
                ∙ (ap (drop (length xs)) (append_assoc (drop 1 b.history) (x ∷ []) xs)
                    ∙ (drop-tail (length xs) b.history (x ∷ xs) (omega (arith, full, m))
                        ∙ ap (λ n. drop n (b.history ++ x ∷ xs)) same))))
    | inr e ↦
        let next : (push x b).history ≡ b.history ++ x ∷ [] = rw e refl in
        let size : length (b.history ++ x ∷ []) ≡ length b.history + 1 =
          length-append b.history (x ∷ []) in
        let space : length b.history < b.max_entries = ground arith in
        let bound : length (push x b).history ≤ b.max_entries =
          rw next (omega (arith, size, space)) in
        let same : length (b.history ++ x ∷ []) + length xs - b.max_entries
            ≡ length b.history + suc (length xs) - b.max_entries =
          omega (arith, size) in
        push_all_lem xs (push x b) m bound
        ∙ (ap (λ h. drop (length h + length xs - b.max_entries) (h ++ xs)) next
            ∙ (ap (λ n. drop n ((b.history ++ x ∷ []) ++ xs)) same
                ∙ ap (drop (length b.history + suc (length xs) - b.max_entries))
                    (append_assoc b.history (x ∷ []) xs)))
  ]

  -- A new buffer for at least one entry holds the last entries that were pushed, in their order,
  -- and not more than its bound.
  pub push_all-new :
      (max_entries : ℕ) (xs : List A)
      → 1 ≤ max_entries
      → (push_all xs (new max_entries)).history ≡ drop (length xs - max_entries) xs
  push_all-new max_entries xs m =
      let count : 0 + length xs - max_entries ≡ length xs - max_entries = omega arith in
      push_all_lem xs (new max_entries) m (omega arith) ∙ ap (λ n. drop n xs) count
