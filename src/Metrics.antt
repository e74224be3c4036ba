-- ===== src/Metrics.antt =====
-- The buffer of snapshots in memory: dayshield-core/src/metrics/buffer.rs. Of a snapshot only its
-- timestamp is looked at.
pub mod Eviction
mod Tests
use dayshield_core.Base.{
  ℕ, ◌-◌, Option, none, some, List, [], ◌∷◌, ◌++◌, leb, if◌then◌else◌, length, drop, filter,
  get_last?,
}

pub record MetricsBuffer (A : Type 0) : Type 0 where
  pub history : List A
  pub max_entries : ℕ

abbrev pub default_max_entries : ℕ
default_max_entries = 300

module _ {A : Type 0} where
  abbrev pub new : ℕ → MetricsBuffer A
  new max_entries = record { history = []; max_entries = max_entries }

  pub push : A → MetricsBuffer A → MetricsBuffer A
  push snapshot b =
      let kept = if leb b.max_entries (length b.history) then drop 1 b.history else b.history in
      record b { history = kept ++ snapshot ∷ [] }

  abbrev pub push_all : List A → MetricsBuffer A → MetricsBuffer A
  push_all [] b = b
  push_all (x ∷ xs) b = push_all xs (push x b)

  abbrev pub latest : MetricsBuffer A → Option A
  latest b = get_last? b.history

  pub last_n : (A → ℕ) → ℕ → MetricsBuffer A → List A
  last_n timestamp seconds b = elim (latest b) [
    | none ↦ []
    | some last ↦ filter (λ s. leb (timestamp last - seconds) (timestamp s)) b.history
  ]
