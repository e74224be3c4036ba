-- ===== src/Schedules/Spacing.antt =====
-- How often the scheduler of dayshield-core/src/schedules.rs runs a job.
use dayshield_core.Base.{
  ℕ, ◌+◌, ◌*◌, ◌≤◌, true, false, Option, none, some, List, [], ◌∷◌, ◌≡◌, refl, inl, inr,
  if◌then◌else◌, arith, Bool-cases, Stored, stored, Option-cases, Outcome-cases, ◌∙◌,
}
use mathlib.Core.Path.{subst}
use dayshield_core.Schedules.{
  ScheduleJobType, job_eq, JobConfig, JobConfigs, StatusStore, JobRuns, Chrono, minute,
  minutes_passed, last_run, is_due, execute_job, Execution, Scheduler, visit_job, visit_jobs,
  Between, tick, ticks, upsert_runtime_status, load_status, save_status, load_config,
}
use dayshield_core.Schedules.Status.{status_of, status_of-upsert}

-- the latest run of a job in a trace that has the newest first
abbrev pub last_time : ScheduleJobType → List Execution → Option ℕ
last_time x [] = none
last_time x (e ∷ es) = if job_eq e.job x then some e.at else last_time x es

abbrev pub SpacedFrom : Option ℕ → Execution → Type 0
SpacedFrom none e = Unit
SpacedFrom (some last) e = last + e.interval_minutes * minute ≤ e.at

-- Each run with a positive interval comes at least its interval after the run before it.
abbrev pub IsSpaced : List Execution → Type 0
IsSpaced [] = Unit
IsSpaced (e ∷ es) = (1 ≤ e.interval_minutes → SpacedFrom (last_time e.job es) e) × IsSpaced es

minutes_passed_lem :
    (last now interval : ℕ)
    → minutes_passed last now interval ≡ true
    → 1 ≤ interval
    → last + interval * minute ≤ now
unfolding minutes_passed
minutes_passed_lem last now interval h k = ground arith

module _ (chrono : Chrono) where
  abbrev recorded : StatusStore → ScheduleJobType → Option ℕ
  recorded status x = last_run chrono (status_of x status)

  -- The statuses record the latest run of each job in the trace.
  abbrev pub Records : StatusStore → List Execution → Type 0
  Records status es =
      (x : ScheduleJobType) (t : ℕ) → last_time x es ≡ some t → recorded status x ≡ some t

  due_lem :
      (j : JobConfig) (status : StatusStore) (now : ℕ) (t : ℕ)
      → is_due chrono j status now ≡ true
      → recorded status j.job ≡ some t
      → minutes_passed t now j.interval_minutes ≡ true
  unfolding is_due
  due_lem j status now t h r = rw (r, is_due) at h

  recorded-execute :
      (runs : JobRuns) (now : ℕ) (status : StatusStore) (job x : ScheduleJobType)
      → recorded (upsert_runtime_status status (execute_job chrono runs now job)) x
        ≡ (if job_eq job x then some now else recorded status x)
  unfolding execute_job
  recorded-execute runs now status job x =
      rw (status_of-upsert x status (execute_job chrono runs now job))
        (elim (Bool-cases (job_eq job x)) [
          | inl e ↦ rw e (chrono.parse_written now)
          | inr e ↦ rw e
        ])

-- The statuses record the trace, and the trace is spaced.
pub record Inv (chrono : Chrono) (status : StatusStore) (es : List Execution) : Type 0 where
  pub records : Records chrono status es
  pub spaced : IsSpaced es

module _ (chrono : Chrono) (clock : ℕ → ℕ) (runs : ℕ → JobRuns)
    (forward : (n : ℕ) → clock n ≤ clock (n + 1)) where
  spaced_run :
      (s : Scheduler) (j : JobConfig)
      → Inv chrono s.status s.executed
      → is_due chrono j s.status (clock s.readings) ≡ true
      → 1 ≤ j.interval_minutes
      → SpacedFrom (last_time j.job s.executed) (record {
        job = j.job;
        at = clock (s.readings + 1);
        interval_minutes = j.interval_minutes;
      })
  spaced_run s j inv due pos = elim (Option-cases (last_time j.job s.executed)) [
    | inl e ↦ rw e tt
    | inr (t, e) ↦
        let passed = due_lem chrono j s.status (clock s.readings) t due (inv.records j.job t e) in
        rw e (
          omega (
            arith,
            forward s.readings,
            minutes_passed_lem t (clock s.readings) j.interval_minutes passed pos,
          ))
  ]

  Records-run :
      (s : Scheduler) (j : JobConfig)
      → Inv chrono s.status s.executed
      → Records chrono
          (upsert_runtime_status s.status
            (execute_job chrono (runs s.readings) (clock (s.readings + 1)) j.job))
          ((record {
            job = j.job;
            at = clock (s.readings + 1);
            interval_minutes = j.interval_minutes;
          })
            ∷ s.executed)
  Records-run s j inv x t h =
      rw (recorded-execute chrono (runs s.readings) (clock (s.readings + 1)) s.status j.job x)
        (elim (Bool-cases (job_eq j.job x)) [
          | inl e ↦ rw e (rw e at h)
          | inr e ↦ rw e (inv.records x t (rw e at h))
        ])

  visit_job-Inv :
      (s : Scheduler) (j : JobConfig)
      → Inv chrono s.status s.executed
      → Inv chrono
          (visit_job chrono clock runs s j).status
          (visit_job chrono clock runs s j).executed
  unfolding visit_job is_due
  visit_job-Inv s j inv = elim (Bool-cases j.enabled) [
    | inr e ↦ rw e inv
    | inl e ↦ elim (Bool-cases (is_due chrono j s.status (clock s.readings))) [
      | inr d ↦ rw (e, d) inv
      | inl d ↦
          rw (e, d)
            (record { records = Records-run s j inv; spaced = (spaced_run s j inv d, inv.spaced) })
    ]
  ]

  visit_jobs-Inv :
      (s : Scheduler) (jobs : JobConfigs)
      → Inv chrono s.status s.executed
      → Inv chrono
          (visit_jobs chrono clock runs s jobs).status
          (visit_jobs chrono clock runs s jobs).executed
  unfolding visit_jobs
  visit_jobs-Inv s [] inv = inv
  visit_jobs-Inv s (j ∷ js) inv =
      visit_jobs-Inv (visit_job chrono clock runs s j) js (visit_job-Inv s j inv)

  visit_job_clean :
      (s : Scheduler) (j : JobConfig)
      → (visit_job chrono clock runs s j).dirty ≡ false
      → (s.dirty ≡ false) × ((visit_job chrono clock runs s j).status ≡ s.status)
  unfolding visit_job
  visit_job_clean s j h = ground arith

  -- if nothing ran, the statuses are those that were loaded
  visit_jobs_clean :
      (s : Scheduler) (jobs : JobConfigs)
      → (visit_jobs chrono clock runs s jobs).dirty ≡ false
      → (s.dirty ≡ false) × ((visit_jobs chrono clock runs s jobs).status ≡ s.status)
  unfolding visit_jobs
  visit_jobs_clean s [] h = (h, refl)
  visit_jobs_clean s (j ∷ js) h =
      let rest = visit_jobs_clean (visit_job chrono clock runs s j) js h in
      let here = visit_job_clean s j rest.0 in (here.0, rest.1 ∙ here.1)

  tick-Inv :
      (config : Stored JobConfigs) (b : Between)
      → Inv chrono (load_status b.file) b.executed
      → Inv chrono
          (load_status (tick chrono clock runs true config b).file)
          (tick chrono clock runs true config b).executed
  unfolding tick save_status load_status
  tick-Inv config b inv = elim (Outcome-cases (load_config config)) [
    | inr (e, fails) ↦ rw (fails, tick) inv
    | inl (jobs, loads) ↦ rw (loads, tick) (go jobs)
  ]
    where
      start : Scheduler
      start = record {
        readings = b.readings;
        status = load_status b.file;
        dirty = false;
        executed = b.executed;
      }

      go :
          (jobs : JobConfigs)
          → Inv chrono
              (load_status (
                if (visit_jobs chrono clock runs start jobs).dirty
                then stored (visit_jobs chrono clock runs start jobs).status
                else b.file))
              (visit_jobs chrono clock runs start jobs).executed
      go jobs =
          let kept = visit_jobs-Inv start jobs inv in
          elim (Bool-cases (visit_jobs chrono clock runs start jobs).dirty) [
            | inl d ↦ rw d kept
            | inr d ↦ rw d (
                subst (λ st. Inv chrono st (visit_jobs chrono clock runs start jobs).executed)
                  (visit_jobs_clean start jobs d).1 kept)
          ]

  -- Over any number of rounds that write their status file, each run of a job with a positive
  -- interval starts at least that interval after the run of the job before it, and a run before
  -- the rounds counts if the file records it. The clock never goes back from one reading to the next.
  pub ticks-IsSpaced :
      (configs : List (Stored JobConfigs)) (b : Between)
      → Inv chrono (load_status b.file) b.executed
      → IsSpaced (ticks chrono clock runs configs b).executed
  unfolding ticks
  ticks-IsSpaced [] b inv = inv.spaced
  ticks-IsSpaced (config ∷ configs) b inv =
      ticks-IsSpaced configs (tick chrono clock runs true config b) (tick-Inv config b inv)
