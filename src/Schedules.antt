-- ===== src/Schedules.antt =====
-- The cron-like scheduler of system jobs: dayshield-core/src/schedules.rs.
-- Instants are nanoseconds since the epoch. The JSON files are `Stored` values, and the messages
-- keep the parts of their `format!` calls. The n-th reading of the clock and the n-th answer of
-- the job's own API module are functions of n.
pub mod Config
pub mod Status
pub mod Spacing
mod Tests
use dayshield_core.Base.{
  ℕ, suc, ◌+◌, ◌-◌, ◌*◌, ◌/◌, Bool, true, false, not, ◌&&◌, Option, none, some, List, [], ◌∷◌, ◌++◌,
  String, ◌≡◌, ltb, leb, ◌==◌, if◌then◌else◌, within, any, find, filter, length, Outcome, ok, err,
  ◌>>=◌, Stored, missing, unreadable, stored,
}

pub data ScheduleJobType : Type 0 where
  dynamic_dns_update acme_renew suricata_rulesets_update : ScheduleJobType

-- the derived `PartialEq`
abbrev pub job_eq : ScheduleJobType → ScheduleJobType → Bool
job_eq dynamic_dns_update dynamic_dns_update = true
job_eq acme_renew acme_renew = true
job_eq suricata_rulesets_update suricata_rulesets_update = true
job_eq _ _ = false

pub record JobConfig : Type 0 where
  pub job : ScheduleJobType
  pub enabled : Bool
  pub interval_minutes : ℕ

abbrev pub JobConfigs : Type 0
JobConfigs = List JobConfig

abbrev pub disabled_job : ScheduleJobType → ℕ → JobConfig
disabled_job job minutes = record { job = job; enabled = false; interval_minutes = minutes }

-- `SystemSchedulesConfig::default`
pub default_jobs : JobConfigs
default_jobs =
    disabled_job dynamic_dns_update 60
    ∷ disabled_job acme_renew 1440
    ∷ disabled_job suricata_rulesets_update 1440
    ∷ []

pub data Message : Type 0 where
  updated_entries : ℕ → Message
  failed_entries : ℕ → ℕ → Message
  updated_rulesets : ℕ → Message
  failed_rulesets : ℕ → ℕ → Message
  text : String → Message

pub record RuntimeStatus : Type 0 where
  pub job : ScheduleJobType
  pub last_run_at : Option String
  pub last_success : Option Bool
  pub last_message : Option Message

abbrev pub StatusStore : Type 0
StatusStore = List RuntimeStatus

pub record JobStatus : Type 0 where
  pub job : ScheduleJobType
  pub enabled : Bool
  pub interval_minutes : ℕ
  pub last_run_at : Option String
  pub last_success : Option Bool
  pub last_message : Option Message

pub data ScheduleError : Type 0 where
  bad_interval duplicate_job : ScheduleJobType → ScheduleError
  not_loaded not_written : ScheduleError

-- `validate_config`, with the keys of its `seen` map
pub validate_jobs : List ScheduleJobType → JobConfigs → Outcome ScheduleError (Unit {0})
validate_jobs seen [] = ok tt
validate_jobs seen (j ∷ js) =
    let rest = validate_jobs (j.job ∷ seen) js in
    if not (within 1 10080 j.interval_minutes)
    then err (bad_interval j.job)
    else if any (job_eq j.job) seen
    then err (duplicate_job j.job)
    else rest

pub validate_config : JobConfigs → Outcome ScheduleError (Unit {0})
validate_config jobs = validate_jobs [] jobs

abbrev pub has_job : ScheduleJobType → JobConfigs → Bool
has_job job jobs = any (λ j. job_eq j.job job) jobs

abbrev pub push_unless : Bool → JobConfig → JobConfigs → JobConfigs
push_unless present j jobs = if present then jobs else jobs ++ j ∷ []

pub with_default_jobs : JobConfigs → JobConfigs
with_default_jobs jobs =
    let has_ddns = has_job dynamic_dns_update jobs in
    let has_acme = has_job acme_renew jobs in
    let has_rulesets = has_job suricata_rulesets_update jobs in
    let jobs₁ = push_unless has_ddns (disabled_job dynamic_dns_update 10) jobs in
    let jobs₂ = push_unless has_acme (disabled_job acme_renew 360) jobs₁ in
    push_unless has_rulesets (disabled_job suricata_rulesets_update 240) jobs₂

pub load_config : Stored JobConfigs → Outcome ScheduleError JobConfigs
load_config missing = ok default_jobs
load_config unreadable = err not_loaded
load_config (stored jobs) = ok (with_default_jobs jobs)

-- The new file, and the value returned. `writable` tells if the writes and the rename succeed.
pub save_config :
    Bool → Stored JobConfigs → JobConfigs → Stored JobConfigs × Outcome ScheduleError JobConfigs
save_config writable file jobs = elim (validate_config jobs) [
  | err e ↦ (file, err e)
  | ok _ ↦
      if writable
      then (stored (with_default_jobs jobs), ok (with_default_jobs jobs))
      else (file, err not_written)
]

-- `load_status(..).unwrap_or_default()`
pub load_status : Stored StatusStore → StatusStore
load_status (stored status) = status
load_status _ = []

pub save_status : Bool → Stored StatusStore → StatusStore → Stored StatusStore
save_status writable file status = if writable then stored status else file

pub upsert_runtime_status : StatusStore → RuntimeStatus → StatusStore
upsert_runtime_status [] runtime = runtime ∷ []
upsert_runtime_status (item ∷ items) runtime =
    if job_eq item.job runtime.job
    then runtime ∷ items
    else item ∷ upsert_runtime_status items runtime

-- The map `by_job` of `build_response`: a later entry for a job replaces an earlier one.
pub by_job : StatusStore → ScheduleJobType → Option RuntimeStatus
by_job [] job = none
by_job (item ∷ items) job = elim (by_job items job) [
  | some later ↦ some later
  | none ↦ if job_eq item.job job then some item else none
]

pub job_status : JobConfig → Option RuntimeStatus → JobStatus
job_status j none = record {
  job = j.job;
  enabled = j.enabled;
  interval_minutes = j.interval_minutes;
  last_run_at = none;
  last_success = none;
  last_message = none;
}
job_status j (some entry) = record {
  job = j.job;
  enabled = j.enabled;
  interval_minutes = j.interval_minutes;
  last_run_at = entry.last_run_at;
  last_success = entry.last_success;
  last_message = entry.last_message;
}

pub build_response : JobConfigs → StatusStore → List JobStatus
build_response [] status = []
build_response (j ∷ js) status = job_status j (by_job status j.job) ∷ build_response js status

pub get_response : Stored JobConfigs → Stored StatusStore → Outcome ScheduleError (List JobStatus)
get_response config status = do
  jobs ← load_config config
  ok (build_response jobs (load_status status))

-- What the API modules of the three jobs answer.
pub record JobRuns : Type 0 where
  pub dynamic_dns : Outcome String (List Bool)  -- the `success` of each entry
  pub acme : Outcome String String
  pub rulesets : Outcome String (ℕ × ℕ)  -- updated, failed

run_job : JobRuns → ScheduleJobType → Bool × Message
run_job runs dynamic_dns_update = elim runs.dynamic_dns [
  | ok entries ↦
      let failed = length (filter not entries) in
      if failed == 0
      then (true, updated_entries (length entries))
      else (false, failed_entries failed (length entries))
  | err e ↦ (false, text e)
]
run_job runs acme_renew = elim runs.acme [ ok msg ↦ (true, text msg) | err e ↦ (false, text e) ]
run_job runs suricata_rulesets_update = elim runs.rulesets [
  | ok (updated, failed) ↦
      if failed == 0
      then (true, updated_rulesets updated)
      else (false, failed_rulesets updated failed)
  | err e ↦ (false, text e)
]

-- chrono: a timestamp's text reads back as the instant that it was made from.
pub record Chrono : Type 0 where
  pub to_rfc3339 : ℕ → String
  pub parse_from_rfc3339 : String → Option ℕ
  pub parse_written : (t : ℕ) → parse_from_rfc3339 (to_rfc3339 t) ≡ some t

abbrev pub minute : ℕ
minute = 60 * 1000000000

-- `elapsed.num_minutes() >= interval`, where `num_minutes` rounds towards zero
pub minutes_passed : ℕ → ℕ → ℕ → Bool
minutes_passed last now interval =
    if leb last now
    then leb interval ((now - last) / minute)
    else ((last - now) / minute == 0 && interval == 0)

module _ (chrono : Chrono) where
  abbrev pub last_run : Option RuntimeStatus → Option ℕ
  last_run none = none
  last_run (some entry) = elim entry.last_run_at [
    | none ↦ none
    | some at ↦ chrono.parse_from_rfc3339 at
  ]

  pub is_due : JobConfig → StatusStore → ℕ → Bool
  unfolding minutes_passed
  is_due j status now = elim (last_run (find (λ e. job_eq e.job j.job) status)) [
    | none ↦ true
    | some last ↦ minutes_passed last now j.interval_minutes
  ]

  pub execute_job : JobRuns → ℕ → ScheduleJobType → RuntimeStatus
  unfolding run_job
  execute_job runs now job =
      let (success, message) = run_job runs job in
      record {
        job = job;
        last_run_at = some (chrono.to_rfc3339 now);
        last_success = some success;
        last_message = some message;
      }

  -- The new status file, and the value returned.
  pub run_job_now :
      Bool
      → JobRuns
      → ℕ
      → Stored JobConfigs
      → Stored StatusStore
      → ScheduleJobType
      → Stored StatusStore × Outcome ScheduleError JobStatus
  unfolding load_config load_status save_status
  run_job_now writable runs now config file job = elim (load_config config) [
    | err e ↦ (file, err e)
    | ok jobs ↦
        let runtime = execute_job runs now job in
        let target : JobConfig = elim (find (λ j. job_eq j.job job) jobs) [
          | none ↦ disabled_job job 60
          | some j ↦ j
        ] in
        let file' = save_status writable file (upsert_runtime_status (load_status file) runtime) in
        (
          file',
          if writable
              then ok (job_status (record target { job = job }) (some runtime))
              else err not_written,
        )
  ]

-- A run that the scheduler started: the job, the clock when it started, and the interval.
pub record Execution : Type 0 where
  pub job : ScheduleJobType
  pub at : ℕ
  pub interval_minutes : ℕ

-- What `scheduler_loop` carries: the readings taken, the statuses, `dirty`, the runs (newest first).
pub record Scheduler : Type 0 where
  pub readings : ℕ
  pub status : StatusStore
  pub dirty : Bool
  pub executed : List Execution

-- What persists between two rounds of `scheduler_loop`: the status file; with the trace.
pub record Between : Type 0 where
  pub readings : ℕ
  pub file : Stored StatusStore
  pub executed : List Execution

module _ (chrono : Chrono) (clock : ℕ → ℕ) (runs : ℕ → JobRuns) where
  -- the body of the loop over the jobs
  pub visit_job : Scheduler → JobConfig → Scheduler
  visit_job s j =
      if not j.enabled
      then s
      else if not (is_due chrono j s.status (clock s.readings))
      then record s { readings = s.readings + 1 }
      else record {
        readings = s.readings + 2;
        status =
            upsert_runtime_status s.status
              (execute_job chrono (runs s.readings) (clock (s.readings + 1)) j.job);
        dirty = true;
        executed =
            (record {
              job = j.job;
              at = clock (s.readings + 1);
              interval_minutes = j.interval_minutes;
            })
            ∷ s.executed;
      }

  pub visit_jobs : Scheduler → JobConfigs → Scheduler
  visit_jobs s [] = s
  visit_jobs s (j ∷ js) = visit_jobs (visit_job s j) js

  -- one round of `scheduler_loop`
  pub tick : Bool → Stored JobConfigs → Between → Between
  tick writable config b = elim (load_config config) [
    | err e ↦ b
    | ok jobs ↦
        let s =
          visit_jobs
            (record {
              readings = b.readings;
              status = load_status b.file;
              dirty = false;
              executed = b.executed;
            })
            jobs in
        record {
          readings = s.readings;
          file = if s.dirty then save_status writable b.file s.status else b.file;
          executed = s.executed;
        }
  ]

  pub ticks : List (Stored JobConfigs) → Between → Between
  ticks [] b = b
  ticks (config ∷ configs) b = ticks configs (tick true config b)
