-- ===== src/Schedules/Status.antt =====
-- The status store of dayshield-core/src/schedules.rs: one entry for each job.
use dayshield_core.Base.{
  ℕ, suc, ◌+◌, ◌≤◌, true, Option, none, some, [], ◌∷◌, ◌≡◌, refl, if◌then◌else◌, find, arith, map,
}
use dayshield_core.Schedules.{
  ScheduleJobType, dynamic_dns_update, acme_renew, suricata_rulesets_update, job_eq, JobConfigs,
  RuntimeStatus, StatusStore, upsert_runtime_status, by_job, job_status, build_response,
}

abbrev pub status_of : ScheduleJobType → StatusStore → Option RuntimeStatus
status_of job status = find (λ e. job_eq e.job job) status

abbrev pub entries : ScheduleJobType → StatusStore → ℕ
entries x [] = 0
entries x (e ∷ es) = let rest = entries x es in if job_eq e.job x then suc rest else rest

abbrev pub IsDistinct : StatusStore → Type 0
IsDistinct status = (x : ScheduleJobType) → entries x status ≤ 1

job_eq_trans : (a b c : ScheduleJobType) → job_eq a b ≡ true → job_eq a c ≡ job_eq b c
job_eq_trans dynamic_dns_update dynamic_dns_update c h = refl
job_eq_trans acme_renew acme_renew c h = refl
job_eq_trans suricata_rulesets_update suricata_rulesets_update c h = refl
job_eq_trans dynamic_dns_update acme_renew c h = ground arith
job_eq_trans dynamic_dns_update suricata_rulesets_update c h = ground arith
job_eq_trans acme_renew dynamic_dns_update c h = ground arith
job_eq_trans acme_renew suricata_rulesets_update c h = ground arith
job_eq_trans suricata_rulesets_update dynamic_dns_update c h = ground arith
job_eq_trans suricata_rulesets_update acme_renew c h = ground arith

pub job_eq_refl : (a : ScheduleJobType) → job_eq a a ≡ true
job_eq_refl dynamic_dns_update = refl
job_eq_refl acme_renew = refl
job_eq_refl suricata_rulesets_update = refl

-- After an upsert a job's status is the new one if it is the job's, and the old one otherwise.
pub status_of-upsert :
    (x : ScheduleJobType) (status : StatusStore) (r : RuntimeStatus)
    → status_of x (upsert_runtime_status status r)
      ≡ (if job_eq r.job x then some r else status_of x status)
unfolding upsert_runtime_status
status_of-upsert x [] r = refl
status_of-upsert x (e ∷ es) r = ground (arith, status_of-upsert x es r, job_eq_trans e.job r.job x)

entries-upsert :
    (x : ScheduleJobType) (status : StatusStore) (r : RuntimeStatus)
    → entries x (upsert_runtime_status status r) ≡ (elim (status_of r.job status) [
      | none ↦ entries x status + (if job_eq r.job x then 1 else 0)
      | some e ↦ entries x status
    ])
unfolding upsert_runtime_status
entries-upsert x [] r = ground arith
entries-upsert x (e ∷ es) r = ground (arith, entries-upsert x es r, job_eq_trans e.job r.job x)

entries-zero :
    (x : ScheduleJobType) (status : StatusStore) → status_of x status ≡ none → entries x status ≡ 0
entries-zero x [] h = refl
entries-zero x (e ∷ es) h = ground (arith, entries-zero x es)

entries_eq :
    (x y : ScheduleJobType) (status : StatusStore)
    → job_eq x y ≡ true
    → entries y status ≡ entries x status
entries_eq dynamic_dns_update dynamic_dns_update status h = refl
entries_eq acme_renew acme_renew status h = refl
entries_eq suricata_rulesets_update suricata_rulesets_update status h = refl
entries_eq dynamic_dns_update acme_renew status h = ground arith
entries_eq dynamic_dns_update suricata_rulesets_update status h = ground arith
entries_eq acme_renew dynamic_dns_update status h = ground arith
entries_eq acme_renew suricata_rulesets_update status h = ground arith
entries_eq suricata_rulesets_update dynamic_dns_update status h = ground arith
entries_eq suricata_rulesets_update acme_renew status h = ground arith

-- An upsert keeps at most one entry for each job.
pub upsert-IsDistinct :
    (status : StatusStore) (r : RuntimeStatus)
    → IsDistinct status
    → IsDistinct (upsert_runtime_status status r)
upsert-IsDistinct status r h x =
    ground
      (arith, h x, entries-upsert x status r, entries-zero r.job status, entries_eq r.job x status)

by_job-none :
    (x : ScheduleJobType) (status : StatusStore) → entries x status ≡ 0 → by_job status x ≡ none
unfolding by_job
by_job-none x [] h = refl
by_job-none x (e ∷ es) h = ground (arith, by_job-none x es)

-- With one entry for each job, the map of the response and the search of `is_due` agree.
by_job-eq-status_of :
    (x : ScheduleJobType) (status : StatusStore)
    → entries x status ≤ 1
    → by_job status x ≡ status_of x status
unfolding by_job
by_job-eq-status_of x [] h = refl
by_job-eq-status_of x (e ∷ es) h = ground (arith, by_job-none x es, by_job-eq-status_of x es)

-- From a store with one entry for each job, the response lists the configured jobs in order, each
-- with the status that the store holds for it, after an upsert the new one.
build_response-upsert :
    (jobs : JobConfigs) (status : StatusStore) (r : RuntimeStatus)
    → IsDistinct status
    → build_response jobs (upsert_runtime_status status r)
      ≡ map (λ j. job_status j (if job_eq r.job j.job then some r else status_of j.job status)) jobs
unfolding build_response
build_response-upsert [] status r h = refl
build_response-upsert (j ∷ js) status r h = rw (
  by_job-eq-status_of j.job (upsert_runtime_status status r) (upsert-IsDistinct status r h j.job),
  status_of-upsert j.job status r,
  build_response-upsert js status r h,
)
