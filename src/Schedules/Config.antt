-- ===== src/Schedules/Config.antt =====
-- Validation and defaulting of the job list of dayshield-core/src/schedules.rs.
use dayshield_core.Base.{
  ℕ, suc, ◌+◌, ◌≤◌, Bool, true, false, List, [], ◌∷◌, ◌++◌, ◌≡◌, refl, ap, ◌↔◌, inl, inr,
  if◌then◌else◌, any, All, arith, Outcome-cases, ok, err, Stored, stored,
}
use dayshield_core.Schedules.{
  ScheduleJobType, dynamic_dns_update, acme_renew, suricata_rulesets_update, job_eq, JobConfig,
  JobConfigs, validate_jobs, validate_config, has_job, push_unless, disabled_job, with_default_jobs,
  ScheduleError, save_config, load_config,
}

abbrev pub occurrences : ScheduleJobType → JobConfigs → ℕ
occurrences x [] = 0
occurrences x (j ∷ js) = let rest = occurrences x js in if job_eq j.job x then suc rest else rest

abbrev pub InRange : JobConfig → Type 0
InRange j = (1 ≤ j.interval_minutes) × (j.interval_minutes ≤ 10080)

-- Every interval lies between a minute and a week, and no job stands twice.
pub record IsValid (jobs : JobConfigs) : Type 0 where
  pub in_range : All InRange jobs
  pub distinct : (x : ScheduleJobType) → occurrences x jobs ≤ 1

-- how often a job may still stand, after those of `seen`
abbrev room : ScheduleJobType → List ScheduleJobType → ℕ
room x seen = if any (job_eq x) seen then 0 else 1

room-cons :
    (x y : ScheduleJobType) (seen : List ScheduleJobType) (n : ℕ)
    → any (job_eq y) seen ≡ false
    → n ≤ room x (y ∷ seen)
    → (if job_eq y x then suc n else n) ≤ room x seen
room-cons dynamic_dns_update dynamic_dns_update seen n h k = ground arith
room-cons dynamic_dns_update acme_renew seen n h k = ground arith
room-cons dynamic_dns_update suricata_rulesets_update seen n h k = ground arith
room-cons acme_renew dynamic_dns_update seen n h k = ground arith
room-cons acme_renew acme_renew seen n h k = ground arith
room-cons acme_renew suricata_rulesets_update seen n h k = ground arith
room-cons suricata_rulesets_update dynamic_dns_update seen n h k = ground arith
room-cons suricata_rulesets_update acme_renew seen n h k = ground arith
room-cons suricata_rulesets_update suricata_rulesets_update seen n h k = ground arith

room-uncons :
    (x y : ScheduleJobType) (seen : List ScheduleJobType) (n : ℕ)
    → (if job_eq y x then suc n else n) ≤ room x seen
    → n ≤ room x (y ∷ seen)
room-uncons dynamic_dns_update dynamic_dns_update seen n k = ground arith
room-uncons dynamic_dns_update acme_renew seen n k = ground arith
room-uncons dynamic_dns_update suricata_rulesets_update seen n k = ground arith
room-uncons acme_renew dynamic_dns_update seen n k = ground arith
room-uncons acme_renew acme_renew seen n k = ground arith
room-uncons acme_renew suricata_rulesets_update seen n k = ground arith
room-uncons suricata_rulesets_update dynamic_dns_update seen n k = ground arith
room-uncons suricata_rulesets_update acme_renew seen n k = ground arith
room-uncons suricata_rulesets_update suricata_rulesets_update seen n k = ground arith

room_self :
    (y : ScheduleJobType) (seen : List ScheduleJobType) (n : ℕ)
    → (if job_eq y y then suc n else n) ≤ room y seen
    → any (job_eq y) seen ≡ false
room_self dynamic_dns_update seen n k = ground arith
room_self acme_renew seen n k = ground arith
room_self suricata_rulesets_update seen n k = ground arith

validate_jobs_sound :
    (seen : List ScheduleJobType) (jobs : JobConfigs)
    → validate_jobs seen jobs ≡ ok tt
    → All InRange jobs × ((x : ScheduleJobType) → occurrences x jobs ≤ room x seen)
unfolding validate_jobs
validate_jobs_sound seen [] h = (tt, λ x. ground arith)
validate_jobs_sound seen (j ∷ js) h =
    let fresh : any (job_eq j.job) seen ≡ false = ground arith in
    let ih = validate_jobs_sound (j.job ∷ seen) js (ground arith) in
    ((ground arith, ih.0), λ x. room-cons x j.job seen (occurrences x js) fresh (ih.1 x))

validate_jobs_complete :
    (seen : List ScheduleJobType) (jobs : JobConfigs)
    → All InRange jobs
    → ((x : ScheduleJobType) → occurrences x jobs ≤ room x seen)
    → validate_jobs seen jobs ≡ ok tt
unfolding validate_jobs
validate_jobs_complete seen [] r h = refl
validate_jobs_complete seen (j ∷ js) r h = ground (
  arith,
  room_self j.job seen (occurrences j.job js) (h j.job),
  validate_jobs_complete (j.job ∷ seen) js r.1
      (λ (x : ScheduleJobType). room-uncons x j.job seen (occurrences x js) (h x)),
)

-- The validation passes exactly when every interval lies in 1 to 10080 and no job stands twice.
pub validate_config_iff : (jobs : JobConfigs) → (validate_config jobs ≡ ok tt) ↔ IsValid jobs
unfolding validate_config
validate_config_iff jobs = (
  λ h. (let s = validate_jobs_sound [] jobs h in record { in_range = s.0; distinct = s.1 }),
  λ v. validate_jobs_complete [] jobs v.in_range v.distinct,
)

occurrences-append_one :
    (x : ScheduleJobType) (jobs : JobConfigs) (j : JobConfig)
    → occurrences x (jobs ++ j ∷ []) ≡ occurrences x jobs + occurrences x (j ∷ [])
occurrences-append_one x [] j = ground arith
occurrences-append_one x (i ∷ jobs) j = ground (arith, occurrences-append_one x jobs j)

occurrences-zero :
    (x : ScheduleJobType) (jobs : JobConfigs) → has_job x jobs ≡ false → occurrences x jobs ≡ 0
occurrences-zero x [] h = refl
occurrences-zero x (j ∷ jobs) h = ground (arith, occurrences-zero x jobs)

occurrences-pos :
    (x : ScheduleJobType) (jobs : JobConfigs) → has_job x jobs ≡ true → 1 ≤ occurrences x jobs
occurrences-pos x [] h = ground arith
occurrences-pos x (j ∷ jobs) h = ground (arith, occurrences-pos x jobs)

-- each pushed default adds one entry of its own job, if there is none
occurrences-push :
    (x : ScheduleJobType) (b : Bool) (jobs : JobConfigs) (j : JobConfig)
    → occurrences x (push_unless b j jobs)
      ≡ occurrences x jobs + (if b then 0 else occurrences x (j ∷ []))
occurrences-push x true jobs j = ground arith
occurrences-push x false jobs j = ground (arith, occurrences-append_one x jobs j)

abbrev default_minutes : ScheduleJobType → ℕ
default_minutes dynamic_dns_update = 10
default_minutes acme_renew = 360
default_minutes suricata_rulesets_update = 240

abbrev without_default : ScheduleJobType → JobConfigs → ℕ
without_default x jobs = if has_job x jobs then 0 else 1

occurrences-defaults :
    (x : ScheduleJobType) (jobs : JobConfigs)
    → occurrences x (with_default_jobs jobs) ≡ occurrences x jobs + without_default x jobs
unfolding with_default_jobs
occurrences-defaults x jobs =
    let ddns = has_job dynamic_dns_update jobs in
    let acme = has_job acme_renew jobs in
    let rules = has_job suricata_rulesets_update jobs in
    let d = disabled_job dynamic_dns_update 10 in
    let a = disabled_job acme_renew 360 in
    let r = disabled_job suricata_rulesets_update 240 in
    let jobs₁ = push_unless ddns d jobs in
    rw (occurrences-push x rules (push_unless acme a jobs₁) r)
      (rw (occurrences-push x acme jobs₁ a) (rw (occurrences-push x ddns jobs d) (added x)))
  where
    added :
        (y : ScheduleJobType)
        → occurrences y jobs
            + (if has_job dynamic_dns_update jobs
                then 0
                else occurrences y (disabled_job dynamic_dns_update 10 ∷ []))
            + (if has_job acme_renew jobs
                then 0
                else occurrences y (disabled_job acme_renew 360 ∷ []))
            + (if has_job suricata_rulesets_update jobs
                then 0
                else occurrences y (disabled_job suricata_rulesets_update 240 ∷ []))
          ≡ occurrences y jobs + without_default y jobs
    added dynamic_dns_update = ground arith
    added acme_renew = ground arith
    added suricata_rulesets_update = ground arith

-- A valid job list is completed to one that holds each job exactly once.
pub occurrences-with_default_jobs :
    (jobs : JobConfigs) (x : ScheduleJobType)
    → IsValid jobs
    → occurrences x (with_default_jobs jobs) ≡ 1
occurrences-with_default_jobs jobs x v = ground (
  arith,
  v.distinct x,
  occurrences-defaults x jobs,
  occurrences-zero x jobs,
  occurrences-pos x jobs,
)

push_unless_full :
    (b : Bool) (j : JobConfig) (jobs : JobConfigs) → b ≡ true → push_unless b j jobs ≡ jobs
push_unless_full b j jobs h = rw h

has_job_of_pos :
    (x : ScheduleJobType) (jobs : JobConfigs) → 1 ≤ occurrences x jobs → has_job x jobs ≡ true
has_job_of_pos x [] h = ground arith
has_job_of_pos x (j ∷ jobs) h = ground (arith, has_job_of_pos x jobs)

-- A job list that names every job is left as it is.
with_default_jobs_full :
    (jobs : JobConfigs)
    → ((x : ScheduleJobType) → 1 ≤ occurrences x jobs)
    → with_default_jobs jobs ≡ jobs
unfolding with_default_jobs
with_default_jobs_full jobs h = ground (
  arith,
  has_job_of_pos dynamic_dns_update jobs (h dynamic_dns_update),
  has_job_of_pos acme_renew jobs (h acme_renew),
  has_job_of_pos suricata_rulesets_update jobs (h suricata_rulesets_update),
)

module _ (writable : Bool) (file : Stored JobConfigs) (jobs : JobConfigs) where
  saved_parts :
      {saved : JobConfigs}
      → (save_config writable file jobs).1 ≡ ok saved
      → (validate_config jobs ≡ ok tt)
        × (saved ≡ with_default_jobs jobs)
        × ((save_config writable file jobs).0 ≡ stored (with_default_jobs jobs))
  unfolding save_config
  saved_parts h = elim (Outcome-cases (validate_config jobs)) [
    | inl (tt, e) ↦ (e, ground arith, ground arith)
    | inr (e, fails) ↦ absurd (ground arith)
  ]

  -- A save that succeeds was given a valid job list, and returns its completion, which names each
  -- job exactly once and is what the next load of the file returns.
  pub save_config-load_config :
      {saved : JobConfigs}
      → (save_config writable file jobs).1 ≡ ok saved
      → IsValid jobs
        × (saved ≡ with_default_jobs jobs)
        × ((x : ScheduleJobType) → occurrences x saved ≡ 1)
        × (load_config (save_config writable file jobs).0 ≡ ok saved)
  unfolding load_config
  save_config-load_config {saved} h =
      let parts = saved_parts h in
      let valid = (validate_config_iff jobs).0 parts.0 in
      let once : (x : ScheduleJobType) → occurrences x saved ≡ 1 =
        λ x. rw parts.1 (occurrences-with_default_jobs jobs x valid) in
      let full = with_default_jobs_full saved (λ x. omega (arith, once x)) in
      (valid, parts.1, once, rw (parts.2, ← parts.1) (ap ok full))

  -- A save that fails leaves the file as it was.
  pub save_config_error :
      {e : ScheduleError}
      → (save_config writable file jobs).1 ≡ err e
      → (save_config writable file jobs).0 ≡ file
  unfolding save_config
  save_config_error h = ground arith
