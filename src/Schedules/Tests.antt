-- ===== src/Schedules/Tests.antt =====
-- Runs and instances of the schedules module at concrete inputs.
use Prim.Native.String.{String}
use mathlib.Core.Path.{ap}
use dayshield_core.Base.{
  ℕ, zero, suc, true, none, some, [], ◌∷◌, ◌≡◌, refl, ◌↔◌, arith, ok, err, missing, stored,
}
use dayshield_core.Schedules.{
  ScheduleJobType, dynamic_dns_update, acme_renew, JobConfigs, RuntimeStatus, JobRuns, Chrono,
  Between, default_jobs, disabled_job, validate_config, validate_jobs, with_default_jobs,
  save_config, load_config, load_status, ticks, duplicate_job, bad_interval,
}
use dayshield_core.Schedules.Config.{
  occurrences, IsValid, validate_config_iff, save_config-load_config,
}
use dayshield_core.Schedules.Spacing.{IsSpaced, Inv, ticks-IsSpaced}

abbrev twice : JobConfigs
twice = disabled_job acme_renew 5 ∷ disabled_job acme_renew 6 ∷ []

validate_twice : validate_config twice ≡ err (duplicate_job acme_renew)
unfolding validate_config validate_jobs
validate_twice = refl

validate_zero : validate_config (disabled_job acme_renew 0 ∷ []) ≡ err (bad_interval acme_renew)
unfolding validate_config validate_jobs
validate_zero = refl

validate_config_iff_example : (validate_config default_jobs ≡ ok tt) ↔ IsValid default_jobs
validate_config_iff_example = validate_config_iff default_jobs

abbrev only_acme : JobConfigs
only_acme = disabled_job acme_renew 5 ∷ []

save_only_acme : (save_config true missing only_acme).1 ≡ ok (with_default_jobs only_acme)
unfolding save_config validate_config validate_jobs with_default_jobs
save_only_acme = refl

save_config-load_config_example :
    IsValid only_acme
    × (with_default_jobs only_acme ≡ with_default_jobs only_acme)
    × ((x : ScheduleJobType) → occurrences x (with_default_jobs only_acme) ≡ 1)
    × (load_config (save_config true missing only_acme).0 ≡ ok (with_default_jobs only_acme))
save_config-load_config_example = save_config-load_config true missing only_acme save_only_acme

abbrev ran : RuntimeStatus
ran = record {
  job = acme_renew;
  last_run_at = some "2026-01-01T00:00:00Z";
  last_success = some true;
  last_message = none;
}

-- A chrono that writes an instant as so many letters.
abbrev letters : ℕ → String
letters zero = ""
letters (suc n) = String.◌∷◌ "a" (letters n)

abbrev count : String → ℕ
count String.[] = 0
count (String.◌∷◌ c s) = suc (count s)

count-letters : (t : ℕ) → count (letters t) ≡ t
count-letters zero = refl
count-letters (suc t) = ap suc (count-letters t)

abbrev unary_chrono : Chrono
unary_chrono = record {
  to_rfc3339 = letters;
  parse_from_rfc3339 = λ s. some (count s);
  parse_written = λ t. ap some (count-letters t);
}

abbrev quiet : ℕ → JobRuns
quiet n = record { dynamic_dns = ok (true ∷ []); acme = ok "done"; rulesets = ok (1, 0) }

abbrev hourly : JobConfigs
hourly = record { job = dynamic_dns_update; enabled = true; interval_minutes = 60 } ∷ []

abbrev fresh : Between
fresh = record { readings = 0; file = missing; executed = [] }

fresh-Inv : Inv unary_chrono [] []
fresh-Inv = record { records = λ x t h. ground arith; spaced = tt }

ticks-IsSpaced_example :
    IsSpaced (ticks unary_chrono (λ n. n) quiet (stored hourly ∷ stored hourly ∷ []) fresh).executed
unfolding load_status
ticks-IsSpaced_example =
    ticks-IsSpaced unary_chrono (λ n. n) quiet (λ n. omega arith)
      (stored hourly ∷ stored hourly ∷ []) fresh fresh-Inv
