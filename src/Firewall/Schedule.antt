-- ===== src/Firewall/Schedule.antt =====
-- When a rule's schedule is active: is_schedule_active of
-- dayshield-core/src/engine/nftables/mod.rs, and what it decides.
use dayshield_core.Base.{
  ℕ, ◌+◌, ◌*◌, ◌≤◌, ◌<◌, Bool, true, false, not, ◌&&◌, ◌||◌, Option, none, some, List, [], ◌∷◌, ◌≡◌,
  ◌↔◌, ◌⊎◌, inl, inr, refl, if◌then◌else◌, ltb, leb, ◌==◌, any, arith,
}
use dayshield_core.Base.Text.{Text}
use dayshield_core.Net.Validation.{is_some}
use dayshield_core.Firewall.{FirewallSchedule}
use dayshield_core.Firewall.Validation.{Calendar}

-- the local clock: the date, the day of the week from Sunday, and the time of the day
pub record Now : Type 0 where
  pub today : ℕ
  pub weekday : ℕ
  pub hour : ℕ
  pub minute : ℕ

-- `NaiveTime::from_hms_opt(hour, minute, 0).unwrap_or_default()`, in seconds
abbrev time_of : ℕ → ℕ → ℕ
time_of hour minute = if ltb hour 24 && ltb minute 60 then hour * 3600 + minute * 60 else 0

-- an optional text that a parser reads
abbrev pub read_by : (Text → Option ℕ) → Option Text → Option ℕ
read_by parse none = none
read_by parse (some s) = parse s

abbrev or_else : Option ℕ → ℕ → ℕ
or_else none d = d
or_else (some v) d = v

abbrev is_before_start : Option ℕ → ℕ → Bool
is_before_start none today = false
is_before_start (some d) today = ltb today d

abbrev is_after_end : Option ℕ → ℕ → Bool
is_after_end none today = false
is_after_end (some d) today = ltb d today

abbrev is_other_day : List ℕ → ℕ → Bool
is_other_day [] dow = false
is_other_day (d ∷ ds) dow = not (any (λ x. x == dow) (d ∷ ds))

-- the window of a day, which wraps at midnight where its start is after its end
unfoldable pub is_outside_window : ℕ → ℕ → ℕ → Bool
is_outside_window start end time =
    if leb start end then ltb time start || ltb end time else ltb time start && ltb end time

unfoldable pub is_outside_times : Calendar → Option Text → Option Text → ℕ → Bool
unfolding is_outside_window
is_outside_times calendar time_start time_end time =
    if is_some time_start || is_some time_end
    then is_outside_window (or_else (read_by calendar.parse_time time_start) 0)
        (or_else (read_by calendar.parse_time time_end) (23 * 3600 + 59 * 60 + 59)) time
    else false

unfoldable pub is_schedule_active : Calendar → Now → Option FirewallSchedule → Bool
unfolding is_outside_times
is_schedule_active calendar now none = true
is_schedule_active calendar now (some sched) =
    if is_before_start (read_by calendar.parse_date sched.date_start) now.today
    then false
    else (if is_after_end (read_by calendar.parse_date sched.date_end) now.today
        then false
        else (if is_other_day sched.days now.weekday
            then false
            else not (
                is_outside_times calendar sched.time_start sched.time_end
                  (time_of now.hour now.minute))))

-- The times of a window: those from the start to the end, or, where the start is after the end,
-- those that are not strictly between the end and the start.
abbrev pub InWindow : ℕ → ℕ → ℕ → Type 0
InWindow start end time =
    ((start ≤ end) × (start ≤ time) × (time ≤ end))
    ⊎ ((end < start) × ((start ≤ time) ⊎ (time ≤ end)))

is_outside_window_iff :
    (start end time : ℕ) → (is_outside_window start end time ≡ false) ↔ InWindow start end time
unfolding is_outside_window
is_outside_window_iff start end time = ground arith

-- a date that the schedule has and chrono reads
abbrev pub HasDate : (Text → Option ℕ) → Option Text → ℕ → Type 0
HasDate parse o d = (s : Text) × (o ≡ some s) × (parse s ≡ some d)

read_by-HasDate :
    (parse : Text → Option ℕ) (o : Option Text) (d : ℕ)
    → HasDate parse o d
    → read_by parse o ≡ some d
read_by-HasDate parse o d (s, e, f) = rw e f

HasDate-read_by :
    (parse : Text → Option ℕ) (o : Option Text) (d : ℕ)
    → read_by parse o ≡ some d
    → HasDate parse o d
HasDate-read_by parse none d h = absurd (ground arith)
HasDate-read_by parse (some s) d h = (s, refl, h)

-- no window, or a time in it: the start is midnight and the end 23:59:59 where they are not given
-- or not read
abbrev pub InTimes : Calendar → Option Text → Option Text → ℕ → Type 0
InTimes calendar time_start time_end time =
    ((time_start ≡ none) × (time_end ≡ none))
    ⊎ InWindow (or_else (read_by calendar.parse_time time_start) 0)
        (or_else (read_by calendar.parse_time time_end) (23 * 3600 + 59 * 60 + 59)) time

-- each dimension that the schedule has, on its own
pub record IsActive (calendar : Calendar) (now : Now) (sched : FirewallSchedule) : Type 0 where
  pub started : (d : ℕ) → HasDate calendar.parse_date sched.date_start d → d ≤ now.today
  pub not_ended : (d : ℕ) → HasDate calendar.parse_date sched.date_end d → now.today ≤ d
  pub on_day : (sched.days ≡ []) ⊎ (any (λ x. x == now.weekday) sched.days ≡ true)
  pub in_times : InTimes calendar sched.time_start sched.time_end (time_of now.hour now.minute)

started_iff :
    (o : Option ℕ) (today : ℕ)
    → (is_before_start o today ≡ false) ↔ ((d : ℕ) → o ≡ some d → d ≤ today)
started_iff none today = (λ h d e. absurd (ground arith), λ h. refl)
started_iff (some v) today = (λ h d e. ground arith, λ h. ground (arith, h v refl))

not_ended_iff :
    (o : Option ℕ) (today : ℕ) → (is_after_end o today ≡ false) ↔ ((d : ℕ) → o ≡ some d → today ≤ d)
not_ended_iff none today = (λ h d e. absurd (ground arith), λ h. refl)
not_ended_iff (some v) today = (λ h d e. ground arith, λ h. ground (arith, h v refl))

on_day_iff :
    (days : List ℕ) (dow : ℕ)
    → (is_other_day days dow ≡ false) ↔ ((days ≡ []) ⊎ (any (λ x. x == dow) days ≡ true))
on_day_iff [] dow = (λ h. inl refl, λ h. refl)
on_day_iff (d ∷ ds) dow = ground arith

is_outside_times_iff :
    (calendar : Calendar) (start end : Option Text) (time : ℕ)
    → (is_outside_times calendar start end time ≡ false) ↔ InTimes calendar start end time
unfolding is_outside_times
is_outside_times_iff calendar none none time = (λ h. inl (refl, refl), λ h. refl)
is_outside_times_iff calendar (some s) end time =
    let iff = is_outside_window_iff _ _ time in
    (λ h. inr (iff.0 h), λ h. iff.1 (elim h [ inl p ↦ absurd (ground (arith, p)) | inr w ↦ w ]))
is_outside_times_iff calendar none (some s) time =
    let iff = is_outside_window_iff _ _ time in
    (λ h. inr (iff.0 h), λ h. iff.1 (elim h [ inl p ↦ absurd (ground (arith, p)) | inr w ↦ w ]))

four_guards :
    (a b c d : Bool)
    → ((if a then false else (if b then false else (if c then false else not d))) ≡ true)
      ↔ ((a ≡ false) × (b ≡ false) × (c ≡ false) × (d ≡ false))
four_guards a b c d = ground arith

-- A schedule is active exactly when the date is within the dates that it has and that chrono reads,
-- the day is one of its days or it has none, and the time of the day is in its window, which wraps
-- at midnight where it starts after its end, or it has none.
pub is_schedule_active_iff :
    (calendar : Calendar) (now : Now) (sched : FirewallSchedule)
    → (is_schedule_active calendar now (some sched) ≡ true) ↔ IsActive calendar now sched
unfolding is_schedule_active
is_schedule_active_iff calendar now sched =
    let start = read_by calendar.parse_date sched.date_start in
    let end = read_by calendar.parse_date sched.date_end in
    let time = time_of now.hour now.minute in
    let guards =
      four_guards (is_before_start start now.today) (is_after_end end now.today)
        (is_other_day sched.days now.weekday)
        (is_outside_times calendar sched.time_start sched.time_end time) in
    let times = is_outside_times_iff calendar sched.time_start sched.time_end time in
    (
      λ h.
          let (a, b, c, d) = guards.0 h in
          record {
            started = λ day has.
                (started_iff start now.today).0 a day
                  (read_by-HasDate calendar.parse_date sched.date_start day has);
            not_ended = λ day has.
                (not_ended_iff end now.today).0 b day
                  (read_by-HasDate calendar.parse_date sched.date_end day has);
            on_day = (on_day_iff sched.days now.weekday).0 c;
            in_times = times.0 d;
          },
      λ active. guards.1 (
        (started_iff start now.today).1
            (λ d e. active.started d (HasDate-read_by calendar.parse_date sched.date_start d e)),
        (not_ended_iff end now.today).1
            (λ d e. active.not_ended d (HasDate-read_by calendar.parse_date sched.date_end d e)),
        (on_day_iff sched.days now.weekday).1 active.on_day,
        times.1 active.in_times,
      ),
    )
