-- ===== src/Tests/Days.antt =====
-- Dates that are numbers of milliseconds.
use enterprise_system.Prelude.{
  ℕ, ◌+◌, ◌-◌, ◌*◌, ◌/◌, ◌<◌, ◌≡◌, true, ltb, leb, if◌then◌else◌, codes, ok, refl,
}
use enterprise_system.Common.Dates.{
  ℤ, pos, abs, minus, DateFns, date, Duration, duration_between, format_duration, relative_time,
  read_date,
}
use enterprise_system.Common.Dates.Durations.{IsExact, duration_between-total_seconds}

-- The full units from a date to a later one, or minus those from the later to the earlier.
abbrev full : ℕ → ℕ → ℕ → ℤ
full unit a b = if leb b a then pos ((a - b) / unit) else minus ((b - a) / unit)

abbrev fns : DateFns ℕ
fns = record {
  parse_iso = λ s. 0;
  is_valid = λ d. true;
  start_of_day = λ d. d / 86400000 * 86400000;
  to_iso = λ d. codes "1970-01-01T00:00:00.000Z";
  format = λ d pattern. pattern;
  difference_in_days = full 86400000;
  difference_in_hours = full 3600000;
  difference_in_minutes = full 60000;
  difference_in_seconds = full 1000;
  is_before = ltb;
  is_after = λ a b. ltb b a;
  add_days = λ d n. d + n * 86400000;
  sub_days = λ d n. d - n * 86400000;
}

-- One day, two hours, three minutes and four seconds.
abbrev later : ℕ
later = 93784000

exact : IsExact fns (λ n. n) later 0
unfolding abs
exact = record { full_days = refl; full_hours = refl; full_minutes = refl; full_seconds = refl }

duration_between-total_seconds_example :
    (d : Duration) × (duration_between fns (date 0) (date later) ≡ ok d)
    × (d.days * 86400 + d.hours * 3600 + d.minutes * 60 + d.seconds ≡ d.total_seconds)
    × (d.hours < 24)
    × (d.minutes < 60)
    × (d.seconds < 60)
unfolding read_date
duration_between-total_seconds_example =
    duration_between-total_seconds fns (λ n. n) (date 0) (date later) refl refl exact

abbrev parts : Duration
parts = record {
  days = 1;
  hours = 2;
  minutes = 3;
  seconds = 4;
  total_seconds = 93784;
  total_minutes = 1563;
  total_hours = 26;
  total_days = 1;
}

formatted : format_duration parts ≡ codes "1d 2h 3m 4s"
unfolding format_duration
formatted = refl

ahead : relative_time fns 0 (date later) ≡ ok (codes "in 1d")
unfolding relative_time
ahead = refl
