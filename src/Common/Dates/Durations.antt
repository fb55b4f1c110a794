-- ===== src/Common/Dates/Durations.antt =====
-- That the parts of a duration make up the whole.
use enterprise_system.Prelude.{
  ℕ, zero, suc, ◌+◌, ◌-◌, ◌*◌, ◌/◌, ◌%◌, ◌<◌, ◌≡◌, true, ok, refl, arith,
}
use enterprise_system.Common.Dates.{
  ℤ, pos, negsuc, abs, minus, rem, DateFns, DateInput, Duration, read_date, duration_of,
  duration_between,
}

-- The time between two dates in milliseconds, whichever comes first.
abbrev pub apart : {D : Type 0} → (D → ℕ) → D → D → ℕ
apart time a b = (time a - time b) + (time b - time a)

-- What date-fns documents of its differences, for dates with their times in milliseconds, where no change of the
-- clocks lies between them: the number of full units.
pub record IsExact {D : Type 0} (fns : DateFns D) (time : D → ℕ) (a b : D) : Type 0 where
  pub full_days : abs (fns.difference_in_days a b) ≡ apart time a b / 86400000
  pub full_hours : abs (fns.difference_in_hours a b) ≡ apart time a b / 3600000
  pub full_minutes : abs (fns.difference_in_minutes a b) ≡ apart time a b / 60000
  pub full_seconds : abs (fns.difference_in_seconds a b) ≡ apart time a b / 1000

abs-minus : (n : ℕ) → abs (minus n) ≡ n
unfolding abs
abs-minus zero = refl
abs-minus (suc n) = refl

abs-rem : (z : ℤ) (m : ℕ) → abs (rem z m) ≡ abs z % m
unfolding abs rem
abs-rem (pos n) m = refl
abs-rem (negsuc n) m = abs-minus (suc n % m)

-- The days, hours, minutes and seconds of the duration between two valid dates, in either order, are its number
-- of full seconds, with fewer than 24 hours, 60 minutes and 60 seconds. The condition is that date-fns counts
-- full units between the dates.
pub duration_between-total_seconds :
    {D : Type 0} (fns : DateFns D) (time : D → ℕ) (start end : DateInput D)
    → fns.is_valid (read_date fns start) ≡ true
    → fns.is_valid (read_date fns end) ≡ true
    → IsExact fns time (read_date fns end) (read_date fns start)
    → (d : Duration) × (duration_between fns start end ≡ ok d)
      × (d.days * 86400 + d.hours * 3600 + d.minutes * 60 + d.seconds ≡ d.total_seconds)
      × (d.hours < 24)
      × (d.minutes < 60)
      × (d.seconds < 60)
unfolding duration_between
duration_between-total_seconds fns time start end p q law =
    let s = read_date fns start in
    let e = read_date fns end in
    let h = abs-rem (fns.difference_in_hours e s) 24 in
    let m = abs-rem (fns.difference_in_minutes e s) 60 in
    let c = abs-rem (fns.difference_in_seconds e s) 60 in
    let days = law.full_days in
    let hours = law.full_hours in
    let minutes = law.full_minutes in
    let seconds = law.full_seconds in
    (duration_of fns s e, rw p (rw q refl), omega arith, omega arith, omega arith, omega arith)
