-- ===== src/Common/Dates.antt =====
-- The helpers for dates (src/common/utils/date.util.ts), over date-fns as a parameter. The present time is an
-- argument; the names that the file hands on from date-fns are not modelled.
pub mod Durations
use enterprise_system.Prelude.{
  ℕ, zero, suc, ◌+◌, ◌-◌, ◌%◌, Bool, true, false, ◌&&◌, Option, none, some, List, [], ◌∷◌, ◌++◌,
  ltb, if◌then◌else◌, Text, codes, text_eq, digits, Except, ok, throw,
}
use enterprise_system.Prelude.Dict.{Dict, lookup}

-- A whole number of JavaScript.
pub data ℤ : Type 0 where
  pos : ℕ → ℤ
  negsuc : ℕ → ℤ

-- `Math.abs`
unfoldable pub abs : ℤ → ℕ
abs (pos n) = n
abs (negsuc n) = suc n

-- Minus a number.
abbrev pub minus : ℕ → ℤ
minus zero = pos 0
minus (suc n) = negsuc n

-- `a % m`, which has the sign of a.
unfoldable pub rem : ℤ → ℕ → ℤ
rem (pos n) m = pos (n % m)
rem (negsuc n) m = minus (suc n % m)

-- `n > 0`
unfoldable pub is_positive : ℤ → Bool
is_positive (pos n) = ltb 0 n
is_positive (negsuc n) = false

-- The calls of date-fns; the first argument of a difference is the later date.
pub record DateFns (D : Type 0) : Type 0 where
  pub parse_iso : Text → D
  pub is_valid : D → Bool
  pub start_of_day : D → D
  pub to_iso : D → Text
  pub format : D → Text → Text
  pub difference_in_days : D → D → ℤ
  pub difference_in_hours : D → D → ℤ
  pub difference_in_minutes : D → D → ℤ
  pub difference_in_seconds : D → D → ℤ
  pub is_before : D → D → Bool
  pub is_after : D → D → Bool
  pub add_days : D → ℕ → D
  pub sub_days : D → ℕ → D

-- `Date | string`
pub data DateInput (D : Type 0) : Type 0 where
  date : D → DateInput D
  iso : Text → DateInput D

pub record Duration : Type 0 where
  pub days : ℕ
  pub hours : ℕ
  pub minutes : ℕ
  pub seconds : ℕ
  pub total_seconds : ℕ
  pub total_minutes : ℕ
  pub total_hours : ℕ
  pub total_days : ℕ

-- The errors, by their messages up to the value that is invalid.
pub data DateError : Type 0 where
  invalid_date invalid_dates : DateError
  invalid_format : Text → DateError

unfoldable pub format_map : Dict Text
format_map =
    (codes "iso", codes "yyyy-MM-dd'T'HH:mm:ss'Z'")
    ∷ (codes "short", codes "yyyy-MM-dd")
    ∷ (codes "long", codes "MMMM d, yyyy")
    ∷ (codes "datetime", codes "yyyy-MM-dd HH:mm:ss")
    ∷ (codes "time", codes "HH:mm:ss")
    ∷ []

abbrev pub or_pattern : Text → Option Text → Text
or_pattern format none = format
or_pattern format (some pattern) = pattern

module _ {D : Type 0} (fns : DateFns D) where
  -- `typeof date === 'string' ? parseISO(date) : date`
  unfoldable pub read_date : DateInput D → D
  read_date (date d) = d
  read_date (iso s) = fns.parse_iso s

  abbrev checked : {A : Type 0} → D → A → Except DateError A
  checked d a = if fns.is_valid d then ok a else throw invalid_date

  unfoldable pub to_utc_date : DateInput D → Except DateError D
  unfolding read_date
  to_utc_date input = let d = read_date input in checked d (fns.start_of_day d)

  unfoldable pub to_utc_string : DateInput D → Except DateError Text
  unfolding read_date
  to_utc_string input = let d = read_date input in checked d (fns.to_iso d)

  unfoldable pub parse_date : Text → Option D
  parse_date value = let d = fns.parse_iso value in if fns.is_valid d then some d else none

  unfoldable pub parse_date_or_throw : Text → Except DateError D
  unfolding parse_date
  parse_date_or_throw value = elim (parse_date value) [
    | none ↦ throw (invalid_format value)
    | some d ↦ ok d
  ]

  -- `FORMAT_MAP[format] ?? format`
  unfoldable pub format_date : DateInput D → Text → Except DateError Text
  unfolding read_date lookup format_map
  format_date input format =
      let d = read_date input in
      checked d (fns.format d (or_pattern format (lookup format format_map)))

  abbrev pub duration_of : D → D → Duration
  duration_of s e = record {
    days = abs (fns.difference_in_days e s);
    hours = abs (rem (fns.difference_in_hours e s) 24);
    minutes = abs (rem (fns.difference_in_minutes e s) 60);
    seconds = abs (rem (fns.difference_in_seconds e s) 60);
    total_seconds = abs (fns.difference_in_seconds e s);
    total_minutes = abs (fns.difference_in_minutes e s);
    total_hours = abs (fns.difference_in_hours e s);
    total_days = abs (fns.difference_in_days e s);
  }

  unfoldable pub duration_between : DateInput D → DateInput D → Except DateError Duration
  unfolding read_date abs rem
  duration_between start end =
      let s = read_date start in
      let e = read_date end in
      if fns.is_valid s && fns.is_valid e then ok (duration_of s e) else throw invalid_dates

  unfoldable pub is_expired : D → DateInput D → Bool
  unfolding read_date
  is_expired now input = fns.is_before (read_date input) now

  unfoldable pub is_within_days : D → DateInput D → ℕ → Bool
  unfolding read_date
  is_within_days now input days =
      let d = read_date input in
      fns.is_after d (fns.sub_days now days) && fns.is_before d (fns.add_days now days)

  -- `n > 0 ? `${n}m ago` : `in ${Math.abs(n)}m``
  unfoldable pub ago : ℤ → Text → Text
  unfolding is_positive abs digits
  ago n unit =
      let count = digits (abs n) (abs n) in
      if is_positive n then count ++ unit ++ codes " ago" else codes "in " ++ count ++ unit

  -- `relativeTime` of a valid date.
  unfoldable pub relative_time : D → DateInput D → Except DateError Text
  unfolding read_date abs ago format_date
  relative_time now input =
      let d = read_date input in
      if ltb (abs (fns.difference_in_seconds now d)) 60
      then ok (codes "just now")
      else if ltb (abs (fns.difference_in_minutes now d)) 60
      then ok (ago (fns.difference_in_minutes now d) (codes "m"))
      else if ltb (abs (fns.difference_in_hours now d)) 24
      then ok (ago (fns.difference_in_hours now d) (codes "h"))
      else if ltb (abs (fns.difference_in_days now d)) 30
      then ok (ago (fns.difference_in_days now d) (codes "d"))
      else format_date (date d) (codes "short")

-- `parts.join(' ')`
unfoldable pub join_parts : List Text → Text
join_parts [] = []
join_parts (p ∷ []) = p
join_parts (p ∷ q ∷ ps) = p ++ b' ' ∷ join_parts (q ∷ ps)

-- `if (n > 0) parts.push(`${n}u`)`
unfoldable pub part : ℕ → Text → List Text
unfolding digits
part n unit = if ltb 0 n then (digits n n ++ unit) ∷ [] else []

-- The parts with the seconds, which are there if nothing else is.
unfoldable pub with_seconds : ℕ → List Text → List Text
unfolding digits part
with_seconds n [] = (digits n n ++ codes "s") ∷ []
with_seconds n (p ∷ ps) = (p ∷ ps) ++ part n (codes "s")

unfoldable pub format_duration : Duration → Text
unfolding join_parts part with_seconds
format_duration d = join_parts (
    with_seconds d.seconds
      (part d.days (codes "d") ++ part d.hours (codes "h") ++ part d.minutes (codes "m")))
