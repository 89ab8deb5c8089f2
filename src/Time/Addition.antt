-- ===== src/Time/Addition.antt =====
-- The addition of durations to dates: `Date.__add__` and `Date.__sub__` (neo4j/time/__init__.py).
pub mod Carry
pub mod Months
pub mod Differences
mod Tests
use neo4j_python_driver.Base.{
  ℕ, zero, suc, ◌%◌, not, ◌&&◌, ◌||◌, leb, if◌then◌else◌, Result, ok, err,
}
use neo4j_python_driver.Base.Int.{ℤ, pos, negsuc, pos_part, neg_part, ◌+ℤ◌, ◌-ℤ◌, ltb_ℤ, sub_ℕ}
use neo4j_python_driver.Time.Date.{
  DateError, value_error, overflow_error, new_date, Date, eqb_ℤ, in_calendar, add_days, renumbered,
  renumbering,
}
use neo4j_python_driver.Time.Duration.{
  DurationError, Duration, symmetric_quotient, symmetric_remainder, hydrate_duration, neg_duration,
}

-- The loops `while month > 12` and `while month < 1`, with a bound on their rounds.
unfoldable pub carry_down : ℕ → ℤ → ℤ → ℤ × ℤ
carry_down zero year month = (year, month)
carry_down (suc n) year month =
    let rest = carry_down n (year +ℤ pos 1) (month -ℤ pos 12) in
    if ltb_ℤ (pos 12) month then rest else (year, month)

unfoldable pub carry_up : ℕ → ℤ → ℤ → ℤ × ℤ
carry_up zero year month = (year, month)
carry_up (suc n) year month =
    let rest = carry_up n (year -ℤ pos 1) (month +ℤ pos 12) in
    if ltb_ℤ month (pos 1) then rest else (year, month)

-- Each round changes the month by 12, so its distance from 0 bounds the rounds.
unfoldable pub carried : ℤ → ℤ → ℤ × ℤ
carried year month =
    let (y, m) = carry_down (pos_part month) year month in carry_up (suc (neg_part m)) y m

-- The year and the month that `add_months` sets.
unfoldable pub month_after : Date → ℤ → ℤ × ℤ
month_after d months =
    carried (pos d.year +ℤ symmetric_quotient months 12)
      (pos d.month +ℤ symmetric_remainder months 12)

-- The error for a year that does not exist: `days_in_month` is asked if the day is negative, or else
-- `datetime.date`, which takes the year as a C int of 32 bits.
unfoldable pub no_such_year : ℤ → ℤ → DateError
no_such_year (negsuc k) year = value_error
no_such_year (pos k) year =
    if leb (pos_part year) 2_147_483_647 && leb (neg_part year) 2_147_483_648
    then value_error
    else overflow_error

-- `__calc_ordinal` for a year that may not exist.
unfoldable pub placed : Date → ℤ × ℤ → Result DateError Date
placed d (year, month) =
    if in_calendar year month
    then renumbered (record d { year = pos_part year; month = pos_part month })
    else err (no_such_year d.day year)

-- `add_months`, with the ordinal that is computed after it.
abbrev pub months_added : ℤ → Result DateError Date → Result DateError Date
months_added months (err e) = err e
months_added months (ok d) =
    if eqb_ℤ months (pos 0) then renumbered d else placed d (month_after d months)

-- `self.replace()`
unfoldable pub replaced : Date → Result DateError Date
replaced d = new_date (pos d.year) (pos d.month) d.day

-- Days are added before months.
abbrev pub added_to : Duration → Result DateError Date → Result DateError Date
added_to other (err e) = err e
added_to other (ok d) =
    months_added other.months (if eqb_ℤ other.days (pos 0) then ok d else add_days d other.days)

unfoldable pub date_add : Date → Duration → Result DateError Date
date_add d other =
    if not (eqb_ℤ other.seconds (pos 0)) || not (eqb_ℤ other.nanoseconds (pos 0))
    then err value_error
    else if eqb_ℤ other.months (pos 0) && eqb_ℤ other.days (pos 0)
    then ok d
    else added_to other (replaced d)

abbrev pub added : Date → Result DurationError Duration → Result DateError Date
added d (err e) = err value_error
added d (ok other) = date_add d other

-- `__sub__` of a duration, and of a date.
unfoldable pub date_sub : Date → Duration → Result DateError Date
date_sub d other = added d (neg_duration other)

unfoldable pub date_difference : Date → Date → Result DurationError Duration
date_difference d e = hydrate_duration (pos 0) (sub_ℕ d.ordinal e.ordinal) (pos 0) (pos 0)
