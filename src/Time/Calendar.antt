-- ===== src/Time/Calendar.antt =====
-- The calendar tables of neo4j/time/__init__.py, and what the driver takes from the module `datetime`
-- of Python: the day number of a date of the proleptic Gregorian calendar.
use neo4j_python_driver.Base.{
  ℕ, zero, suc, ◌+◌, ◌-◌, ◌*◌, ◌/◌, ◌%◌, Bool, true, false, not, ◌||◌, ◌==◌, if◌then◌else◌,
}

abbrev pub min_year : ℕ
min_year = 1

abbrev pub max_year : ℕ
max_year = 9999

unfoldable pub is_leap_year : ℕ → Bool
is_leap_year year =
    if not (year % 4 == 0) then false else if not (year % 100 == 0) then true else year % 400 == 0

unfoldable pub days_in_year : ℕ → ℕ
unfolding is_leap_year
days_in_year year = if is_leap_year year then 366 else 365

unfoldable pub days_in_month : ℕ → ℕ → ℕ
unfolding is_leap_year
days_in_month year month =
    if (month == 9) || (month == 4) || (month == 6) || (month == 11)
    then 30
    else if not (month == 2)
    then 31
    else if is_leap_year year
    then 29
    else 28

-- The days of the years before `year`, and of the months of the year before `month`.
unfoldable pub days_before_year : ℕ → ℕ
days_before_year year = (year - 1) * 365 + (year - 1) / 4 - (year - 1) / 100 + (year - 1) / 400

-- Over the number of whole months.
unfoldable pub days_of_months : ℕ → ℕ → ℕ
days_of_months year zero = 0
days_of_months year (suc n) = days_of_months year n + days_in_month year (suc n)

-- `datetime.date(year, month, day).toordinal()` of a date that exists.
unfoldable pub native_ordinal : ℕ → ℕ → ℕ → ℕ
native_ordinal year month day = days_before_year year + days_of_months year (month - 1) + day
