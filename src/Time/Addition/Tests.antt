-- ===== src/Time/Addition/Tests.antt =====
-- The addition of months at concrete dates.
use neo4j_python_driver.Base.{◌≡◌, refl, arith, ok, err}
use neo4j_python_driver.Base.Int.{ℤ, pos, negsuc, ◌+ℤ◌, ◌-ℤ◌, ◌*ℤ◌}
use neo4j_python_driver.Time.Calendar.{
  is_leap_year, days_in_month, days_before_year, days_of_months, native_ordinal,
}
use neo4j_python_driver.Time.Date.{
  value_error, overflow_error, new_date, normalize_day, normal_day, Date, in_calendar, public_day,
  calc_ordinal, renumbered,
}
use neo4j_python_driver.Time.Date.Ordinal.{IsDate}
use neo4j_python_driver.Time.Duration.{
  Duration, symmetric_quotient, symmetric_remainder, is_int64, borrow, average_seconds, in_range,
  checked, make_duration, all_nanoseconds, new_duration, hydrate_duration, neg_duration,
}
use neo4j_python_driver.Time.Addition.{
  carry_down, carry_up, carried, month_after, no_such_year, placed, replaced, date_add, date_sub,
}
use neo4j_python_driver.Time.Addition.Months.{Moves, date_add-Moves}

abbrev january : Date
january = record { ordinal = 738916; year = 2024; month = 1; day = negsuc 0 }

january-IsDate : IsDate january
unfolding calc_ordinal public_day native_ordinal days_before_year days_of_months days_in_month
    is_leap_year
january-IsDate = record {
  in_year = (omega arith, omega arith);
  in_month = (omega arith, omega arith);
  in_day = omega arith;
  numbered = refl;
}

abbrev months_of : ℤ → Duration
months_of n = record { months = n; days = pos 0; seconds = pos 0; nanoseconds = pos 0 }

-- The last day stays the last day.
one_month :
    date_add january (months_of (pos 1))
    ≡ ok (record { ordinal = 738945; year = 2024; month = 2; day = negsuc 0 })
unfolding date_add replaced new_date normalize_day normal_day no_such_year placed month_after
    carried carry_down carry_up symmetric_quotient symmetric_remainder renumbered in_calendar
    public_day native_ordinal days_before_year days_of_months days_in_month is_leap_year ◌+ℤ◌ ◌-ℤ◌
one_month = refl

past_the_end : date_add january (months_of (pos 95_712)) ≡ err value_error
unfolding date_add replaced new_date normalize_day normal_day no_such_year placed month_after
    carried carry_down carry_up symmetric_quotient symmetric_remainder in_calendar days_in_month
    ◌+ℤ◌ ◌-ℤ◌
past_the_end = refl

-- A year for which `datetime.date` raises an `OverflowError`, as the day is not among the last.
abbrev fifteenth : Date
fifteenth = record { ordinal = 738900; year = 2024; month = 1; day = pos 15 }

far_too_late : date_add fifteenth (months_of (pos 100_000_000_000)) ≡ err overflow_error
unfolding date_add replaced new_date normalize_day normal_day no_such_year placed month_after
    carried carry_down carry_up symmetric_quotient symmetric_remainder in_calendar days_in_month
    is_leap_year ◌+ℤ◌ ◌-ℤ◌
far_too_late = refl

two_months_before :
    date_sub january (months_of (pos 2))
    ≡ ok (record { ordinal = 738854; year = 2023; month = 11; day = negsuc 0 })
unfolding date_sub neg_duration hydrate_duration new_duration make_duration checked in_range
    is_int64 average_seconds borrow all_nanoseconds date_add replaced new_date normalize_day
    normal_day placed month_after carried carry_down carry_up symmetric_quotient symmetric_remainder
    renumbered in_calendar public_day native_ordinal days_before_year days_of_months days_in_month
    is_leap_year ◌+ℤ◌ ◌-ℤ◌ ◌*ℤ◌
two_months_before = refl

date_add-Moves_example : Moves january (negsuc 12) (date_add january (months_of (negsuc 12)))
date_add-Moves_example =
    date_add-Moves january (months_of (negsuc 12)) january-IsDate refl refl refl
