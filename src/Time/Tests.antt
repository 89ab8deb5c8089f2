-- ===== src/Time/Tests.antt =====
-- The temporal types on inputs of their own.
use neo4j_python_driver.Base.{◌≡◌, refl, ◌↔◌, arith, ok, err}
use neo4j_python_driver.Base.Int.{pos, negsuc, ◌+ℤ◌, ◌-ℤ◌, ◌*ℤ◌}
use neo4j_python_driver.Packstream.Value.{mod_ℤ}
use neo4j_python_driver.Time.Calendar.{
  is_leap_year, days_in_year, days_in_month, days_before_year, days_of_months, native_ordinal,
}
use neo4j_python_driver.Time.Date.{
  add_days, renumbered, date_add_days, value_error, key_error, Date, normal_day, in_calendar,
  normalize_day, public_day, calc_ordinal, new_date, walk_months, walk_years, from_day,
  from_ordinal,
}
use neo4j_python_driver.Time.Date.Ordinal.{IsDate, Found, from_ordinal-Found}
use neo4j_python_driver.Time.Date.RoundTrip.{day_of, from_ordinal-new_date, from_ordinal_above}
use neo4j_python_driver.Time.Date.Shift.{Same, date_add_days-Same}
use neo4j_python_driver.Time.Duration.{
  out_of_range, Duration, symmetric_quotient, symmetric_remainder, is_int64, borrow,
  average_seconds, in_range, checked, make_duration, Parts, no_parts, all_nanoseconds, new_duration,
  hydrate_duration, add_duration, sub_duration, dehydrate_duration,
}
use neo4j_python_driver.Time.Duration.Sums.{IsDuration, Proper}
use neo4j_python_driver.Time.Duration.Bounds.{Amounts, Fits, new_duration_iff}
use neo4j_python_driver.Time.Duration.Algebra.{
  hydrate_duration-dehydrate_duration, sub_duration-add_duration,
}
use neo4j_python_driver.Time.Clock.{
  div_ℤ, Time, is_below, new_time, from_ticks, hydrate_time, dehydrate_time, DateTime,
  hydrate_datetime, dehydrate_datetime,
}
use neo4j_python_driver.Time.Clock.Times.{hydrate_time_lem}
use neo4j_python_driver.Time.Clock.DateTimes.{hydrate_datetime_lem}

-- The last day of a leap year's February is kept as -1.
leap_day :
    new_date (pos 2024) (pos 2) (pos 29)
    ≡ ok (record { ordinal = 738945; year = 2024; month = 2; day = negsuc 0 })
unfolding new_date normalize_day in_calendar normal_day calc_ordinal native_ordinal public_day
    days_in_month is_leap_year days_before_year days_of_months
leap_day = refl

no_leap_day : new_date (pos 2023) (pos 2) (pos 29) ≡ err value_error
unfolding new_date normalize_day in_calendar normal_day days_in_month is_leap_year
no_leap_day = refl

epoch_day :
    from_ordinal (pos 719163)
    ≡ ok (record { ordinal = 719163; year = 1970; month = 1; day = pos 1 })
unfolding from_ordinal from_day walk_years walk_months normalize_day in_calendar normal_day
    days_in_month days_in_year is_leap_year
epoch_day = refl

abbrev sum : Duration
sum = record {
  months = pos 12;
  days = negsuc 0;
  seconds = negsuc 1;
  nanoseconds = negsuc 499_999_999;
}

abbrev sum_parts : Parts
sum_parts = record no_parts {
  years = pos 1;
  days = negsuc 0;
  minutes = pos 1;
  seconds = negsuc 61;
  milliseconds = negsuc 499;
}

made_sum : new_duration sum_parts ≡ ok sum
unfolding new_duration make_duration checked in_range is_int64 average_seconds borrow
    all_nanoseconds symmetric_quotient symmetric_remainder ◌+ℤ◌ ◌-ℤ◌ ◌*ℤ◌
made_sum = refl

too_long :
    hydrate_duration (pos 0) (pos 0) (pos 9_223_372_036_854_775_808) (pos 0) ≡ err out_of_range
unfolding hydrate_duration new_duration make_duration checked in_range is_int64 average_seconds
    borrow all_nanoseconds symmetric_quotient symmetric_remainder ◌+ℤ◌ ◌-ℤ◌ ◌*ℤ◌
too_long = refl

sum-IsDuration : IsDuration sum
unfolding in_range is_int64 average_seconds borrow ◌+ℤ◌ ◌-ℤ◌ ◌*ℤ◌
sum-IsDuration = record { proper = (omega arith, refl); ranged = refl }

before_epoch :
    hydrate_datetime (negsuc 0) (pos 7)
    ≡ ok (record {
      date = record { ordinal = 719162; year = 1969; month = 12; day = negsuc 0 };
      time = record {
        ticks = 86_399_000_000_007;
        hour = 23;
        minute = 59;
        second = 59;
        nanosecond = 7;
      };
    })
unfolding hydrate_datetime from_ordinal from_day walk_years walk_months normalize_day in_calendar
    normal_day days_in_month days_in_year is_leap_year new_time is_below div_ℤ mod_ℤ ◌+ℤ◌
before_epoch = refl

from_ordinal-Found_example : Found 719163 (from_ordinal (pos 719163))
from_ordinal-Found_example = from_ordinal-Found 719163 (omega arith) (omega arith)

from_ordinal-new_date_example :
    (d : Date) × (new_date (pos 2024) (pos 2) (pos 29) ≡ ok d)
    × (d.year ≡ 2024)
    × (d.month ≡ 2)
    × (day_of d ≡ 29)
    × (from_ordinal (pos d.ordinal) ≡ ok d)
unfolding days_in_month is_leap_year
from_ordinal-new_date_example =
    from_ordinal-new_date 2024 2 29 (omega arith, omega arith) (omega arith, omega arith)
      (omega arith, omega arith)

from_ordinal_above_example : from_ordinal (pos 4000000) ≡ err key_error
from_ordinal_above_example = from_ordinal_above 4000000 (omega arith)

new_duration_iff_example :
    (new_duration sum_parts ≡ ok sum)
    ↔ (Amounts sum_parts sum × Proper sum.seconds sum.nanoseconds × Fits sum)
new_duration_iff_example = new_duration_iff sum_parts sum

hydrate_duration-dehydrate_duration_example :
    hydrate_duration (pos 12) (negsuc 0) (negsuc 1) (negsuc 499_999_999) ≡ ok sum
unfolding dehydrate_duration
hydrate_duration-dehydrate_duration_example = hydrate_duration-dehydrate_duration sum sum-IsDuration

abbrev doubled : Duration
doubled = record { months = pos 24; days = negsuc 1; seconds = negsuc 4; nanoseconds = pos 0 }

doubling : add_duration sum sum ≡ ok doubled
unfolding add_duration hydrate_duration new_duration make_duration checked in_range is_int64
    average_seconds borrow all_nanoseconds symmetric_quotient symmetric_remainder ◌+ℤ◌ ◌-ℤ◌ ◌*ℤ◌
doubling = refl

sub_duration-add_duration_example : sub_duration doubled sum ≡ ok sum
sub_duration-add_duration_example =
    sub_duration-add_duration sum sum doubled sum-IsDuration doubling

hydrate_time_lem_example :
    (t : Time) × (from_ticks (pos 86_399_000_000_007) ≡ ok t)
    × (hydrate_time (pos 86_399_000_000_007) ≡ ok t)
    × (dehydrate_time t ≡ 86_399_000_000_007)
    × (new_time (pos t.hour) (pos t.minute) (pos t.second) (pos t.nanosecond) ≡ ok t)
hydrate_time_lem_example = hydrate_time_lem 86_399_000_000_007 (omega arith)

hydrate_datetime_lem_example :
    (dt : DateTime) × (hydrate_datetime (negsuc 0) (pos 7) ≡ ok dt)
    × IsDate dt.date
    × (dehydrate_datetime dt ≡ record { seconds = negsuc 0; nanoseconds = 7 })
unfolding div_ℤ
hydrate_datetime_lem_example =
    hydrate_datetime_lem (negsuc 0) 7 (omega arith) (omega arith, omega arith)

abbrev february : Date
february = record { ordinal = 738571; year = 2023; month = 2; day = pos 20 }

february-IsDate : IsDate february
unfolding calc_ordinal public_day native_ordinal days_before_year days_of_months days_in_month
    is_leap_year
february-IsDate = record {
  in_year = (omega arith, omega arith);
  in_month = (omega arith, omega arith);
  in_day = (omega arith, omega arith);
  numbered = refl;
}

-- The day stays positive, where `Date(2023, 2, 26)` keeps it as -3.
not_normalized :
    date_add_days february (pos 6)
    ≡ ok (record { ordinal = 738577; year = 2023; month = 2; day = pos 26 })
unfolding date_add_days add_days renumbered in_calendar public_day native_ordinal days_before_year
    days_of_months days_in_month is_leap_year ◌+ℤ◌
not_normalized = refl

date_add_days-Same_example :
    (e : Date) × (f : Date) × (date_add_days february (pos 9) ≡ ok e)
    × (from_ordinal (pos february.ordinal +ℤ pos 9) ≡ ok f)
    × Same e f
date_add_days-Same_example =
    date_add_days-Same february (pos 9) february-IsDate (omega arith, omega arith)
