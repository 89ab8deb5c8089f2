-- ===== src/Time/Date.antt =====
-- `Date` (neo4j/time/__init__.py): its constructor, `from_ordinal`, and the addition of days.
-- Arguments are integers of any size. The constants `min` and `max` are 1 and 3652059 as ordinals.
pub mod Ordinal
pub mod RoundTrip
pub mod Shift
use neo4j_python_driver.Base.{
  ℕ, zero, suc, ◌+◌, ◌-◌, Bool, true, false, ◌&&◌, ◌||◌, leb, ltb, ◌==◌, if◌then◌else◌, Result, ok,
  err, Option, none, some,
}
use neo4j_python_driver.Base.Int.{ℤ, pos, negsuc, pos_part, neg_part, ◌+ℤ◌, ltb_ℤ}
use neo4j_python_driver.Time.Calendar.{
  min_year, max_year, days_in_year, days_in_month, native_ordinal,
}

pub data DateError : Type 0 where
  value_error key_error assertion_error overflow_error : DateError

-- `__day` is negative for the last three days of a month, and 0 for `ZeroDate`.
pub record Date : Type 0 where
  pub ordinal : ℕ
  pub year : ℕ
  pub month : ℕ
  pub day : ℤ

abbrev pub zero_date : Date
zero_date = record { ordinal = 0; year = 0; month = 0; day = pos 0 }

abbrev pub eqb_ℤ : ℤ → ℤ → Bool
eqb_ℤ a b = pos_part a + neg_part b == pos_part b + neg_part a

-- `_normalize_day` of a month of `n` days.
unfoldable pub normal_day : ℕ → ℤ → Result DateError ℤ
normal_day n day =
    if eqb_ℤ day (pos n) || eqb_ℤ day (negsuc 0)
    then ok (negsuc 0)
    else if eqb_ℤ day (pos (n - 1)) || eqb_ℤ day (negsuc 1)
    then ok (negsuc 1)
    else if eqb_ℤ day (pos (n - 2)) || eqb_ℤ day (negsuc 2)
    then ok (negsuc 2)
    else if leb 1 (pos_part day) && leb (pos_part day) (n - 3)
    then ok day
    else err value_error

-- `_normalize_day`: `pos_part` is the argument itself once it is in range.
unfoldable pub in_calendar : ℤ → ℤ → Bool
in_calendar year month =
    leb min_year (pos_part year)
    && leb (pos_part year) max_year
    && leb 1 (pos_part month)
    && leb (pos_part month) 12

unfoldable pub normalize_day : ℤ → ℤ → ℤ → Result DateError ℤ
normalize_day year month day =
    if in_calendar year month
    then normal_day (days_in_month (pos_part year) (pos_part month)) day
    else err value_error

-- The property `day`.
unfoldable pub public_day : ℕ → ℕ → ℤ → ℕ
public_day year month (pos n) = n
public_day year month (negsuc k) = days_in_month year month - k

-- `__calc_ordinal` of a date that exists.
unfoldable pub calc_ordinal : ℕ → ℕ → ℤ → ℕ
calc_ordinal year month day = native_ordinal year month (public_day year month day)

abbrev pub dated : ℕ → ℕ → Result DateError ℤ → Result DateError Date
dated year month (err e) = err e
dated year month (ok day) =
    ok (record { ordinal = calc_ordinal year month day; year = year; month = month; day = day })

-- `Date(year, month, day)`
unfoldable pub new_date : ℤ → ℤ → ℤ → Result DateError Date
new_date year month day =
    if eqb_ℤ year (pos 0) && eqb_ℤ month (pos 0) && eqb_ℤ day (pos 0)
    then ok zero_date
    else dated (pos_part year) (pos_part month) (normalize_day year month day)

-- The loops of `from_ordinal`, over the years and months that the tables have left. The tables end at
-- year 9999 and month 12: the lookup after that is a `KeyError`.
unfoldable pub walk_months : ℕ → ℕ → ℕ → ℕ → Result DateError (ℕ × ℕ)
walk_months year zero month day = err key_error
walk_months year (suc left) month day =
    let rest = walk_months year left (suc month) (day - days_in_month year month) in
    if ltb (days_in_month year month) day then rest else ok (month, day)

unfoldable pub walk_years : ℕ → ℕ → ℕ → Result DateError (ℕ × ℕ)
walk_years zero year day = err key_error
walk_years (suc left) year day =
    let rest = walk_years left (suc year) (day - days_in_year year) in
    if ltb (days_in_year year) day then rest else ok (year, day)

-- The end of `from_ordinal`, given the month and the day in it.
abbrev pub at_day : ℕ → ℕ → Result DateError (ℕ × ℕ) → Result DateError Date
at_day ordinal year (err e) = err e
at_day ordinal year (ok (month, day)) = elim (normalize_day (pos year) (pos month) (pos day)) [
  | err e ↦ err e
  | ok normal ↦ ok (record { ordinal = ordinal; year = year; month = month; day = normal })
]

abbrev pub at_year : ℕ → Result DateError (ℕ × ℕ) → Result DateError Date
at_year ordinal (err e) = err e
at_year ordinal (ok (year, day)) = at_day ordinal year (walk_months year 12 1 day)

unfoldable pub from_day : ℕ → ℕ → ℕ → Result DateError Date
from_day ordinal year day =
    if leb 1 day && leb day 3652059
    then at_year ordinal (walk_years (10000 - year) year day)
    else err value_error

-- `from_ordinal` starts from the year of the release, the Unix epoch or year 1.
unfoldable pub from_ordinal : ℤ → Result DateError Date
from_ordinal (negsuc n) = err value_error
from_ordinal (pos ordinal) =
    if ordinal == 0
    then ok zero_date
    else if leb 736695 ordinal
    then from_day ordinal 2018 (ordinal - 736694)
    else if leb 719163 ordinal
    then from_day ordinal 1970 (ordinal - 719162)
    else from_day ordinal 1 ordinal

-- `add_days` in `__add__`: the assertion, the new day if the month does not change, and the copy of the
-- date with its new year, month and day.
abbrev pub has_day : ℤ → Bool
has_day (pos n) = leb 1 n && leb n 28
has_day (negsuc n) = leb n 27

abbrev pub new_day : ℤ → ℤ → Option ℤ
new_day (negsuc k) days = none
new_day (pos k) days =
    let z = pos k +ℤ days in if leb 1 (pos_part z) && leb (pos_part z) 27 then some z else none

abbrev pub copied : Date → Result DateError Date → Result DateError Date
copied d (err e) = err e
copied d (ok f) = ok (record d { year = f.year; month = f.month; day = f.day })

abbrev pub moved : Option ℤ → Date → ℤ → Result DateError Date
moved (some z) d days = ok (record d { day = z })
moved none d days = copied d (from_ordinal (pos d.ordinal +ℤ days))

unfoldable pub add_days : Date → ℤ → Result DateError Date
add_days d days = if has_day d.day then moved (new_day d.day days) d days else err assertion_error

-- The ordinal is computed anew, for which `datetime.date` tests the date.
unfoldable pub renumbered : Date → Result DateError Date
renumbered d =
    let day = public_day d.year d.month d.day in
    if in_calendar (pos d.year) (pos d.month) && leb 1 day && leb day (days_in_month d.year d.month)
    then ok (record d { ordinal = native_ordinal d.year d.month day })
    else err value_error

abbrev pub renumbering : Result DateError Date → Result DateError Date
renumbering (err e) = err e
renumbering (ok d) = renumbered d

-- `__add__` of a duration of days, at least one, from the copy of the date on.
unfoldable pub date_add_days : Date → ℤ → Result DateError Date
date_add_days d days = renumbering (add_days d days)
