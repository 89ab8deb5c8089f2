-- ===== src/Time/Clock.antt =====
-- `ClockTime`, `Time` and `DateTime` (neo4j/time/__init__.py) without a time zone, and how they are
-- hydrated and dehydrated (neo4j/_codec/hydration/v1/temporal.py). Arguments are integers.
pub mod Floor
pub mod Times
pub mod DateTimes
use neo4j_python_driver.Base.{
  ℕ, suc, ◌+◌, ◌-◌, ◌*◌, ◌/◌, ◌%◌, Bool, not, ◌&&◌, ltb, if◌then◌else◌, Result, ok, err,
}
use neo4j_python_driver.Base.Int.{ℤ, pos, negsuc, pos_part, neg_part, ◌+ℤ◌, ◌-ℤ◌, ◌*ℤ◌, ltb_ℤ}
use neo4j_python_driver.Packstream.Value.{mod_ℤ}
use neo4j_python_driver.Time.Date.{Date, DateError, value_error, from_ordinal}

-- Python's `z // m`, which rounds down; `mod_ℤ` is the remainder.
unfoldable pub div_ℤ : ℤ → ℕ → ℤ
div_ℤ (pos n) m = pos (n / m)
div_ℤ (negsuc n) m = negsuc (n / m)

abbrev pub nano_seconds : ℕ
nano_seconds = 1_000_000_000

pub record ClockTime : Type 0 where
  pub seconds : ℤ
  pub nanoseconds : ℕ

-- `ClockTime(seconds, nanoseconds)`
unfoldable pub new_clock_time : ℤ → ℤ → ClockTime
new_clock_time s ns =
    let total = pos nano_seconds *ℤ s +ℤ ns in
    record { seconds = div_ℤ total nano_seconds; nanoseconds = mod_ℤ total nano_seconds }

unfoldable pub sub_clock_time : ClockTime → ClockTime → ClockTime
sub_clock_time a b =
    new_clock_time (a.seconds -ℤ b.seconds) (pos a.nanoseconds -ℤ pos b.nanoseconds)

pub record Time : Type 0 where
  pub ticks : ℕ
  pub hour : ℕ
  pub minute : ℕ
  pub second : ℕ
  pub nanosecond : ℕ

-- `0 <= z < n`
unfoldable pub is_below : ℕ → ℤ → Bool
is_below n z = not (ltb_ℤ z (pos 0)) && ltb_ℤ z (pos n)

-- `Time(hour, minute, second, nanosecond)`. All that `__normalize_nanosecond` raises is a
-- `ValueError`, so the order of its tests does not show.
abbrev pub time_of : ℕ → ℕ → ℕ → ℕ → Time
time_of h m s ns = record {
  ticks = 3_600_000_000_000 * h + 60_000_000_000 * m + 1_000_000_000 * s + ns;
  hour = h;
  minute = m;
  second = s;
  nanosecond = ns;
}

unfoldable pub new_time : ℤ → ℤ → ℤ → ℤ → Result DateError Time
new_time h m s ns =
    if is_below 24 h && is_below 60 m && is_below 60 s && is_below nano_seconds ns
    then ok (time_of (pos_part h) (pos_part m) (pos_part s) (pos_part ns))
    else err value_error

unfoldable pub from_ticks : ℤ → Result DateError Time
from_ticks ticks =
    if is_below 86_400_000_000_000 ticks
    then ok (record {
      ticks = pos_part ticks;
      hour = pos_part ticks / nano_seconds / 60 / 60;
      minute = pos_part ticks / nano_seconds / 60 % 60;
      second = pos_part ticks / nano_seconds % 60;
      nanosecond = pos_part ticks % nano_seconds;
    })
    else err value_error

-- `hydrate_time`, and the number that `dehydrate_time` sends.
unfoldable pub hydrate_time : ℤ → Result DateError Time
hydrate_time ns =
    let seconds = div_ℤ ns nano_seconds in
    let minutes = div_ℤ seconds 60 in
    new_time (div_ℤ minutes 60) (pos (mod_ℤ minutes 60)) (pos (mod_ℤ seconds 60))
      (pos (mod_ℤ ns nano_seconds))

unfoldable pub dehydrate_time : Time → ℕ
dehydrate_time t = t.ticks

pub record DateTime : Type 0 where
  pub date : Date
  pub time : Time

-- `DateTime.to_clock_time`
unfoldable pub to_clock_time : DateTime → ClockTime
to_clock_time dt =
    new_clock_time
      (pos 86400 *ℤ (pos dt.date.ordinal -ℤ pos 1) +ℤ pos (dt.time.ticks / nano_seconds))
      (pos (dt.time.ticks % nano_seconds))

abbrev pub combine : Result DateError Date → Result DateError Time → Result DateError DateTime
combine (err e) t = err e
combine (ok d) (err e) = err e
combine (ok d) (ok t) = ok (record { date = d; time = t })

-- The ordinal of 1970-01-01.
abbrev pub unix_epoch_ordinal : ℕ
unix_epoch_ordinal = 719163

unfoldable pub hydrate_datetime : ℤ → ℤ → Result DateError DateTime
hydrate_datetime seconds nanoseconds =
    let minutes = div_ℤ seconds 60 in
    let hours = div_ℤ minutes 60 in
    combine (from_ordinal (pos unix_epoch_ordinal +ℤ div_ℤ hours 24)) (
      new_time (pos (mod_ℤ hours 24)) (pos (mod_ℤ minutes 60)) (pos (mod_ℤ seconds 60)) nanoseconds)

-- `zone_epoch.to_clock_time()`
unfoldable pub epoch_clock_time : ClockTime
epoch_clock_time = new_clock_time (pos 86400 *ℤ (pos unix_epoch_ordinal -ℤ pos 1)) (pos 0)

-- The seconds and nanoseconds that `dehydrate_datetime` sends.
unfoldable pub dehydrate_datetime : DateTime → ClockTime
dehydrate_datetime dt = sub_clock_time (to_clock_time dt) epoch_clock_time

-- `hydrate_date` and `dehydrate_date`
unfoldable pub hydrate_date : ℤ → Result DateError Date
hydrate_date days = from_ordinal (pos unix_epoch_ordinal +ℤ days)

unfoldable pub dehydrate_date : Date → ℤ
dehydrate_date d = pos d.ordinal -ℤ pos unix_epoch_ordinal
