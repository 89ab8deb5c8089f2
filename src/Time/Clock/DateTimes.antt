-- ===== src/Time/Clock/DateTimes.antt =====
-- Points in time without a time zone.
use neo4j_python_driver.Base.{
  ℕ, ◌+◌, ◌-◌, ◌*◌, ◌/◌, ◌%◌, ◌≤◌, ◌<◌, ◌≡◌, refl, ◌∙◌, sym, ap, arith, ok,
}
use neo4j_python_driver.Base.Int.{
  ℤ, pos, negsuc, pos_part, neg_part, ◌+ℤ◌, ◌-ℤ◌, ◌*ℤ◌, +ℤ_parts, -ℤ_parts, eq_of_parts,
}
use neo4j_python_driver.Packstream.Value.{mod_ℤ}
use neo4j_python_driver.Time.Duration.Sums.{*ℤ_parts}
use neo4j_python_driver.Time.Date.{Date}
use neo4j_python_driver.Time.Date.Ordinal.{IsDate, Found, from_ordinal-Found}
use neo4j_python_driver.Time.Clock.{
  div_ℤ, nano_seconds, sub_clock_time, Time, time_of, new_time, DateTime, to_clock_time,
  unix_epoch_ordinal, hydrate_datetime, epoch_clock_time, dehydrate_datetime, hydrate_date,
  dehydrate_date,
}
use neo4j_python_driver.Time.Clock.Floor.{div-mod_parts, mod_ℤ-below, new_clock_time_lem}
use neo4j_python_driver.Time.Clock.Times.{new_time_lem}

-- An integer that is not negative.
as_pos : (z : ℤ) → neg_part z ≡ 0 → pos (pos_part z) ≡ z
as_pos z h = eq_of_parts _ _ (omega (arith, h))

-- The days since the epoch that fall into the range of ordinals.
abbrev pub InRange : ℤ → Type 0
InRange days =
    (neg_part days + 1 ≤ pos_part days + unix_epoch_ordinal)
    × (pos_part days + unix_epoch_ordinal ≤ neg_part days + 3652059)

epoch_sum :
    (days : ℤ)
    → InRange days
    → pos unix_epoch_ordinal +ℤ days ≡ pos (pos_part days + unix_epoch_ordinal - neg_part days)
unfolding ◌+ℤ◌
epoch_sum (pos n) h = ground arith
epoch_sum (negsuc n) h = ground arith

epoch_date :
    (days : ℤ)
    → InRange days
    → (d : Date) × (hydrate_date days ≡ ok d)
      × IsDate d
      × (pos d.ordinal ≡ pos unix_epoch_ordinal +ℤ days)
unfolding Found hydrate_date
epoch_date days h =
    let n = pos_part days + unix_epoch_ordinal - neg_part days in
    let (d, e, v, o) = from_ordinal-Found n (omega arith) (omega arith) in
    (d, rw (epoch_sum days h) e, v, ap pos o ∙ sym (epoch_sum days h))

-- Each number of days from 0001-01-01 to 9999-12-31, counted from 1970-01-01, is received as a date
-- that exists, which is sent as that number.
hydrate_date_lem :
    (days : ℤ)
    → InRange days
    → (d : Date) × (hydrate_date days ≡ ok d) × IsDate d × (dehydrate_date d ≡ days)
unfolding dehydrate_date
hydrate_date_lem days h =
    let (d, e, v, o) = epoch_date days h in
    (
      d,
      e,
      v,
      eq_of_parts _ _ (
          omega (
            arith,
            ap pos_part o,
            ap neg_part o,
            -ℤ_parts (pos d.ordinal) (pos unix_epoch_ordinal),
            +ℤ_parts (pos unix_epoch_ordinal) days,
          )),
    )

-- The day, hour, minute and second of a number of seconds.
abbrev pub day_of_seconds : ℤ → ℤ
day_of_seconds s = div_ℤ (div_ℤ (div_ℤ s 60) 60) 24

second_of_day : ℤ → ℕ
second_of_day s = 3600 * mod_ℤ (div_ℤ (div_ℤ s 60) 60) 24 + 60 * mod_ℤ (div_ℤ s 60) 60 + mod_ℤ s 60

seconds_parts :
    (s : ℤ)
    → 86400 * pos_part (day_of_seconds s) + second_of_day s + neg_part s
      ≡ 86400 * neg_part (day_of_seconds s) + pos_part s
unfolding second_of_day
seconds_parts s = omega (
  arith,
  div-mod_parts s 60 (omega arith),
  div-mod_parts (div_ℤ s 60) 60 (omega arith),
  div-mod_parts (div_ℤ (div_ℤ s 60) 60) 24 (omega arith),
)

second_of_day_below : (s : ℤ) → second_of_day s < 86400
unfolding second_of_day
second_of_day_below s = omega (
  arith,
  mod_ℤ-below s 60 (omega arith),
  mod_ℤ-below (div_ℤ s 60) 60 (omega arith),
  mod_ℤ-below (div_ℤ (div_ℤ s 60) 60) 24 (omega arith),
)

-- The time of the day of a number of seconds and of nanoseconds.
abbrev time_at : ℤ → ℕ → Time
time_at s n = time_of (mod_ℤ (div_ℤ (div_ℤ s 60) 60) 24) (mod_ℤ (div_ℤ s 60) 60) (mod_ℤ s 60) n

time_at-ticks :
    (s : ℤ) (n : ℕ)
    → n < nano_seconds
    → ((time_at s n).ticks / nano_seconds ≡ second_of_day s)
      × ((time_at s n).ticks % nano_seconds ≡ n)
unfolding second_of_day
time_at-ticks s n h = (omega arith, omega arith)

time_at-new_time :
    (s : ℤ) (n : ℕ)
    → n < nano_seconds
    → new_time
        (pos (mod_ℤ (div_ℤ (div_ℤ s 60) 60) 24))
        (pos (mod_ℤ (div_ℤ s 60) 60))
        (pos (mod_ℤ s 60))
        (pos n)
      ≡ ok (time_at s n)
time_at-new_time s n h =
    new_time_lem _ _ _ n (mod_ℤ-below (div_ℤ (div_ℤ s 60) 60) 24 (omega arith))
      (mod_ℤ-below (div_ℤ s 60) 60 (omega arith)) (mod_ℤ-below s 60 (omega arith)) h

-- The seconds between a point in time and the epoch.
sent_seconds :
    (s : ℤ) (k o : ℤ)
    → o ≡ pos unix_epoch_ordinal +ℤ day_of_seconds s
    → k ≡ pos (second_of_day s)
    → pos 86400 *ℤ (o -ℤ pos 1) +ℤ k -ℤ pos 86400 *ℤ (pos unix_epoch_ordinal -ℤ pos 1) ≡ s
sent_seconds s k o e f = eq_of_parts _ _ (
    omega (
      arith,
      seconds_parts s,
      ap pos_part e,
      ap neg_part e,
      ap pos_part f,
      ap neg_part f,
      +ℤ_parts (pos unix_epoch_ordinal) (day_of_seconds s),
      -ℤ_parts (pos 86400 *ℤ (o -ℤ pos 1) +ℤ k) (pos 86400 *ℤ (pos unix_epoch_ordinal -ℤ pos 1)),
      +ℤ_parts (pos 86400 *ℤ (o -ℤ pos 1)) k,
      *ℤ_parts 86400 (o -ℤ pos 1),
      -ℤ_parts o (pos 1),
      *ℤ_parts 86400 (pos unix_epoch_ordinal -ℤ pos 1),
      -ℤ_parts (pos unix_epoch_ordinal) (pos 1),
    ))

minus_zero : (n : ℕ) → pos n -ℤ pos 0 ≡ pos n
minus_zero n = eq_of_parts _ _ (omega (arith, -ℤ_parts (pos n) (pos 0)))

sent :
    (d : Date) (t : Time) (s : ℤ) (n : ℕ)
    → n < nano_seconds
    → pos d.ordinal ≡ pos unix_epoch_ordinal +ℤ day_of_seconds s
    → t.ticks / nano_seconds ≡ second_of_day s
    → t.ticks % nano_seconds ≡ n
    → dehydrate_datetime (record { date = d; time = t }) ≡ record { seconds = s; nanoseconds = n }
unfolding dehydrate_datetime to_clock_time epoch_clock_time sub_clock_time
sent d t s n h e f g =
    rw
      (
        g,
        new_clock_time_lem (pos 86400 *ℤ (pos d.ordinal -ℤ pos 1) +ℤ pos (t.ticks / nano_seconds)) n
            h,
        new_clock_time_lem (pos 86400 *ℤ (pos unix_epoch_ordinal -ℤ pos 1)) 0 (omega arith),
        sent_seconds s (pos (t.ticks / nano_seconds)) (pos d.ordinal) e (ap pos f),
        minus_zero n,
      )
      (new_clock_time_lem s n h)

-- A number of seconds since 1970-01-01 on a day up to 9999-12-31 and less than a second of nanoseconds
-- are received as a date and time, which is sent as these two numbers again.
pub hydrate_datetime_lem :
    (s : ℤ) (n : ℕ)
    → n < nano_seconds
    → InRange (day_of_seconds s)
    → (dt : DateTime) × (hydrate_datetime s (pos n) ≡ ok dt)
      × IsDate dt.date
      × (dehydrate_datetime dt ≡ record { seconds = s; nanoseconds = n })
unfolding hydrate_datetime hydrate_date
hydrate_datetime_lem s n h i =
    let (d, e, v, o) = epoch_date (day_of_seconds s) i in
    let (f, g) = time_at-ticks s n h in
    (
      record { date = d; time = time_at s n },
      rw (e, time_at-new_time s n h) refl,
      v,
      sent d (time_at s n) s n h o f g,
    )
