-- ===== src/Time/Clock/Times.antt =====
-- Times of the day.
use neo4j_python_driver.Base.{ℕ, ◌/◌, ◌%◌, ◌<◌, ◌≡◌, sym, ap, arith, Result, ok, true}
use neo4j_python_driver.Base.Int.{pos}
use neo4j_python_driver.Packstream.Value.{mod_ℤ}
use neo4j_python_driver.Time.Date.{DateError}
use neo4j_python_driver.Time.Clock.{
  div_ℤ, nano_seconds, Time, is_below, time_of, new_time, from_ticks, hydrate_time, dehydrate_time,
}

is_below_lem : (n k : ℕ) → k < n → is_below n (pos k) ≡ true
unfolding is_below
is_below_lem n k h = ground arith

-- `Time(hour, minute, second, nanosecond)` of a time that exists.
pub new_time_lem :
    (h m s n : ℕ)
    → h < 24
    → m < 60
    → s < 60
    → n < nano_seconds
    → new_time (pos h) (pos m) (pos s) (pos n) ≡ ok (time_of h m s n)
unfolding new_time
new_time_lem h m s n a b c d =
    rw
      (is_below_lem 24 h a, is_below_lem 60 m b, is_below_lem 60 s c, is_below_lem nano_seconds n d)

abbrev pub of_ticks : ℕ → Time
of_ticks t =
    time_of (t / nano_seconds / 60 / 60) (t / nano_seconds / 60 % 60) (t / nano_seconds % 60)
      (t % nano_seconds)

-- The result of `from_ticks` for some parts, under a number of ticks.
abbrev ticking : ℕ → ℕ → Result DateError Time
ticking t k = ok (record (of_ticks t) { ticks = k })

ticks-of_ticks : (t : ℕ) → (of_ticks t).ticks ≡ t
ticks-of_ticks t = omega arith

-- The number of nanoseconds since midnight determines a time: `from_ticks` and `hydrate_time` return
-- the same time for it, it is what this time is sent as, and constructing a time from its hour, minute,
-- second and nanosecond gives it again.
pub hydrate_time_lem :
    (ticks : ℕ)
    → ticks < 86_400_000_000_000
    → (t : Time) × (from_ticks (pos ticks) ≡ ok t)
      × (hydrate_time (pos ticks) ≡ ok t)
      × (dehydrate_time t ≡ ticks)
      × (new_time (pos t.hour) (pos t.minute) (pos t.second) (pos t.nanosecond) ≡ ok t)
unfolding from_ticks hydrate_time dehydrate_time div_ℤ mod_ℤ
hydrate_time_lem t h = (
  of_ticks t,
  rw (is_below_lem 86_400_000_000_000 t h) (ap (ticking t) (sym (ticks-of_ticks t))),
  new_time_lem _ _ _ _ (omega arith) (omega arith) (omega arith) (omega arith),
  ticks-of_ticks t,
  new_time_lem _ _ _ _ (omega arith) (omega arith) (omega arith) (omega arith),
)
