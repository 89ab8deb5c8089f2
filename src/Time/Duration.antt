-- ===== src/Time/Duration.antt =====
-- `Duration` (neo4j/time/__init__.py) of whole numbers, `symmetric_divmod`
-- (neo4j/time/_arithmetic.py), and the hydration of durations.
pub mod Sums
pub mod Bounds
pub mod Algebra
use neo4j_python_driver.Base.{
  ℕ, suc, ◌+◌, ◌-◌, ◌*◌, ◌/◌, ◌%◌, Bool, not, ◌&&◌, ◌||◌, if◌then◌else◌, Result, ok, err, ltb,
}
use neo4j_python_driver.Base.Int.{
  ℤ, pos, negsuc, pos_part, neg_part, sub_ℕ, ◌+ℤ◌, ◌-ℤ◌, ◌*ℤ◌, ltb_ℤ,
}

-- `ValueError`
pub data DurationError : Type 0 where
  out_of_range : DurationError

pub record Duration : Type 0 where
  pub months : ℤ
  pub days : ℤ
  pub seconds : ℤ
  pub nanoseconds : ℤ

abbrev pub nano_seconds : ℕ
nano_seconds = 1_000_000_000

-- `symmetric_divmod`, which rounds towards 0.
unfoldable pub symmetric_quotient : ℤ → ℕ → ℤ
symmetric_quotient (pos n) m = pos (n / m)
symmetric_quotient (negsuc n) m = sub_ℕ 0 (suc n / m)

unfoldable pub symmetric_remainder : ℤ → ℕ → ℤ
symmetric_remainder (pos n) m = pos (n % m)
symmetric_remainder (negsuc n) m = sub_ℕ 0 (suc n % m)

-- `MIN_INT64 <= z <= MAX_INT64`
unfoldable pub is_int64 : ℤ → Bool
is_int64 z =
    not (ltb_ℤ z (negsuc 9_223_372_036_854_775_807))
    && not (ltb_ℤ (pos 9_223_372_036_854_775_807) z)

unfoldable pub borrow : ℤ → ℤ
borrow ns = if ltb_ℤ ns (pos 0) then pos 1 else pos 0

-- `avg_total_seconds`
unfoldable pub average_seconds : Duration → ℤ
average_seconds d =
    pos 2629746 *ℤ d.months +ℤ pos 86400 *ℤ d.days +ℤ d.seconds -ℤ borrow d.nanoseconds

unfoldable pub in_range : Duration → Bool
in_range d = is_int64 d.months && is_int64 (average_seconds d)

-- The constructor, once its arguments are summed up: months, days and all nanoseconds.
abbrev pub normalized : ℤ → ℤ → ℤ → Duration
normalized months days total = record {
  months = months;
  days = days;
  seconds = symmetric_quotient total nano_seconds;
  nanoseconds = symmetric_remainder total nano_seconds;
}

unfoldable pub checked : Duration → Result DurationError Duration
checked d = if in_range d then ok d else err out_of_range

unfoldable pub make_duration : ℤ → ℤ → ℤ → Result DurationError Duration
make_duration months days total = checked (normalized months days total)

-- The arguments of `Duration`; those that are not given are 0.
pub record Parts : Type 0 where
  pub years : ℤ
  pub months : ℤ
  pub weeks : ℤ
  pub days : ℤ
  pub hours : ℤ
  pub minutes : ℤ
  pub seconds : ℤ
  pub milliseconds : ℤ
  pub microseconds : ℤ
  pub nanoseconds : ℤ

abbrev pub no_parts : Parts
no_parts = record {
  years = pos 0;
  months = pos 0;
  weeks = pos 0;
  days = pos 0;
  hours = pos 0;
  minutes = pos 0;
  seconds = pos 0;
  milliseconds = pos 0;
  microseconds = pos 0;
  nanoseconds = pos 0;
}

unfoldable pub all_nanoseconds : Parts → ℤ
all_nanoseconds p =
    pos 3_600_000_000_000 *ℤ p.hours
    +ℤ pos 60_000_000_000 *ℤ p.minutes
    +ℤ pos 1_000_000_000 *ℤ p.seconds
    +ℤ pos 1_000_000 *ℤ p.milliseconds
    +ℤ pos 1_000 *ℤ p.microseconds
    +ℤ p.nanoseconds

unfoldable pub new_duration : Parts → Result DurationError Duration
new_duration p =
    make_duration (pos 12 *ℤ p.years +ℤ p.months) (pos 7 *ℤ p.weeks +ℤ p.days) (all_nanoseconds p)

-- `Duration(months=…, days=…, seconds=…, nanoseconds=…)`, which is also `hydrate_duration`.
unfoldable pub hydrate_duration : ℤ → ℤ → ℤ → ℤ → Result DurationError Duration
hydrate_duration mo d s ns =
    new_duration (record no_parts { months = mo; days = d; seconds = s; nanoseconds = ns })

-- `__add__`, `__sub__` and `__neg__`
unfoldable pub add_duration : Duration → Duration → Result DurationError Duration
add_duration a b =
    hydrate_duration (a.months +ℤ b.months) (a.days +ℤ b.days) (a.seconds +ℤ b.seconds)
      (a.nanoseconds +ℤ b.nanoseconds)

unfoldable pub sub_duration : Duration → Duration → Result DurationError Duration
sub_duration a b =
    hydrate_duration (a.months -ℤ b.months) (a.days -ℤ b.days) (a.seconds -ℤ b.seconds)
      (a.nanoseconds -ℤ b.nanoseconds)

unfoldable pub neg_duration : Duration → Result DurationError Duration
neg_duration a =
    hydrate_duration (pos 0 -ℤ a.months) (pos 0 -ℤ a.days) (pos 0 -ℤ a.seconds)
      (pos 0 -ℤ a.nanoseconds)

-- `dehydrate_duration`: the fields of the structure with tag `E`.
unfoldable pub dehydrate_duration : Duration → ℤ × ℤ × ℤ × ℤ
dehydrate_duration d = (d.months, d.days, d.seconds, d.nanoseconds)
