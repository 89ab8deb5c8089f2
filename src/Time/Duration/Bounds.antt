-- ===== src/Time/Duration/Bounds.antt =====
-- What a constructed duration is.
use neo4j_python_driver.Base.{
  inl, inr, ℕ, ◌+◌, ◌*◌, ◌<◌, ◌≤◌, ◌≡◌, refl, ap, true, ◌⊎◌, ◌↔◌, arith, ok,
}
use neo4j_python_driver.Base.Int.{ℤ, pos, negsuc, pos_part, neg_part, int_laws, eq_of_parts}
use neo4j_python_driver.Time.Duration.{
  Duration, nano_seconds, in_range, is_int64, borrow, average_seconds, Parts, all_nanoseconds,
  new_duration,
}
use neo4j_python_driver.Time.Duration.Sums.{Proper, nanos, *ℤ_parts, SumsTo, new_duration_sums}

-- All that is given in units below a day, in nanoseconds, of which `f` is the positive or the negative part.
abbrev pub given_nanoseconds : (ℤ → ℕ) → Parts → ℕ
given_nanoseconds f p =
    1_000_000_000 * (60 * (60 * f p.hours + f p.minutes) + f p.seconds)
    + 1_000 * (1_000 * f p.milliseconds + f p.microseconds)
    + f p.nanoseconds

-- The arguments amount to the fields: twelve months are a year, seven days a week, and so on.
abbrev pub Amounts : Parts → Duration → Type 0
Amounts p d =
    (12 * pos_part p.years + pos_part p.months + neg_part d.months
      ≡ 12 * neg_part p.years + neg_part p.months + pos_part d.months)
    × (7 * pos_part p.weeks + pos_part p.days + neg_part d.days
        ≡ 7 * neg_part p.weeks + neg_part p.days + pos_part d.days)
    × (1_000_000_000 * pos_part d.seconds + pos_part d.nanoseconds + given_nanoseconds neg_part p
        ≡ 1_000_000_000 * neg_part d.seconds
          + neg_part d.nanoseconds
          + given_nanoseconds pos_part p)

-- The duration in nanoseconds, where a month has the average length of 2,629,746 seconds.
abbrev pub average_nanoseconds : (ℤ → ℕ) → Duration → ℕ
average_nanoseconds f d =
    1_000_000_000 * (2_629_746 * f d.months + 86_400 * f d.days + f d.seconds) + f d.nanoseconds

-- From -2^63 seconds on and below 2^63 seconds, with a number of months that fits 64 bits.
abbrev pub Fits : Duration → Type 0
Fits d =
    (pos_part d.months < 9_223_372_036_854_775_808)
    × (neg_part d.months ≤ 9_223_372_036_854_775_808)
    × (average_nanoseconds pos_part d
        < average_nanoseconds neg_part d + 9_223_372_036_854_775_808_000_000_000)
    × (average_nanoseconds neg_part d
        ≤ average_nanoseconds pos_part d + 9_223_372_036_854_775_808_000_000_000)

nanos_parts :
    (p : Parts) (d : Duration)
    → 1_000_000_000 * pos_part d.seconds + pos_part d.nanoseconds + neg_part (nanos d)
      ≡ 1_000_000_000 * neg_part d.seconds + neg_part d.nanoseconds + pos_part (nanos d)
unfolding nanos
nanos_parts p d = omega (int_laws, *ℤ_parts nano_seconds d.seconds)

all_nanoseconds_parts :
    (p : Parts)
    → given_nanoseconds pos_part p + neg_part (all_nanoseconds p)
      ≡ given_nanoseconds neg_part p + pos_part (all_nanoseconds p)
unfolding all_nanoseconds
all_nanoseconds_parts p = omega (
  int_laws,
  *ℤ_parts 3_600_000_000_000 p.hours,
  *ℤ_parts 60_000_000_000 p.minutes,
  *ℤ_parts 1_000_000_000 p.seconds,
  *ℤ_parts 1_000_000 p.milliseconds,
  *ℤ_parts 1_000 p.microseconds,
)

SumsTo-Amounts : (p : Parts) (d : Duration) → SumsTo p d → Amounts p d
SumsTo-Amounts p d (m, w, t) = (
  omega (int_laws, ap pos_part m, ap neg_part m, *ℤ_parts 12 p.years),
  omega (int_laws, ap pos_part w, ap neg_part w, *ℤ_parts 7 p.weeks),
  omega (arith, ap pos_part t, ap neg_part t, nanos_parts p d, all_nanoseconds_parts p),
)

Amounts-SumsTo : (p : Parts) (d : Duration) → Amounts p d → SumsTo p d
Amounts-SumsTo p d (m, w, t) = (
  omega (int_laws, m, *ℤ_parts 12 p.years),
  omega (int_laws, w, *ℤ_parts 7 p.weeks),
  eq_of_parts (nanos d) (all_nanoseconds p)
      (omega (arith, t, nanos_parts p d, all_nanoseconds_parts p)),
)

-- Less than a second, of either sign.
Proper-small : (s n : ℤ) → Proper s n → (pos_part n < nano_seconds) × (neg_part n < nano_seconds)
Proper-small s (pos n) h = omega (arith, h.0)
Proper-small s (negsuc n) h = omega (arith, h.0)

one_part : (z : ℤ) → (pos_part z ≡ 0) ⊎ (neg_part z ≡ 0)
one_part (pos n) = inr refl
one_part (negsuc n) = inl refl

borrow_lem :
    (n : ℤ)
    → ((neg_part n ≡ 0) × (borrow n ≡ pos 0))
      ⊎ ((pos_part n ≡ 0) × (1 ≤ neg_part n) × (borrow n ≡ pos 1))
unfolding borrow
borrow_lem (pos n) = inl (refl, ground arith)
borrow_lem (negsuc n) = inr (refl, omega arith, ground arith)

is_int64_iff :
    (z : ℤ)
    → (is_int64 z ≡ true)
      ↔ ((pos_part z < 9_223_372_036_854_775_808) × (neg_part z ≤ 9_223_372_036_854_775_808))
unfolding is_int64
is_int64_iff z = (λ h. ground (arith, h, one_part z), λ h. ground (arith, h, one_part z))

average_parts :
    (d : Duration)
    → pos_part (average_seconds d)
        + (2_629_746 * neg_part d.months + 86_400 * neg_part d.days + neg_part d.seconds)
        + pos_part (borrow d.nanoseconds)
      ≡ neg_part (average_seconds d)
        + (2_629_746 * pos_part d.months + 86_400 * pos_part d.days + pos_part d.seconds)
        + neg_part (borrow d.nanoseconds)
unfolding average_seconds
average_parts d = omega (int_laws, *ℤ_parts 2_629_746 d.months, *ℤ_parts 86_400 d.days)

borrowed :
    (n : ℤ)
    → ((neg_part n ≡ 0) × (pos_part (borrow n) ≡ 0) × (neg_part (borrow n) ≡ 0))
      ⊎ ((pos_part n ≡ 0)
          × (1 ≤ neg_part n)
          × (pos_part (borrow n) ≡ 1)
          × (neg_part (borrow n) ≡ 0))
borrowed n = elim (borrow_lem n) [
  | inl (a, e) ↦ inl (a, ap pos_part e, ap neg_part e)
  | inr (a, b, e) ↦ inr (a, b, ap pos_part e, ap neg_part e)
]

abbrev FitsAverage : Duration → Type 0
FitsAverage d =
    (average_nanoseconds pos_part d
      < average_nanoseconds neg_part d + 9_223_372_036_854_775_808_000_000_000)
    × (average_nanoseconds neg_part d
        ≤ average_nanoseconds pos_part d + 9_223_372_036_854_775_808_000_000_000)

average_lem :
    (d : Duration)
    → Proper d.seconds d.nanoseconds
    → (is_int64 (average_seconds d) ≡ true) ↔ FitsAverage d
average_lem d h =
    let small = Proper-small d.seconds d.nanoseconds h in
    let b = borrowed d.nanoseconds in
    let a = average_parts d in
    let z = one_part (average_seconds d) in
    (
      λ r.
          let i = (is_int64_iff (average_seconds d)).0 r in
          (omega (arith, small, b, a, z, i), omega (arith, small, b, a, z, i)),
      λ (f : FitsAverage d).
          (is_int64_iff (average_seconds d)).1
            (omega (arith, small, b, a, z, f), omega (arith, small, b, a, z, f)),
    )

in_range-Fits : (d : Duration) → Proper d.seconds d.nanoseconds → (in_range d ≡ true) ↔ Fits d
unfolding in_range
in_range-Fits d h = (
  λ r.
      let a = (average_lem d h).0 (ground (arith, r)) in
      let m = (is_int64_iff d.months).0 (ground (arith, r)) in (m.0, m.1, a.0, a.1),
  λ (f : Fits d).
      let a = (average_lem d h).1 (f.2, f.3) in
      let m = (is_int64_iff d.months).1 (f.0, f.1) in ground (arith, a, m),
)

-- The constructor returns a duration exactly if its arguments amount to the fields of the duration, the
-- nanoseconds are less than a second and of the sign of the seconds, the months fit 64 bits, and the
-- average length is from -2^63 seconds on and below 2^63 seconds.
pub new_duration_iff :
    (p : Parts) (d : Duration)
    → (new_duration p ≡ ok d) ↔ (Amounts p d × Proper d.seconds d.nanoseconds × Fits d)
new_duration_iff p d = (
  λ e.
      let (s, v) = (new_duration_sums p d).0 e in
      (SumsTo-Amounts p d s, v.proper, (in_range-Fits d v.proper).0 v.ranged),
  λ (h : Amounts p d × Proper d.seconds d.nanoseconds × Fits d).
      (new_duration_sums p d).1
        (Amounts-SumsTo p d h.0, record { proper = h.1; ranged = (in_range-Fits d h.1).1 h.2 }),
)
