-- ===== src/Time/Addition/Months.antt =====
-- What adding a number of months to a date gives.
use neo4j_python_driver.Base.{
  ℕ, ◌+◌, ◌-◌, ◌*◌, ◌≤◌, ◌<◌, ◌&&◌, ◌≡◌, refl, ap, sym, true, false, ◌⊎◌, inl, inr, leb,
  if◌then◌else◌, Bool-cases, arith, Result, ok, err,
}
use neo4j_python_driver.Base.Int.{ℤ, pos, negsuc, pos_part, neg_part}
use neo4j_python_driver.Time.Calendar.{days_in_month, native_ordinal}
use neo4j_python_driver.Time.Years.{days_in_month_bounds}
use neo4j_python_driver.Time.Date.{
  DateError, value_error, key_error, assertion_error, overflow_error, Date, eqb_ℤ, in_calendar,
  normal_day, normalize_day, new_date, public_day, calc_ordinal,
}
use neo4j_python_driver.Time.Date.Ordinal.{Normal, Month, Year, IsDate}
use neo4j_python_driver.Time.Date.RoundTrip.{day_of}
use neo4j_python_driver.Time.Date.Shift.{renumbered_lem}
use neo4j_python_driver.Time.Duration.{Duration}
use neo4j_python_driver.Time.Addition.{no_such_year, placed, replaced, date_add}
use neo4j_python_driver.Time.Addition.Carry.{Apart, month_after_lem}

-- The day after a change of the month: the last three days are counted from the end of the month.
abbrev pub same_day : Date → ℕ → ℕ → ℕ
same_day d year month =
    let n = days_in_month d.year d.month in
    if leb (day_of d + 3) n then day_of d else days_in_month year month + day_of d - n

-- What adding `months` to the date `d` has to give.
abbrev pub Moves : Date → ℤ → Result DateError Date → Type 0
Moves d months (ok e) =
    Apart (pos d.year) (pos d.month) months (pos e.year) (pos e.month)
    × Year e.year
    × Month e.month
    × (day_of e ≡ same_day d e.year e.month)
    × (e.ordinal ≡ native_ordinal e.year e.month (day_of e))
Moves d months (err value_error) =
    (12 * d.year + d.month + pos_part months ≤ 12 + neg_part months)
    ⊎ (120_000 + neg_part months < 12 * d.year + d.month + pos_part months)
Moves d months (err overflow_error) =
    (12 * d.year + d.month + pos_part months + 12 * 2_147_483_648 ≤ neg_part months)
    ⊎ (12 * 2_147_483_648 + neg_part months < 12 * d.year + d.month + pos_part months)
Moves d months (err key_error) = ⊥
Moves d months (err assertion_error) = ⊥

stays :
    (year month y m : ℕ) (z : ℤ)
    → Normal (days_in_month year month) z
    → (1 ≤ public_day y m z)
      × (public_day y m z ≤ days_in_month y m)
      × (public_day y m z ≡ (
          if leb (public_day year month z + 3) (days_in_month year month)
          then public_day year month z
          else days_in_month y m + public_day year month z - days_in_month year month))
unfolding public_day
stays year month y m (pos k) h =
    ground (arith, days_in_month_bounds year month, days_in_month_bounds y m)
stays year month y m (negsuc k) h =
    ground (arith, days_in_month_bounds year month, days_in_month_bounds y m)

in_calendar-Year :
    (y : ℤ) (m : ℕ) → in_calendar y (pos m) ≡ true → Year (pos_part y) × (neg_part y ≡ 0)
unfolding in_calendar
in_calendar-Year (pos k) m h = ground (arith, h)
in_calendar-Year (negsuc k) m h = absurd (ground (arith, h))

not-in_calendar :
    (y : ℤ) (m : ℕ)
    → Month m
    → in_calendar y (pos m) ≡ false
    → (pos_part y ≡ 0) ⊎ ((9999 < pos_part y) × (neg_part y ≡ 0))
unfolding in_calendar
not-in_calendar (pos k) m b h = ground (arith, h)
not-in_calendar (negsuc k) m b h = inl refl

day_sign : (z : ℤ) → ((k : ℕ) × (z ≡ negsuc k)) ⊎ ((k : ℕ) × (z ≡ pos k))
day_sign (negsuc k) = inl (k, refl)
day_sign (pos k) = inr (k, refl)

wide-Moves :
    (d : Date) (months y : ℤ) (m : ℕ)
    → Apart (pos d.year) (pos d.month) months y (pos m)
    → Month m
    → (pos_part y ≡ 0) ⊎ ((9999 < pos_part y) × (neg_part y ≡ 0))
    → (2_147_483_648 ≤ pos_part y) ⊎ (2_147_483_649 ≤ neg_part y)
    → Moves d months (err overflow_error)
wide-Moves d months y m s b out wide = omega (arith, s, b, out, wide)

no_such_year-Moves :
    (d : Date) (months y : ℤ) (m : ℕ)
    → Apart (pos d.year) (pos d.month) months y (pos m)
    → Month m
    → (pos_part y ≡ 0) ⊎ ((9999 < pos_part y) × (neg_part y ≡ 0))
    → Moves d months (err (no_such_year d.day y))
unfolding no_such_year
no_such_year-Moves d months y m s b out = elim (day_sign d.day) [
  | inl (k, e) ↦ rw e (omega (arith, s, b, out))
  | inr (k, e) ↦
      rw e (elim (Bool-cases (leb (pos_part y) 2_147_483_647 && leb (neg_part y) 2_147_483_648)) [
        | inl fits ↦ rw fits (omega (arith, s, b, out))
        | inr wide ↦ rw wide (wide-Moves d months y m s b out (ground (arith, wide)))
      ])
]

placed-Moves :
    (d : Date) (months y m : ℤ)
    → IsDate d
    → Apart (pos d.year) (pos d.month) months y m
    → Month (pos_part m)
    → Moves d months (placed d (y, m))
unfolding placed
placed-Moves d months y (negsuc j) v s b = absurd (omega arith)
placed-Moves d months y (pos j) v s b = elim (Bool-cases (in_calendar y (pos j))) [
  | inr out ↦ rw out (no_such_year-Moves d months y j s b (not-in_calendar y j b out))
  | inl in_years ↦
      let (q, nonneg) = in_calendar-Year y j in_years in
      let (low, high, same) = stays d.year d.month (pos_part y) j d.day v.in_day in
      rw (in_years, renumbered_lem (record d { year = pos_part y; month = j }) q b (low, high))
        (omega arith, q, b, same, refl)
]

unmoved : (d : Date) (months : ℤ) → IsDate d → eqb_ℤ months (pos 0) ≡ true → Moves d months (ok d)
unfolding calc_ordinal
unmoved d months v h = (
  ground (arith, h),
  v.in_year,
  v.in_month,
  (stays d.year d.month d.year d.month d.day v.in_day).2,
  v.numbered,
)

replaced_day : (n : ℕ) (day : ℤ) → 28 ≤ n → Normal n day → normal_day n day ≡ ok day
unfolding normal_day
replaced_day n (pos k) b h = ground arith
replaced_day n (negsuc k) b h = ground arith

replaced_normal : (d : Date) → IsDate d → normalize_day (pos d.year) (pos d.month) d.day ≡ ok d.day
unfolding normalize_day in_calendar
replaced_normal d v =
    let n = days_in_month d.year d.month in
    ground (
      arith,
      v.in_year,
      v.in_month,
      replaced_day n d.day (days_in_month_bounds d.year d.month).0 v.in_day,
    )

-- A date that exists is replaced by itself.
pub replaced_lem : (d : Date) → IsDate d → replaced d ≡ ok d
unfolding replaced new_date
replaced_lem d v =
    let nonzero : eqb_ℤ (pos d.year) (pos 0) ≡ false = ground (arith, v.in_year) in
    rw (nonzero, replaced_normal d v)
      (ap (λ (o : ℕ). ok (let x : Date = record d { ordinal = o } in x)) (sym v.numbered))

-- Adding months to a date gives the month that is this number of months away, and in it the same day, counted
-- from the end of the month if it is one of the last three. If there is no such year, ValueError is raised, or
-- OverflowError, and that only for a year beyond 32 bits.
pub date_add-Moves :
    (d : Date) (other : Duration)
    → IsDate d
    → other.days ≡ pos 0
    → other.seconds ≡ pos 0
    → other.nanoseconds ≡ pos 0
    → Moves d other.months (date_add d other)
unfolding date_add
date_add-Moves d other v nd ns nn = elim (Bool-cases (eqb_ℤ other.months (pos 0))) [
  | inl none ↦ rw (nd, ns, nn, none) (unmoved d other.months v none)
  | inr some ↦
      let (s, b) = month_after_lem d other.months in
      rw (nd, ns, nn, some, replaced_lem d v) (rw some (placed-Moves d other.months _ _ v s b))
]
