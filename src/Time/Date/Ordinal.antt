-- ===== src/Time/Date/Ordinal.antt =====
-- What `Date.from_ordinal` and `Date(year, month, day)` return.
use neo4j_python_driver.Base.{
  ℕ, zero, suc, ◌+◌, ◌-◌, ◌≤◌, ◌<◌, ◌≡◌, refl, ◌∙◌, ap, true, false, ltb, leb, ◌==◌, ◌&&◌,
  if◌then◌else◌, Bool-cases, inl, inr, arith, Result, ok, err,
}
use neo4j_python_driver.Base.Int.{ℤ, pos, negsuc}
use neo4j_python_driver.Time.Calendar.{
  days_in_year, days_in_month, days_before_year, days_of_months, native_ordinal,
}
use neo4j_python_driver.Time.Years.{
  days_before_year-suc, days_of_months-suc, twelve_months, days_in_month_bounds, last_ordinal,
  year_end_bound,
}
use neo4j_python_driver.Time.Date.{
  DateError, key_error, Date, normal_day, in_calendar, normalize_day, public_day, calc_ordinal,
  walk_months, walk_years, at_day, at_year, from_day, from_ordinal,
}

-- How a day is kept in a month of `n` days.
abbrev pub Normal : ℕ → ℤ → Type 0
Normal n (pos k) = (1 ≤ k) × (k + 3 ≤ n)
Normal n (negsuc k) = k < 3

abbrev pub Month : ℕ → Type 0
Month m = (1 ≤ m) × (m ≤ 12)

abbrev pub Year : ℕ → Type 0
Year y = (1 ≤ y) × (y ≤ 9999)

pub record IsDate (d : Date) : Type 0 where
  pub in_year : Year d.year
  pub in_month : Month d.month
  pub in_day : Normal (days_in_month d.year d.month) d.day
  pub numbered : d.ordinal ≡ calc_ordinal d.year d.month d.day

-- The value under which day `k` of a month of `n` days is kept.
abbrev pub kept : ℕ → ℕ → ℤ
kept n k =
    if k == n
    then negsuc 0
    else if k + 1 == n
    then negsuc 1
    else if k + 2 == n
    then negsuc 2
    else pos k

-- A day of the month is kept so that its public value is the day again.
pub normal_day-kept : (n k : ℕ) → 28 ≤ n → (1 ≤ k) × (k ≤ n) → normal_day n (pos k) ≡ ok (kept n k)
unfolding normal_day
normal_day-kept n k h i = ground arith

pub kept-Normal : (n k : ℕ) → 28 ≤ n → (1 ≤ k) × (k ≤ n) → Normal n (kept n k)
kept-Normal n k h i = ground arith

pub public_day-kept :
    (year month k : ℕ)
    → (1 ≤ k) × (k ≤ days_in_month year month)
    → public_day year month (kept (days_in_month year month) k) ≡ k
unfolding public_day
public_day-kept year month k i = ground (arith, days_in_month_bounds year month)

pub walk_months_lem :
    (year left m day : ℕ)
    → m + left ≡ 12
    → 1 ≤ day
    → days_of_months year m + day ≤ days_in_year year
    → (j d : ℕ) × (walk_months year left (suc m) day ≡ ok (suc j, d))
      × (j < 12)
      × ((1 ≤ d) × (d ≤ days_in_month year (suc j)))
      × (days_of_months year j + d ≡ days_of_months year m + day)
unfolding walk_months
walk_months_lem year zero m day e h k = absurd (ground (arith, twelve_months year))
walk_months_lem year (suc left) m day e h k =
    elim (Bool-cases (ltb (days_in_month year (suc m)) day)) [
      | inl more ↦
          let (j, d, w, i, b, s) =
            walk_months_lem year left (suc m) (day - days_in_month year (suc m)) (omega arith)
              (ground arith) (ground (arith, days_of_months-suc year m)) in
          (j, d, rw more w, i, b, ground (arith, days_of_months-suc year m))
      | inr done ↦ (m, day, rw done refl, omega arith, (h, ground arith), refl)
    ]

pub walk_years_lem :
    (left year day : ℕ)
    → 1 ≤ year
    → year + left ≡ 10000
    → 1 ≤ day
    → days_before_year year + day ≤ 3652059
    → (y d : ℕ) × (walk_years left year day ≡ ok (y, d))
      × Year y
      × ((1 ≤ d) × (d ≤ days_in_year y))
      × (days_before_year y + d ≡ days_before_year year + day)
unfolding walk_years
walk_years_lem zero year day p e h k =
    let here : year ≡ 10000 = omega arith in
    absurd (omega (arith, last_ordinal, ap days_before_year here))
walk_years_lem (suc left) year day p e h k = elim (Bool-cases (ltb (days_in_year year) day)) [
  | inl more ↦
      let (y, d, w, i, b, s) =
        walk_years_lem left (suc year) (day - days_in_year year) (omega arith) (omega arith)
          (ground arith) (ground (arith, days_before_year-suc year p)) in
      (y, d, rw more w, i, b, ground (arith, days_before_year-suc year p))
  | inr done ↦ (year, day, rw done refl, (p, omega arith), (h, ground arith), refl)
]

-- Past 9999-12-31 the walk runs off the table.
pub walk_years_over :
    (left year day : ℕ)
    → 1 ≤ year
    → year + left ≡ 10000
    → 3652059 < days_before_year year + day
    → walk_years left year day ≡ err key_error
unfolding walk_years
walk_years_over zero year day p e k = refl
walk_years_over (suc left) year day p e k = elim (Bool-cases (ltb (days_in_year year) day)) [
  | inl more ↦ rw more (
      walk_years_over left (suc year) (day - days_in_year year) (omega arith) (omega arith)
        (ground (arith, days_before_year-suc year p)))
  | inr done ↦ absurd (ground (arith, year_end_bound year day p))
]

-- The date kept for day `k` of a month, under an ordinal.
abbrev pub made : ℕ → ℕ → ℕ → ℕ → Date
made ordinal year month k = record {
  ordinal = ordinal;
  year = year;
  month = month;
  day = kept (days_in_month year month) k;
}

pub made-IsDate :
    (ordinal year month k : ℕ)
    → Year year
    → Month month
    → (1 ≤ k) × (k ≤ days_in_month year month)
    → ordinal ≡ native_ordinal year month k
    → IsDate (made ordinal year month k)
made-IsDate ordinal year month k hy hm hk e = record {
  in_year = hy;
  in_month = hm;
  in_day = kept-Normal (days_in_month year month) k (days_in_month_bounds year month).0 hk;
  numbered = unfold calc_ordinal in rw (public_day-kept year month k hk) e;
}

pub normalize_day-kept :
    (year month k : ℕ)
    → Year year
    → Month month
    → (1 ≤ k) × (k ≤ days_in_month year month)
    → normalize_day (pos year) (pos month) (pos k) ≡ ok (kept (days_in_month year month) k)
unfolding normalize_day in_calendar
normalize_day-kept year month k hy hm hk =
    ground
      (arith, normal_day-kept (days_in_month year month) k (days_in_month_bounds year month).0 hk)

at_day_lem :
    (ordinal year month k : ℕ)
    → Year year
    → Month month
    → (1 ≤ k) × (k ≤ days_in_month year month)
    → at_day ordinal year (ok (month, k)) ≡ ok (made ordinal year month k)
at_day_lem ordinal year month k hy hm hk = rw (at_day, normalize_day-kept year month k hy hm hk)

-- A date found from an ordinal.
unfoldable pub Found : ℕ → Result DateError Date → Type 0
Found ordinal r = (d : Date) × (r ≡ ok d) × IsDate d × (d.ordinal ≡ ordinal)

no_months : (year day : ℕ) → days_of_months year 0 + day ≡ day
unfolding days_of_months
no_months year day = omega arith

number_lem :
    (ordinal year day j d : ℕ)
    → ordinal ≡ days_before_year year + day
    → days_of_months year j + d ≡ day
    → ordinal ≡ native_ordinal year (suc j) d
unfolding native_ordinal
number_lem ordinal year day j d e s =
    let before : suc j - 1 ≡ j = omega arith in rw before (omega arith)

at_year-Found :
    (ordinal year day : ℕ)
    → Year year
    → (1 ≤ day) × (day ≤ days_in_year year)
    → ordinal ≡ days_before_year year + day
    → Found ordinal (at_year ordinal (ok (year, day)))
unfolding Found
at_year-Found ordinal year day hy hd e =
    let (j, d, w, i, b, s) =
      walk_months_lem year 12 0 day refl hd.0 (unfold days_of_months in omega arith) in
    (
      made ordinal year (suc j) d,
      rw w (at_day_lem ordinal year (suc j) d hy (omega arith) b),
      made-IsDate ordinal year (suc j) d hy (omega arith) b
          (number_lem ordinal year day j d e (s ∙ no_months year day)),
      refl,
    )

from_day-Found :
    (ordinal year day : ℕ)
    → Year year
    → 1 ≤ day
    → ordinal ≡ days_before_year year + day
    → ordinal ≤ 3652059
    → Found ordinal (from_day ordinal year day)
unfolding from_day
from_day-Found ordinal year day hy h e k =
    let (y, d, w, i, b, s) =
      walk_years_lem (10000 - year) year day hy.0 (omega arith) h (omega arith) in
    let inside : (leb 1 day && leb day 3652059) ≡ true = ground arith in
    rw (inside, w) (at_year-Found ordinal y d i b (omega arith))

pub anchors : (days_before_year 2018 ≡ 736694) × (days_before_year 1970 ≡ 719162)
unfolding days_before_year
anchors = (refl, refl)

-- Every ordinal from 1 to 3652059 has a date.
pub from_ordinal-Found :
    (ordinal : ℕ) → 1 ≤ ordinal → ordinal ≤ 3652059 → Found ordinal (from_ordinal (pos ordinal))
unfolding from_ordinal
from_ordinal-Found ordinal h k = elim (Bool-cases (leb 736695 ordinal)) [
  | inl late ↦
      rw (some_day, late)
        (from_day-Found ordinal 2018 (ordinal - 736694) (omega arith) (ground arith)
          (ground (arith, anchors)) k)
  | inr early ↦ elim (Bool-cases (leb 719163 ordinal)) [
    | inl epoch ↦
        rw (some_day, early, epoch)
          (from_day-Found ordinal 1970 (ordinal - 719162) (omega arith) (ground arith)
            (ground (arith, anchors)) k)
    | inr old ↦
        rw (some_day, early, old)
          (from_day-Found ordinal 1 ordinal (omega arith) h (omega (arith, last_ordinal)) k)
  ]
]
  where
    some_day : (ordinal == 0) ≡ false
    some_day = ground arith
