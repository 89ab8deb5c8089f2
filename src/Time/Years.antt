-- ===== src/Time/Years.antt =====
-- How the calendar tables fit together.
use neo4j_python_driver.Base.{
  ℕ, zero, suc, ◌+◌, ◌≤◌, ◌<◌, ◌≡◌, refl, arith, Bool-cases, inl, inr, ◌==◌,
}
use neo4j_python_driver.Time.Calendar.{
  days_in_year, days_in_month, days_before_year, days_of_months,
}

pub days_before_year-suc :
    (year : ℕ) → 1 ≤ year → days_before_year (suc year) ≡ days_before_year year + days_in_year year
unfolding days_before_year days_in_year
days_before_year-suc year h = ground arith

pub twelve_months : (year : ℕ) → days_of_months year 12 ≡ days_in_year year
unfolding days_of_months days_in_month days_in_year
twelve_months year = ground arith

pub days_in_month_bounds :
    (year month : ℕ) → (28 ≤ days_in_month year month) × (days_in_month year month ≤ 31)
unfolding days_in_month
days_in_month_bounds year month = ground arith

pub days_in_year_bounds : (year : ℕ) → (365 ≤ days_in_year year) × (days_in_year year ≤ 366)
unfolding days_in_year
days_in_year_bounds year = ground arith

days_before_year_mono : (a b : ℕ) → 1 ≤ a → a ≤ b → days_before_year a ≤ days_before_year b
days_before_year_mono a zero h k = absurd (omega arith)
days_before_year_mono a (suc b) h k = elim (Bool-cases (a == suc b)) [
  | inl e ↦ let here : a ≡ suc b = ground arith in rw here (omega arith)
  | inr e ↦
      let below : a ≤ b = ground arith in
      omega (arith, days_before_year_mono a b h below, days_before_year-suc b)
]

days_of_months_mono : (year a b : ℕ) → a ≤ b → days_of_months year a ≤ days_of_months year b
unfolding days_of_months
days_of_months_mono year a zero k = let here : a ≡ 0 = omega arith in rw here (omega arith)
days_of_months_mono year a (suc b) k = elim (Bool-cases (a == suc b)) [
  | inl e ↦ let here : a ≡ suc b = ground arith in rw here (omega arith)
  | inr e ↦ let below : a ≤ b = ground arith in omega (arith, days_of_months_mono year a b below)
]

pub days_of_months-suc :
    (year m : ℕ) → days_of_months year (suc m) ≡ days_of_months year m + days_in_month year (suc m)
unfolding days_of_months
days_of_months-suc year m = refl

-- A day lies in one year only, and in one month only of its year.
year_lt :
    (a b i j : ℕ)
    → 1 ≤ a
    → a < b
    → i ≤ days_in_year a
    → 1 ≤ j
    → days_before_year a + i < days_before_year b + j
year_lt a b i j h lt hi hj = ground (arith, days_before_year_mono (suc a) b, days_before_year-suc a)

month_lt :
    (year a b i j : ℕ)
    → a < b
    → i ≤ days_in_month year (suc a)
    → 1 ≤ j
    → days_of_months year a + i < days_of_months year b + j
month_lt year a b i j lt hi hj =
    ground (arith, days_of_months_mono year (suc a) b, days_of_months-suc year a)

pub year_unique :
    (a b i j : ℕ)
    → 1 ≤ a
    → 1 ≤ b
    → (1 ≤ i) × (i ≤ days_in_year a)
    → (1 ≤ j) × (j ≤ days_in_year b)
    → days_before_year a + i ≡ days_before_year b + j
    → a ≡ b
year_unique a b i j ha hb hi hj e = ground (arith, year_lt a b i j ha, year_lt b a j i hb)

pub month_unique :
    (year a b i j : ℕ)
    → (1 ≤ i) × (i ≤ days_in_month year (suc a))
    → (1 ≤ j) × (j ≤ days_in_month year (suc b))
    → days_of_months year a + i ≡ days_of_months year b + j
    → a ≡ b
month_unique year a b i j hi hj e = ground (arith, month_lt year a b i j, month_lt year b a j i)

-- The day number within a year.
pub day_of_year_bounds :
    (year m i : ℕ)
    → m < 12
    → (1 ≤ i) × (i ≤ days_in_month year (suc m))
    → (1 ≤ days_of_months year m + i) × (days_of_months year m + i ≤ days_in_year year)
day_of_year_bounds year m i h hi = (
  omega arith,
  ground
      (arith, days_of_months_mono year (suc m) 12, twelve_months year, days_of_months-suc year m),
)

-- Day numbers end at 9999-12-31.
pub last_ordinal : (days_before_year 1 ≡ 0) × (days_before_year 10000 ≡ 3652059)
unfolding days_before_year
last_ordinal = (refl, refl)

pub year_end_bound :
    (year i : ℕ)
    → 1 ≤ year
    → year ≤ 9999
    → i ≤ days_in_year year
    → days_before_year year + i ≤ 3652059
year_end_bound year i h k hi =
    ground (arith, last_ordinal, days_before_year-suc year, days_before_year_mono (suc year) 10000)
