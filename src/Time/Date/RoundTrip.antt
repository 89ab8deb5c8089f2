-- ===== src/Time/Date/RoundTrip.antt =====
-- A date is determined by its ordinal.
use neo4j_python_driver.Base.{
  ℕ, suc, ◌+◌, ◌-◌, ◌≤◌, ◌<◌, ◌≡◌, refl, sym, ap, ◌∙◌, false, leb, if◌then◌else◌, Bool-cases, inl,
  inr, arith, ok, err,
}
use neo4j_python_driver.Base.Int.{ℤ, pos, negsuc}
use neo4j_python_driver.Time.Calendar.{
  days_in_year, days_in_month, days_before_year, days_of_months, native_ordinal,
}
use neo4j_python_driver.Time.Years.{
  year_unique, month_unique, day_of_year_bounds, days_in_month_bounds, year_end_bound,
}
use neo4j_python_driver.Time.Date.{
  value_error, key_error, Date, eqb_ℤ, public_day, calc_ordinal, new_date, walk_years, from_day,
  from_ordinal,
}
use neo4j_python_driver.Time.Date.Ordinal.{
  Normal, Month, Year, IsDate, kept, made, made-IsDate, normalize_day-kept, public_day-kept,
  walk_years_over, Found, from_ordinal-Found, anchors,
}

pub public_day_bounds :
    (year month : ℕ) (d : ℤ)
    → Normal (days_in_month year month) d
    → (1 ≤ public_day year month d) × (public_day year month d ≤ days_in_month year month)
unfolding public_day
public_day_bounds year month (pos k) h = omega arith
public_day_bounds year month (negsuc k) h = omega (arith, days_in_month_bounds year month)

kept-public_day :
    (year month : ℕ) (d : ℤ)
    → Normal (days_in_month year month) d
    → kept (days_in_month year month) (public_day year month d) ≡ d
unfolding public_day
kept-public_day year month (pos k) h = ground arith
kept-public_day year month (negsuc k) h = ground (arith, days_in_month_bounds year month)

abbrev pub day_of : Date → ℕ
day_of d = public_day d.year d.month d.day

made-eq : (d : Date) → IsDate d → made d.ordinal d.year d.month (day_of d) ≡ d
made-eq d v = rw (kept-public_day d.year d.month d.day v.in_day) refl

Month-index : (m : ℕ) → Month m → suc (m - 1) ≡ m
Month-index m h = omega arith

pub day_in_month :
    (d : Date) → IsDate d → (1 ≤ day_of d) × (day_of d ≤ days_in_month d.year (suc (d.month - 1)))
day_in_month d v =
    rw (Month-index d.month v.in_month) (public_day_bounds d.year d.month d.day v.in_day)

-- The day of the year of a date.
abbrev pub year_day : Date → ℕ
year_day d = days_of_months d.year (d.month - 1) + day_of d

year_day_bounds : (d : Date) → IsDate d → (1 ≤ year_day d) × (year_day d ≤ days_in_year d.year)
year_day_bounds d v =
    day_of_year_bounds d.year (d.month - 1) (day_of d) (omega (arith, v.in_month))
      (day_in_month d v)

ordinal_parts : (d : Date) → IsDate d → d.ordinal ≡ days_before_year d.year + year_day d
ordinal_parts d v = v.numbered ∙ (unfold calc_ordinal native_ordinal in omega arith)

pub ordinal_bounds : (d : Date) → IsDate d → (1 ≤ d.ordinal) × (d.ordinal ≤ 3652059)
ordinal_bounds d v = ground (
  arith,
  ordinal_parts d v,
  year_day_bounds d v,
  year_end_bound d.year (year_day d) v.in_year.0 v.in_year.1,
)

same_year : (a b : Date) → IsDate a → IsDate b → a.ordinal ≡ b.ordinal → a.year ≡ b.year
same_year a b va vb e =
    year_unique a.year b.year (year_day a) (year_day b) va.in_year.0 vb.in_year.0
      (year_day_bounds a va) (year_day_bounds b vb)
      (sym (ordinal_parts a va) ∙ e ∙ ordinal_parts b vb)

same_month :
    (y z a b i j : ℕ)
    → y ≡ z
    → (1 ≤ i) × (i ≤ days_in_month y (suc a))
    → (1 ≤ j) × (j ≤ days_in_month z (suc b))
    → days_of_months y a + i ≡ days_of_months z b + j
    → a ≡ b
same_month y z a b i j e hi hj s = month_unique z a b i j (rw e at hi) hj (rw e at s)

made_cong : (o p y z m n i j : ℕ) → o ≡ p → y ≡ z → m ≡ n → i ≡ j → made o y m i ≡ made p z n j
made_cong o p y z m n i j e f g h = rw (e, f, g, h)

-- Dates with one ordinal are equal.
pub ordinal_inj : (a b : Date) → IsDate a → IsDate b → a.ordinal ≡ b.ordinal → a ≡ b
ordinal_inj a b va vb e =
    let y = same_year a b va vb e in
    let days : year_day a ≡ year_day b =
      omega (arith, e, ordinal_parts a va, ordinal_parts b vb, ap days_before_year y) in
    let m =
      same_month a.year b.year (a.month - 1) (b.month - 1) (day_of a) (day_of b) y
        (day_in_month a va) (day_in_month b vb) days in
    let months : a.month ≡ b.month = omega (arith, m, va.in_month, vb.in_month) in
    let before : days_of_months a.year (a.month - 1) ≡ days_of_months b.year (b.month - 1) =
      rw (y, m) in
    let k : day_of a ≡ day_of b = omega (arith, days, before) in
    sym (made-eq a va)
    ∙ (made_cong a.ordinal b.ordinal a.year b.year a.month b.month (day_of a) (day_of b) e y months
          k
        ∙ made-eq b vb)

not_zero : (year : ℕ) → 1 ≤ year → (eqb_ℤ (pos year) (pos 0)) ≡ false
not_zero year h = ground arith

-- `Date(year, month, day)` of a date that exists.
pub new_date-made :
    (year month k : ℕ)
    → Year year
    → Month month
    → (1 ≤ k) × (k ≤ days_in_month year month)
    → new_date (pos year) (pos month) (pos k) ≡ ok (made (native_ordinal year month k) year month k)
unfolding new_date
new_date-made year month k hy hm hk =
    rw (not_zero year hy.0, normalize_day-kept year month k hy hm hk)
      (unfold calc_ordinal in rw (public_day-kept year month k hk) refl)

-- The date that is constructed from year, month and day of a date that exists has these parts, and
-- `from_ordinal` of its ordinal is that date again.
pub from_ordinal-new_date :
    (year month k : ℕ)
    → Year year
    → Month month
    → (1 ≤ k) × (k ≤ days_in_month year month)
    → (d : Date) × (new_date (pos year) (pos month) (pos k) ≡ ok d)
      × (d.year ≡ year)
      × (d.month ≡ month)
      × (day_of d ≡ k)
      × (from_ordinal (pos d.ordinal) ≡ ok d)
unfolding Found
from_ordinal-new_date year month k hy hm hk =
    let d = made (native_ordinal year month k) year month k in
    let v = made-IsDate d.ordinal year month k hy hm hk refl in
    let bounds = ordinal_bounds d v in
    let (e, found, w, same) = from_ordinal-Found d.ordinal bounds.0 bounds.1 in
    (
      d,
      new_date-made year month k hy hm hk,
      refl,
      refl,
      public_day-kept year month k hk,
      found ∙ ap ok (ordinal_inj e d w v same),
    )

-- Above 3652059 `from_ordinal` raises: a `KeyError` from the table of years up to 4388753, and the
-- `ValueError` that it means to raise only from there on.
pub from_ordinal_above :
    (n : ℕ)
    → 3652059 < n
    → from_ordinal (pos n) ≡ err (if leb n 4388753 then key_error else value_error)
unfolding from_ordinal from_day
from_ordinal_above n h = elim (Bool-cases (leb n 4388753)) [
  | inl low ↦
      let walk : walk_years 7982 2018 (n - 736694) ≡ err key_error =
        walk_years_over 7982 2018 (n - 736694) (omega arith) refl (omega (arith, anchors, h)) in
      ground (arith, walk)
  | inr high ↦ ground arith
]
