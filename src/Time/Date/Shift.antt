-- ===== src/Time/Date/Shift.antt =====
-- The addition of days to a date.
use neo4j_python_driver.Base.{
  ℕ, ◌+◌, ◌-◌, ◌≤◌, ◌≡◌, refl, sym, ap, ◌∙◌, true, leb, ◌&&◌, if◌then◌else◌, Bool-cases,
  Option-cases, inl, inr, arith, ok, err, none, some,
}
use neo4j_python_driver.Base.Int.{ℤ, pos, negsuc, pos_part, neg_part, ◌+ℤ◌, +ℤ_parts}
use neo4j_python_driver.Time.Calendar.{days_in_month, native_ordinal}
use neo4j_python_driver.Time.Years.{days_in_month_bounds}
use neo4j_python_driver.Time.Date.{
  assertion_error, Date, in_calendar, public_day, calc_ordinal, from_ordinal, has_day, new_day,
  copied, moved, add_days, renumbered, renumbering, date_add_days,
}
use neo4j_python_driver.Time.Date.Ordinal.{
  Normal, Month, Year, IsDate, made, made-IsDate, public_day-kept, Found, from_ordinal-Found,
}
use neo4j_python_driver.Time.Date.RoundTrip.{day_of, public_day_bounds, ordinal_inj}

-- The same day under one ordinal.
pub record Same (e f : Date) : Type 0 where
  pub ordinal : e.ordinal ≡ f.ordinal
  pub year : e.year ≡ f.year
  pub month : e.month ≡ f.month
  pub day : day_of e ≡ day_of f

-- The sum of the ordinal and the days is an ordinal.
abbrev pub InCalendar : Date → ℤ → Type 0
InCalendar d days =
    (neg_part days + 1 ≤ d.ordinal + pos_part days)
    × (d.ordinal + pos_part days ≤ neg_part days + 3652059)

pub renumbered_lem :
    (d : Date)
    → Year d.year
    → Month d.month
    → (1 ≤ day_of d) × (day_of d ≤ days_in_month d.year d.month)
    → renumbered d ≡ ok (record d { ordinal = native_ordinal d.year d.month (day_of d) })
unfolding renumbered in_calendar
renumbered_lem d y m h = ground arith

sum_ordinal :
    (d : Date) (days : ℤ)
    → InCalendar d days
    → pos d.ordinal +ℤ days ≡ pos (d.ordinal + pos_part days - neg_part days)
unfolding ◌+ℤ◌
sum_ordinal d (pos n) h = ground arith
sum_ordinal d (negsuc n) h = ground arith

sum_date :
    (d : Date) (days : ℤ)
    → InCalendar d days
    → (f : Date) × (from_ordinal (pos d.ordinal +ℤ days) ≡ ok f)
      × IsDate f
      × (f.ordinal ≡ d.ordinal + pos_part days - neg_part days)
unfolding Found
sum_date d days h =
    let (f, e, v, o) =
      from_ordinal-Found (d.ordinal + pos_part days - neg_part days) (omega arith) (omega arith) in
    (f, rw (sum_ordinal d days h) e, v, o)

has_day_lem : (n : ℕ) (z : ℤ) → n ≤ 31 → Normal n z → has_day z ≡ true
has_day_lem n (pos k) b h = ground arith
has_day_lem n (negsuc k) b h = ground arith

-- By way of the ordinal.
by_ordinal :
    (d : Date) (days : ℤ)
    → (f : Date) → from_ordinal (pos d.ordinal +ℤ days) ≡ ok f
    → IsDate f
    → (e : Date) × (renumbering (moved none d days) ≡ ok e) × Same e f
unfolding calc_ordinal
by_ordinal d days f p v =
    let c = record d { year = f.year; month = f.month; day = f.day } in
    (
      record c { ordinal = native_ordinal f.year f.month (day_of f) },
      ap (λ r. renumbering (copied d r)) p
          ∙ renumbered_lem c v.in_year v.in_month (public_day_bounds f.year f.month f.day v.in_day),
      record { ordinal = sym v.numbered; year = refl; month = refl; day = refl },
    )

new_day_facts :
    (day days z : ℤ)
    → new_day day days ≡ some z
    → (k j : ℕ) × (day ≡ pos k)
      × (z ≡ pos j)
      × ((1 ≤ j) × (j ≤ 27))
      × (j + neg_part days ≡ k + pos_part days)
new_day_facts (negsuc k) days z h = absurd (ground arith)
new_day_facts (pos k) days z h =
    let sum = pos k +ℤ days in
    elim (Bool-cases (leb 1 (pos_part sum) && leb (pos_part sum) 27)) [
      | inr over ↦ absurd (ground (arith, over))
      | inl within ↦
          let same : sum ≡ z = ground (arith, within) in
          let bounds : (1 ≤ pos_part sum) × (pos_part sum ≤ 27) = ground (arith, within) in
          (
            k,
            pos_part sum,
            refl,
            sym same ∙ positive sum bounds.0,
            bounds,
            omega (arith, +ℤ_parts (pos k) days, ap neg_part (positive sum bounds.0)),
          )
    ]
  where
    positive : (s : ℤ) → 1 ≤ pos_part s → s ≡ pos (pos_part s)
    positive (pos n) h = refl
    positive (negsuc n) h = absurd (omega arith)

shortcut :
    (d : Date) (days : ℤ) (k j : ℕ) (f : Date)
    → IsDate d
    → d.day ≡ pos k
    → (1 ≤ j) × (j ≤ 27)
    → j + neg_part days ≡ k + pos_part days
    → IsDate f
    → f.ordinal ≡ d.ordinal + pos_part days - neg_part days
    → (e : Date) × (renumbering (moved (some (pos j)) d days) ≡ ok e) × Same e f
unfolding calc_ordinal public_day native_ordinal
shortcut d days k j f v p b s w o =
    let inside : (1 ≤ j) × (j ≤ days_in_month d.year d.month) =
      omega (arith, days_in_month_bounds d.year d.month) in
    let c = record d { day = pos j } in
    let number : d.ordinal ≡ native_ordinal d.year d.month k =
      v.numbered ∙ ap (calc_ordinal d.year d.month) p in
    let e = made (native_ordinal d.year d.month j) d.year d.month j in
    let x = made-IsDate e.ordinal d.year d.month j v.in_year v.in_month inside refl in
    let same : e ≡ f = ordinal_inj e f x w (omega (arith, number, o, s)) in
    (
      record c { ordinal = native_ordinal d.year d.month j },
      renumbered_lem c v.in_year v.in_month inside,
      record {
        ordinal = ap (λ (g : Date). g.ordinal) same;
        year = ap (λ (g : Date). g.year) same;
        month = ap (λ (g : Date). g.month) same;
        day = sym (public_day-kept d.year d.month j inside) ∙ ap day_of same;
      },
    )

sum_parts :
    (d : Date) (days : ℤ) (f : Date)
    → from_ordinal (pos d.ordinal +ℤ days) ≡ ok f
    → IsDate f
    → f.ordinal ≡ d.ordinal + pos_part days - neg_part days
    → IsDate d
    → (e : Date) × (renumbering (moved (new_day d.day days) d days) ≡ ok e) × Same e f
sum_parts d days f p w o v = elim (Option-cases (new_day d.day days)) [
  | inl n ↦
      let (e, q, x) = by_ordinal d days f p w in
      (e, ap (λ r. renumbering (moved r d days)) n ∙ q, x)
  | inr (z, n) ↦
      let (k, j, a, b, c, s) = new_day_facts d.day days z n in
      let (e, q, x) = shortcut d days k j f v a c s w o in
      (e, ap (λ r. renumbering (moved r d days)) (n ∙ ap some b) ∙ q, x)
]

-- Adding days to a date gives the day of the calendar that is this number of days away, with its ordinal,
-- also where the month stays the same and the ordinals of the calendar are not searched.
pub date_add_days-Same :
    (d : Date) (days : ℤ)
    → IsDate d
    → InCalendar d days
    → (e : Date) × (f : Date) × (date_add_days d days ≡ ok e)
      × (from_ordinal (pos d.ordinal +ℤ days) ≡ ok f)
      × Same e f
unfolding date_add_days add_days
date_add_days-Same d days v h =
    let (f, p, w, o) = sum_date d days h in
    let (e, q, x) = sum_parts d days f p w o v in
    (
      e,
      f,
      ap (λ c. renumbering (if c then moved (new_day d.day days) d days else err assertion_error))
            (has_day_lem (days_in_month d.year d.month) d.day
              (days_in_month_bounds d.year d.month).1 v.in_day)
          ∙ q,
      p,
      x,
    )
