-- ===== src/Time/Addition/Differences.antt =====
-- The difference of two dates as a duration, and adding it.
use neo4j_python_driver.Base.{
  ℕ, ◌≤◌, ◌≡◌, refl, ap, ◌∙◌, Bool-cases, subst, inl, inr, arith, ok, err, Result, false,
}
use neo4j_python_driver.Base.Int.{ℤ, pos, pos_part, neg_part, ◌+ℤ◌, ◌-ℤ◌, ◌*ℤ◌, sub_ℕ}
use neo4j_python_driver.Time.Date.{DateError, Date, eqb_ℤ, renumbering, date_add_days, from_ordinal}
use neo4j_python_driver.Time.Date.Ordinal.{IsDate, Found, from_ordinal-Found}
use neo4j_python_driver.Time.Date.RoundTrip.{day_of, ordinal_bounds, ordinal_inj}
use neo4j_python_driver.Time.Date.Shift.{Same, InCalendar, date_add_days-Same}
use neo4j_python_driver.Time.Duration.{
  Duration, in_range, is_int64, average_seconds, borrow, dehydrate_duration,
}
use neo4j_python_driver.Time.Duration.Sums.{IsDuration}
use neo4j_python_driver.Time.Duration.Algebra.{hydrate_duration-dehydrate_duration}
use neo4j_python_driver.Time.Addition.Months.{replaced_lem}
use neo4j_python_driver.Time.Addition.{months_added, date_add, date_difference}

abbrev pub only_days : ℤ → Duration
only_days z = record { months = pos 0; days = z; seconds = pos 0; nanoseconds = pos 0 }

only_days-IsDuration :
    (z : ℤ) → pos_part z ≤ 3652059 → neg_part z ≤ 3652059 → IsDuration (only_days z)
unfolding in_range is_int64 average_seconds borrow ◌+ℤ◌ ◌-ℤ◌ ◌*ℤ◌
only_days-IsDuration z h k = record { proper = (omega arith, inl refl); ranged = ground arith }

difference_bounds :
    (a b : ℕ)
    → a ≤ 3652059
    → b ≤ 3652059
    → (pos_part (sub_ℕ a b) ≤ 3652059) × (neg_part (sub_ℕ a b) ≤ 3652059)
difference_bounds a b h k = ground arith

date_difference_lem :
    (d e : Date)
    → IsDate d
    → IsDate e
    → date_difference d e ≡ ok (only_days (sub_ℕ d.ordinal e.ordinal))
unfolding date_difference dehydrate_duration
date_difference_lem d e v w =
    let (h, k) =
      difference_bounds d.ordinal e.ordinal (ordinal_bounds d v).1 (ordinal_bounds e w).1 in
    hydrate_duration-dehydrate_duration _ (only_days-IsDuration (sub_ℕ d.ordinal e.ordinal) h k)

months_added_none : (r : Result DateError Date) → months_added (pos 0) r ≡ renumbering r
months_added_none (ok d) = refl
months_added_none (err x) = refl

-- The addition of days alone.
pub date_add-only_days :
    (d : Date) (z : ℤ)
    → IsDate d
    → eqb_ℤ z (pos 0) ≡ false
    → date_add d (only_days z) ≡ date_add_days d z
unfolding date_add date_add_days
date_add-only_days d z v h = rw (h, replaced_lem d v, months_added_none) (rw h refl)

difference_sum : (a b : ℕ) → pos b +ℤ sub_ℕ a b ≡ pos a
unfolding ◌+ℤ◌
difference_sum a b = ground arith

difference_inside : (d e : Date) → IsDate d → IsDate e → InCalendar e (sub_ℕ d.ordinal e.ordinal)
difference_inside d e v w = ground (arith, ordinal_bounds d v, ordinal_bounds e w)

from_own_ordinal : (d : Date) → IsDate d → from_ordinal (pos d.ordinal) ≡ ok d
unfolding Found
from_own_ordinal d v =
    let b = ordinal_bounds d v in
    let (f, p, w, o) = from_ordinal-Found d.ordinal b.0 b.1 in p ∙ ap ok (ordinal_inj f d w v o)

same : (d e : Date) → d ≡ e → Same d e
same d e p = record {
  ordinal = ap (λ (c : Date). c.ordinal) p;
  year = ap (λ (c : Date). c.year) p;
  month = ap (λ (c : Date). c.month) p;
  day = ap day_of p;
}

-- The difference of two dates is a duration, and adding it to the second gives the day of the first.
pub date_add-date_difference :
    (d e : Date)
    → IsDate d
    → IsDate e
    → (o : Duration) × (c : Date) × (date_difference d e ≡ ok o) × (date_add e o ≡ ok c) × Same c d
date_add-date_difference d e v w =
    let z = sub_ℕ d.ordinal e.ordinal in
    elim (Bool-cases (eqb_ℤ z (pos 0))) [
      | inl none ↦ (
        only_days z,
        e,
        date_difference_lem d e v w,
        unfold date_add in rw none refl,
        same e d (ordinal_inj e d w v (ground (arith, none))),
      )
      | inr some ↦
          let (c, f, p, q, x) = date_add_days-Same e z w (difference_inside d e v w) in
          let found : from_ordinal (pos e.ordinal +ℤ z) ≡ ok d =
            rw (difference_sum d.ordinal e.ordinal) (from_own_ordinal d v) in
          let reached : f ≡ d = cc (q, found) in
          (
            only_days z,
            c,
            date_difference_lem d e v w,
            date_add-only_days e z w some ∙ p,
            subst (Same c) reached x,
          )
    ]
