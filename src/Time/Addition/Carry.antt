-- ===== src/Time/Addition/Carry.antt =====
-- The month and the year that an addition of months gives.
use neo4j_python_driver.Base.{
  ℕ, zero, suc, ◌+◌, ◌*◌, ◌≤◌, ◌<◌, ◌≡◌, refl, inl, inr, Bool-cases, arith,
}
use neo4j_python_driver.Base.Int.{ℤ, pos, negsuc, pos_part, neg_part, ◌+ℤ◌, ◌-ℤ◌, ltb_ℤ, int_laws}
use neo4j_python_driver.Time.Date.{Date}
use neo4j_python_driver.Time.Date.Ordinal.{Month}
use neo4j_python_driver.Time.Duration.{symmetric_quotient, symmetric_remainder}
use neo4j_python_driver.Time.Addition.{carry_down, carry_up, carried, month_after}

-- Two years with months, counted in months from year 0, are `months` apart.
abbrev pub Apart : ℤ → ℤ → ℤ → ℤ → ℤ → Type 0
Apart y m months y2 m2 =
    12 * pos_part y + pos_part m + pos_part months + 12 * neg_part y2 + neg_part m2
    ≡ 12 * pos_part y2 + pos_part m2 + neg_part months + 12 * neg_part y + neg_part m

-- The same month, as a year and a month that is small enough, or one of the twelve.
abbrev Down : ℤ → ℤ → ℤ × ℤ → Type 0
Down y m r = Apart y m (pos 0) r.0 r.1 × (pos_part r.1 ≤ 12)

abbrev Carried : ℤ → ℤ → ℤ × ℤ → Type 0
Carried y m r = Apart y m (pos 0) r.0 r.1 × Month (pos_part r.1)

module _ (y m : ℤ) where
  pub Down-step : (r : ℤ × ℤ) → Down (y +ℤ pos 1) (m -ℤ pos 12) r → Down y m r
  Down-step r h = omega (int_laws, h.0, h.1)

  pub Carried-step : (r : ℤ × ℤ) → Carried (y -ℤ pos 1) (m +ℤ pos 12) r → Carried y m r
  Carried-step r h = omega (int_laws, h.0, h.1)

  pub less_down :
      (n : ℕ)
      → 12 < pos_part m
      → pos_part m ≤ 12 * suc n + 12
      → pos_part (m -ℤ pos 12) ≤ 12 * n + 12
  unfolding ◌-ℤ◌
  less_down n l h = ground arith

  pub less_up :
      (n : ℕ)
      → pos_part m < 1
      → neg_part m + 1 ≤ 12 * suc n + pos_part m
      → (neg_part (m +ℤ pos 12) + 1 ≤ 12 * n + pos_part (m +ℤ pos 12))
        × (pos_part (m +ℤ pos 12) ≤ 12)
  unfolding ◌+ℤ◌
  less_up n l h = ground arith

carry_down_lem : (n : ℕ) (y m : ℤ) → pos_part m ≤ 12 * n + 12 → Down y m (carry_down n y m)
unfolding carry_down
carry_down_lem zero y m h = (refl, omega arith)
carry_down_lem (suc n) y m h = elim (Bool-cases (ltb_ℤ (pos 12) m)) [
  | inr small ↦ rw small (refl, ground (arith, small))
  | inl large ↦ rw large (
      Down-step y m _
        (carry_down_lem n (y +ℤ pos 1) (m -ℤ pos 12) (less_down y m n (ground (arith, large)) h)))
]

carry_up_lem :
    (n : ℕ) (y m : ℤ)
    → pos_part m ≤ 12
    → neg_part m + 1 ≤ 12 * n + pos_part m
    → Carried y m (carry_up n y m)
unfolding carry_up
carry_up_lem zero y m b h = (refl, omega arith)
carry_up_lem (suc n) y m b h = elim (Bool-cases (ltb_ℤ m (pos 1))) [
  | inr large ↦ rw large (refl, ground (arith, large))
  | inl small ↦
      let (k, c) = less_up y m n (ground (arith, small)) h in
      rw small (Carried-step y m _ (carry_up_lem n (y -ℤ pos 1) (m +ℤ pos 12) c k))
]

carried_lem : (y m : ℤ) → Carried y m (carried y m)
unfolding carried
carried_lem y m =
    let r = carry_down (pos_part m) y m in
    let d = carry_down_lem (pos_part m) y m (omega arith) in
    let u = carry_up_lem (suc (neg_part r.1)) r.0 r.1 d.1 (omega arith) in
    omega (arith, d.0, u.0, u.1)

divmod_parts :
    (z : ℤ)
    → 12 * pos_part (symmetric_quotient z 12) + pos_part (symmetric_remainder z 12) + neg_part z
      ≡ 12 * neg_part (symmetric_quotient z 12) + neg_part (symmetric_remainder z 12) + pos_part z
unfolding symmetric_quotient symmetric_remainder
divmod_parts (pos n) = ground arith
divmod_parts (negsuc n) = ground arith

pub month_after_lem :
    (d : Date) (months : ℤ)
    → Apart (pos d.year) (pos d.month) months (month_after d months).0 (month_after d months).1
      × Month (pos_part (month_after d months).1)
unfolding month_after
month_after_lem d months =
    let (s, b) =
      carried_lem (pos d.year +ℤ symmetric_quotient months 12)
        (pos d.month +ℤ symmetric_remainder months 12) in
    omega (int_laws, s, b, divmod_parts months)
