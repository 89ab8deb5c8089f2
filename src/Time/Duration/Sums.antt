-- ===== src/Time/Duration/Sums.antt =====
-- The sums that make a duration, and its normal form.
use neo4j_python_driver.Base.{
  ℕ, suc, ◌+◌, ◌*◌, ◌<◌, ◌≡◌, refl, ◌∙◌, ap, sym, true, ◌⊎◌, ◌↔◌, arith, ok,
}
use neo4j_python_driver.Base.Int.{ℤ, pos, negsuc, pos_part, neg_part, ◌+ℤ◌, ◌*ℤ◌, +ℤ_parts}
use neo4j_python_driver.Time.Duration.{
  Duration, nano_seconds, symmetric_quotient, symmetric_remainder, in_range, normalized, checked,
  make_duration, Parts, all_nanoseconds, new_duration,
}

-- The sign of the nanoseconds is that of the seconds, and there is less than a second of them.
abbrev pub Proper : ℤ → ℤ → Type 0
Proper s (pos n) = (n < nano_seconds) × ((n ≡ 0) ⊎ (neg_part s ≡ 0))
Proper s (negsuc n) = (suc n < nano_seconds) × (pos_part s ≡ 0)

-- All nanoseconds of a duration, beside its months and days.
unfoldable pub nanos : Duration → ℤ
nanos d = pos nano_seconds *ℤ d.seconds +ℤ d.nanoseconds

-- How the product with a constant reads for `omega`.
pub *ℤ_parts :
    (c : ℕ) (a : ℤ)
    → pos_part (pos c *ℤ a) + c * neg_part a ≡ neg_part (pos c *ℤ a) + c * pos_part a
unfolding ◌*ℤ◌
*ℤ_parts c a = grind arith

divmod_value :
    (t : ℤ)
    → pos nano_seconds *ℤ symmetric_quotient t nano_seconds +ℤ symmetric_remainder t nano_seconds
      ≡ t
unfolding symmetric_quotient symmetric_remainder ◌*ℤ◌ ◌+ℤ◌
divmod_value (pos n) = ground arith
divmod_value (negsuc n) = ground arith

divmod-Proper :
    (t : ℤ) → Proper (symmetric_quotient t nano_seconds) (symmetric_remainder t nano_seconds)
unfolding symmetric_quotient symmetric_remainder
divmod-Proper (pos n) = ground arith
divmod-Proper (negsuc n) = ground arith

balance :
    (s n z m : ℤ)
    → pos nano_seconds *ℤ s +ℤ n ≡ pos nano_seconds *ℤ z +ℤ m
    → nano_seconds * pos_part s + pos_part n + nano_seconds * neg_part z + neg_part m
      ≡ nano_seconds * neg_part s + neg_part n + nano_seconds * pos_part z + pos_part m
balance s n z m e = omega (
  arith,
  +ℤ_parts (pos nano_seconds *ℤ s) n,
  +ℤ_parts (pos nano_seconds *ℤ z) m,
  *ℤ_parts nano_seconds s,
  *ℤ_parts nano_seconds z,
  ap pos_part e,
  ap neg_part e,
)

-- Only one proper pair stands for a number of nanoseconds.
Proper-unique :
    (s n z m : ℤ)
    → Proper s n
    → Proper z m
    → pos nano_seconds *ℤ s +ℤ n ≡ pos nano_seconds *ℤ z +ℤ m
    → (s ≡ z) × (n ≡ m)
Proper-unique s (pos n) z (pos m) h k e = let b = balance s (pos n) z (pos m) e in ground (arith, b)
Proper-unique s (pos n) z (negsuc m) h k e =
    let b = balance s (pos n) z (negsuc m) e in ground (arith, b)
Proper-unique s (negsuc n) z (pos m) h k e =
    let b = balance s (negsuc n) z (pos m) e in ground (arith, b)
Proper-unique s (negsuc n) z (negsuc m) h k e =
    let b = balance s (negsuc n) z (negsuc m) e in ground (arith, b)

pub record IsDuration (d : Duration) : Type 0 where
  pub proper : Proper d.seconds d.nanoseconds
  pub ranged : in_range d ≡ true

duration_cong :
    (mo d s n mo' d' s' n' : ℤ)
    → mo ≡ mo'
    → d ≡ d'
    → s ≡ s'
    → n ≡ n'
    → (let x : Duration = record { months = mo; days = d; seconds = s; nanoseconds = n } in x)
      ≡ record { months = mo'; days = d'; seconds = s'; nanoseconds = n' }
duration_cong mo d s n mo' d' s' n' e f g h = rw (e, f, g, h) refl

normalized-eq :
    (mo days total : ℤ) (d : Duration)
    → d.months ≡ mo
    → d.days ≡ days
    → nanos d ≡ total
    → Proper d.seconds d.nanoseconds
    → normalized mo days total ≡ d
unfolding nanos
normalized-eq mo days total d em ed en h =
    let (es, ens) =
      Proper-unique (symmetric_quotient total nano_seconds) (symmetric_remainder total nano_seconds)
        d.seconds d.nanoseconds (divmod-Proper total) h (divmod_value total ∙ sym en) in
    duration_cong mo days _ _ d.months d.days d.seconds d.nanoseconds (sym em) (sym ed) es ens

checked_iff : (x d : Duration) → (checked x ≡ ok d) ↔ ((x ≡ d) × (in_range x ≡ true))
unfolding checked
checked_iff x d = (there, λ h. rw h.1 (ap ok h.0))
  where
    there : (checked x ≡ ok d) → (x ≡ d) × (in_range x ≡ true)
    there e = ground arith

-- The sums that the constructor makes of its arguments.
abbrev pub SumsTo : Parts → Duration → Type 0
SumsTo p d =
    (d.months ≡ pos 12 *ℤ p.years +ℤ p.months)
    × (d.days ≡ pos 7 *ℤ p.weeks +ℤ p.days)
    × (nanos d ≡ all_nanoseconds p)

SumsTo-normalized :
    (p : Parts) (d : Duration)
    → (let x =
          normalized
            (pos 12 *ℤ p.years +ℤ p.months)
            (pos 7 *ℤ p.weeks +ℤ p.days)
            (all_nanoseconds p) in
        (x ≡ d) × (in_range x ≡ true))
    → SumsTo p d × IsDuration d
unfolding nanos
SumsTo-normalized p d (e, r) = rw (← e) (
  (refl, refl, divmod_value (all_nanoseconds p)),
  record { proper = divmod-Proper (all_nanoseconds p); ranged = r },
)

-- The constructor in terms of its own sums and tests.
pub new_duration_sums :
    (p : Parts) (d : Duration) → (new_duration p ≡ ok d) ↔ (SumsTo p d × IsDuration d)
unfolding new_duration make_duration
new_duration_sums p d = (
  λ e. SumsTo-normalized p d ((checked_iff _ d).0 e),
  λ (h : SumsTo p d × IsDuration d).
      let same = normalized-eq _ _ (all_nanoseconds p) d h.0.0 h.0.1 h.0.2 h.1.proper in
      (checked_iff _ d).1 (same, rw same h.1.ranged),
)
