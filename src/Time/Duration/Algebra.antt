-- ===== src/Time/Duration/Algebra.antt =====
-- Copies, hydration, sums and differences of durations.
use neo4j_python_driver.Base.{ℕ, ◌≡◌, refl, ◌∙◌, ap, sym, arith, ok}
use neo4j_python_driver.Base.Int.{
  ℤ, pos, pos_part, neg_part, ◌+ℤ◌, ◌-ℤ◌, ◌*ℤ◌, +ℤ_parts, -ℤ_parts, eq_of_parts,
}
use neo4j_python_driver.Time.Duration.{
  Duration, nano_seconds, Parts, no_parts, all_nanoseconds, hydrate_duration, add_duration,
  sub_duration, dehydrate_duration,
}
use neo4j_python_driver.Time.Duration.Sums.{nanos, *ℤ_parts, IsDuration, new_duration_sums}

abbrev parts_of : ℤ → ℤ → ℤ → ℤ → Parts
parts_of mo d s ns = record no_parts { months = mo; days = d; seconds = s; nanoseconds = ns }

scaled_zero : (c : ℕ) (z : ℤ) → pos c *ℤ pos 0 +ℤ z ≡ z
scaled_zero c z = eq_of_parts _ _ (omega (arith, +ℤ_parts (pos c *ℤ pos 0) z, *ℤ_parts c (pos 0)))

times_zero : (c : ℕ) → pos c *ℤ pos 0 ≡ pos 0
times_zero c = eq_of_parts _ _ (omega (arith, *ℤ_parts c (pos 0)))

zero_plus : (z : ℤ) → pos 0 +ℤ z ≡ z
zero_plus z = eq_of_parts _ _ (omega (arith, +ℤ_parts (pos 0) z))

plus_zero : (z : ℤ) → z +ℤ pos 0 ≡ z
plus_zero z = eq_of_parts _ _ (omega (arith, +ℤ_parts z (pos 0)))

all_nanoseconds-parts_of :
    (mo d s ns : ℤ) → all_nanoseconds (parts_of mo d s ns) ≡ pos nano_seconds *ℤ s +ℤ ns
unfolding all_nanoseconds
all_nanoseconds-parts_of mo d s ns = simp (times_zero, zero_plus, plus_zero)

-- A duration of four fields: it is returned exactly if it is in range and the seconds and nanoseconds
-- add up.
hydrate_sums :
    (mo d s ns : ℤ) (r : Duration)
    → r.months ≡ mo
    → r.days ≡ d
    → nanos r ≡ pos nano_seconds *ℤ s +ℤ ns
    → IsDuration r
    → hydrate_duration mo d s ns ≡ ok r
unfolding hydrate_duration
hydrate_sums mo d s ns r em ed en v = (new_duration_sums (parts_of mo d s ns) r).1 (
  (
    em ∙ sym (scaled_zero 12 mo),
    ed ∙ sym (scaled_zero 7 d),
    en ∙ sym (all_nanoseconds-parts_of mo d s ns),
  ),
  v,
)

-- What a duration is sent as, it is received as: a copy and the hydration of its fields are the
-- duration again.
pub hydrate_duration-dehydrate_duration :
    (d : Duration)
    → IsDuration d
    → (let (mo, da, s, ns) = dehydrate_duration d in hydrate_duration mo da s ns ≡ ok d)
unfolding dehydrate_duration nanos
hydrate_duration-dehydrate_duration d v =
    hydrate_sums d.months d.days d.seconds d.nanoseconds d refl refl refl v

hydrate_iff :
    (mo d s ns : ℤ) (r : Duration)
    → hydrate_duration mo d s ns ≡ ok r
    → (r.months ≡ mo) × (r.days ≡ d) × (nanos r ≡ pos nano_seconds *ℤ s +ℤ ns)
unfolding hydrate_duration
hydrate_iff mo d s ns r e =
    let ((em, ed, en), v) = (new_duration_sums (parts_of mo d s ns) r).0 e in
    (em ∙ scaled_zero 12 mo, ed ∙ scaled_zero 7 d, en ∙ all_nanoseconds-parts_of mo d s ns)

nanos_difference :
    (z a b s n t m : ℤ)
    → z ≡ pos nano_seconds *ℤ (s +ℤ t) +ℤ (n +ℤ m)
    → a ≡ pos nano_seconds *ℤ s +ℤ n
    → b ≡ pos nano_seconds *ℤ t +ℤ m
    → a ≡ z -ℤ b
nanos_difference z a b s n t m ez ea eb = eq_of_parts _ _ (
    omega (
      arith,
      ap pos_part ez,
      ap neg_part ez,
      ap pos_part ea,
      ap neg_part ea,
      ap pos_part eb,
      ap neg_part eb,
      -ℤ_parts z b,
      +ℤ_parts (pos nano_seconds *ℤ (s +ℤ t)) (n +ℤ m),
      +ℤ_parts (pos nano_seconds *ℤ s) n,
      +ℤ_parts (pos nano_seconds *ℤ t) m,
      *ℤ_parts nano_seconds (s +ℤ t),
      *ℤ_parts nano_seconds s,
      *ℤ_parts nano_seconds t,
      +ℤ_parts s t,
      +ℤ_parts n m,
    ))

scaled_difference :
    (s n t m : ℤ)
    → pos nano_seconds *ℤ s +ℤ n -ℤ (pos nano_seconds *ℤ t +ℤ m)
      ≡ pos nano_seconds *ℤ (s -ℤ t) +ℤ (n -ℤ m)
scaled_difference s n t m = eq_of_parts _ _ (
    omega (
      arith,
      -ℤ_parts (pos nano_seconds *ℤ s +ℤ n) (pos nano_seconds *ℤ t +ℤ m),
      +ℤ_parts (pos nano_seconds *ℤ (s -ℤ t)) (n -ℤ m),
      +ℤ_parts (pos nano_seconds *ℤ s) n,
      +ℤ_parts (pos nano_seconds *ℤ t) m,
      *ℤ_parts nano_seconds (s -ℤ t),
      *ℤ_parts nano_seconds s,
      *ℤ_parts nano_seconds t,
      -ℤ_parts s t,
      -ℤ_parts n m,
    ))

difference : (c a b : ℤ) → c ≡ a +ℤ b → a ≡ c -ℤ b
difference c a b e =
    eq_of_parts _ _ (omega (arith, ap pos_part e, ap neg_part e, +ℤ_parts a b, -ℤ_parts c b))

-- Where the sum of two durations exists, subtracting the second gives the first again, with its
-- seconds and nanoseconds normalized as they were.
pub sub_duration-add_duration :
    (a b c : Duration) → IsDuration a → add_duration a b ≡ ok c → sub_duration c b ≡ ok a
unfolding add_duration sub_duration nanos
sub_duration-add_duration a b c v e =
    let (em, ed, en) = hydrate_iff _ _ _ _ c e in
    hydrate_sums _ _ _ _ a (difference c.months a.months b.months em)
      (difference c.days a.days b.days ed)
      (nanos_difference (nanos c) (nanos a) (nanos b) a.seconds a.nanoseconds b.seconds
          b.nanoseconds en refl refl
        ∙ scaled_difference c.seconds c.nanoseconds b.seconds b.nanoseconds)
      v
