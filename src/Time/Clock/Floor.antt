-- ===== src/Time/Clock/Floor.antt =====
-- Division that rounds down.
use neo4j_python_driver.Base.{ℕ, ◌+◌, ◌*◌, ◌<◌, ◌≡◌, arith}
use neo4j_python_driver.Base.Int.{
  ℤ, pos, negsuc, pos_part, neg_part, ◌+ℤ◌, ◌*ℤ◌, +ℤ_parts, eq_of_parts,
}
use neo4j_python_driver.Packstream.Value.{mod_ℤ}
use neo4j_python_driver.Time.Clock.{div_ℤ, nano_seconds, new_clock_time}
use neo4j_python_driver.Time.Duration.Sums.{*ℤ_parts}
use native.Mathlib.Nat.{div-add-mod, mod-lt}

-- Quotient and remainder make up the dividend.
pub div-mod_parts :
    (z : ℤ) (m : ℕ)
    → 0 < m
    → m * pos_part (div_ℤ z m) + mod_ℤ z m + neg_part z ≡ m * neg_part (div_ℤ z m) + pos_part z
unfolding div_ℤ mod_ℤ
div-mod_parts (pos n) m h = grind (arith, div-add-mod n m)
div-mod_parts (negsuc n) m h = grind (arith, div-add-mod n m, mod-lt n h)

pub mod_ℤ-below : (z : ℤ) (m : ℕ) → 0 < m → mod_ℤ z m < m
unfolding mod_ℤ
mod_ℤ-below (pos n) m h = grind arith
mod_ℤ-below (negsuc n) m h = grind arith

-- A clock time with less than a second of nanoseconds is kept as it is.
pub new_clock_time_lem :
    (s : ℤ) (n : ℕ)
    → n < nano_seconds
    → new_clock_time s (pos n) ≡ record { seconds = s; nanoseconds = n }
unfolding new_clock_time
new_clock_time_lem s n h = rw (quotient, remainder)
  where
    total : ℤ
    total = pos nano_seconds *ℤ s +ℤ pos n

    parts :
        nano_seconds * pos_part s + n + neg_part total ≡ nano_seconds * neg_part s + pos_part total
    parts = omega (arith, +ℤ_parts (pos nano_seconds *ℤ s) (pos n), *ℤ_parts nano_seconds s)

    quotient : div_ℤ total nano_seconds ≡ s
    quotient = eq_of_parts _ _ (
        omega (
          arith,
          parts,
          div-mod_parts total nano_seconds (omega arith),
          mod_ℤ-below total nano_seconds (omega arith),
        ))

    remainder : mod_ℤ total nano_seconds ≡ n
    remainder = omega (
      arith,
      parts,
      div-mod_parts total nano_seconds (omega arith),
      mod_ℤ-below total nano_seconds (omega arith),
    )
