-- ===== src/Pool/Checked.antt =====
-- What the selection of an idle connection with its health check hands out.
use neo4j_python_driver.Base.{
  ℕ, zero, suc, ◌≡◌, refl, sym, ap, ◌∙◌, Bool, true, false, some, arith, Bool-cases, Option-cases,
  inl, inr,
}
use neo4j_python_driver.Pool.State.{Pool, modify, close}
use neo4j_python_driver.Pool.Ops.{
  acquire_from_pool, remove_connection, health_check, acquire_from_pool_checked,
}
use neo4j_python_driver.Pool.Use.{
  KeepsUse, acquire_from_pool-KeepsUse, modify-KeepsUse, acquire_from_pool_lem,
}

pub checked_healthy :
    (alive : ℕ → Bool) (a rounds d : ℕ) (p : Pool)
    → (acquire_from_pool a p).1 ≡ some d
    → health_check alive (acquire_from_pool a p).0 d ≡ true
    → acquire_from_pool_checked alive a (suc rounds) p ≡ ((acquire_from_pool a p).0, some d)
unfolding acquire_from_pool_checked
checked_healthy alive a rounds d p e h = rw (e, acquire_from_pool_checked) (rw h)

pub checked_ill :
    (alive : ℕ → Bool) (a rounds d : ℕ) (p : Pool)
    → (acquire_from_pool a p).1 ≡ some d
    → health_check alive (acquire_from_pool a p).0 d ≡ false
    → acquire_from_pool_checked alive a (suc rounds) p
      ≡ acquire_from_pool_checked alive a rounds
          (remove_connection d (modify close d (acquire_from_pool a p).0))
unfolding acquire_from_pool_checked
checked_ill alive a rounds d p e h = rw (e, acquire_from_pool_checked) (rw h)

dropped_use :
    (a d : ℕ) (p : Pool)
    → KeepsUse p (remove_connection d (modify close d (acquire_from_pool a p).0))
unfolding remove_connection
dropped_use a d p c h =
    modify-KeepsUse close (λ x. refl) d (acquire_from_pool a p).0 c
      (acquire_from_pool-KeepsUse a p c h)

free_before :
    (p q : Pool) (c : ℕ) → KeepsUse p q → (q.store c).in_use ≡ false → (p.store c).in_use ≡ false
free_before p q c k free = ground (arith, k c)

-- `_acquire_from_pool_checked` hands out a connection that was free before and is in use now, and
-- that has passed the health check.
pub acquire_from_pool_checked_lem :
    (alive : ℕ → Bool) (a rounds c : ℕ) (p : Pool)
    → (acquire_from_pool_checked alive a rounds p).1 ≡ some c
    → let q = (acquire_from_pool_checked alive a rounds p).0 in
      ((p.store c).in_use ≡ false) × ((q.store c).in_use ≡ true) × (health_check alive q c ≡ true)
acquire_from_pool_checked_lem alive a zero c p e = unfold acquire_from_pool_checked in cc
acquire_from_pool_checked_lem alive a (suc rounds) c p e =
    elim (Option-cases (acquire_from_pool a p).1) [
      | inl e' ↦ unfold acquire_from_pool_checked in absurd (ground arith)
      | inr (d, e') ↦ elim (Bool-cases (health_check alive (acquire_from_pool a p).0 d)) [
        | inl healthy ↦
            let eq = checked_healthy alive a rounds d p e' healthy in
            let same : d ≡ c = cc (eq, e) in
            let (free, taken) = acquire_from_pool_lem a c p (e' ∙ ap some same) in
            rw eq
              (free, taken, ap (health_check alive (acquire_from_pool a p).0) (sym same) ∙ healthy)
        | inr ill ↦
            let eq = checked_ill alive a rounds d p e' ill in
            let q = remove_connection d (modify close d (acquire_from_pool a p).0) in
            let (free, taken, healthy) =
              acquire_from_pool_checked_lem alive a rounds c q (rw eq at e) in
            rw eq (free_before p q c (dropped_use a d p) free, taken, healthy)
      ]
    ]
