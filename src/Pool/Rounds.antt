-- ===== src/Pool/Rounds.antt =====
-- `_acquire_from_pool_checked` as steps of the pool's clients.
use neo4j_python_driver.Base.{
  ℕ, zero, suc, ◌+◌, ◌<◌, ◌≡◌, refl, sym, ap, subst, Bool, none, arith, Bool-cases, Option-cases,
  inl, inr,
}
use neo4j_python_driver.Pool.State.{Pool, update, modify, close}
use neo4j_python_driver.Pool.Ops.{
  find_idle, acquire_from_pool, remove_connection, health_check, acquire_from_pool_checked,
}
use neo4j_python_driver.Pool.Checked.{checked_healthy, checked_ill}
use neo4j_python_driver.Pool.System.{
  System, picks, closes_unhealthy, removes_unhealthy, Reach, here, next,
}

Reach-trans : (s t u : System) → Reach s t → Reach t u → Reach s u
Reach-trans s t u r here = r
Reach-trans s t u r (next q st) = next (Reach-trans s t _ r q) st

-- Steps lead to the pool `q`.
abbrev Leads : System → Pool → Type 0
Leads s q = (h : ℕ → ℕ) × Reach s (record s { pool = q; holders = h })

taken_held : (h : ℕ → ℕ) (c : ℕ) → 0 < update h c (h c + 1) c
unfolding update
taken_held h c = ground arith

unpicked : (a : ℕ) (p : Pool) → (acquire_from_pool a p).1 ≡ none → (acquire_from_pool a p).0 ≡ p
unfolding acquire_from_pool
unpicked a p e = elim (Option-cases (find_idle p.store (p.connections a))) [
  | inl f ↦ rw (f, acquire_from_pool) refl
  | inr (c, f) ↦ absurd (ground (arith, rw (f, acquire_from_pool) at e))
]

nothing_picked :
    (alive : ℕ → Bool) (a rounds : ℕ) (p : Pool)
    → (acquire_from_pool a p).1 ≡ none
    → (acquire_from_pool_checked alive a (suc rounds) p).0 ≡ p
unfolding acquire_from_pool_checked
nothing_picked alive a rounds p e = rw (e, acquire_from_pool_checked) (unpicked a p e)

-- Without other steps in between, the rounds of `_acquire_from_pool_checked` are steps that pick, close
-- and remove connections.
acquire_from_pool_checked-Leads :
    (alive : ℕ → Bool) (a rounds : ℕ) (s : System)
    → Leads s (acquire_from_pool_checked alive a rounds s.pool).0
acquire_from_pool_checked-Leads alive a zero s =
    unfold acquire_from_pool_checked in (s.holders, here)
acquire_from_pool_checked-Leads alive a (suc rounds) s =
    let p = s.pool in
    elim (Option-cases (acquire_from_pool a p).1) [
      | inl e ↦ subst (Leads s) (sym (nothing_picked alive a rounds p e)) (s.holders, here)
      | inr (c, e) ↦
          let q = (acquire_from_pool a p).0 in
          let h = update s.holders c (s.holders c + 1) in
          let picked : Reach s (record s { pool = q; holders = h }) = next here (picks a c e) in
          elim (Bool-cases (health_check alive q c)) [
            | inl healthy ↦
                subst (Leads s) (ap (λ r. r.0) (sym (checked_healthy alive a rounds c p e healthy)))
                  (h, picked)
            | inr ill ↦
                let w : System = record s { pool = q; holders = h } in
                let held = taken_held s.holders c in
                let x : System = record w { pool = modify close c q } in
                let y : System = record x {
                  pool = remove_connection c x.pool;
                  holders = update h c 0;
                } in
                let removed : Reach s y =
                  next (next picked (closes_unhealthy c held)) (removes_unhealthy c held) in
                let (h', more) = acquire_from_pool_checked-Leads alive a rounds y in
                subst (Leads s) (ap (λ r. r.0) (sym (checked_ill alive a rounds c p e ill)))
                  (h', Reach-trans s y _ removed more)
          ]
    ]
