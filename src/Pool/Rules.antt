-- ===== src/Pool/Rules.antt =====
-- Rules for the two loops: a relation between pools that every step has, the loop has.
use neo4j_python_driver.Base.{
  ℕ, zero, suc, List, [], ◌∷◌, Bool, true, false, Bool-cases, Option-cases, inl, inr,
}
use neo4j_python_driver.Pool.State.{Pool, modify, close}
use neo4j_python_driver.Pool.Ops.{
  acquire_from_pool, remove_connection, health_check, acquire_from_pool_checked, Reset,
  ResetOutcome, reset_ok, reset_failed, reset_cancelled, after_reset, by_outcome, clean_one,
  clean_up,
}

module _ (R : Pool → Pool → Type 0) (same : (p : Pool) → R p p)
    (chain : (p q r : Pool) → R p q → R q r → R p r) where
  module _ (cleaned : (r : Reset) (c : ℕ) (p : Pool) → R p (modify (after_reset r) c p))
      (closed : (c : ℕ) (p : Pool) → R p (modify close c p)) where
    by_outcome-induct :
        (o : ResetOutcome) (r : Reset) (c : ℕ) (p : Pool) → R p (by_outcome o r c p).0
    unfolding by_outcome
    by_outcome-induct reset_ok r c p = cleaned r c p
    by_outcome-induct reset_failed r c p = cleaned r c p
    by_outcome-induct reset_cancelled r c p = chain p _ _ (cleaned r c p) (closed c _)

    clean_one-induct :
        (skip b : Bool) (r : Reset) (c : ℕ) (p : Pool) → R p (clean_one skip b r c p).0
    unfolding clean_one
    clean_one-induct true b r c p = same p
    clean_one-induct false true r c p = closed c p
    clean_one-induct false false r c p = by_outcome-induct r.outcome r c p

    pub clean_up-induct :
        (reset : ℕ → Reset) (cs : List ℕ) (b : Bool) (p : Pool) → R p (clean_up reset b cs p).0
    unfolding clean_up
    clean_up-induct reset [] b p = same p
    clean_up-induct reset (c ∷ cs) b p =
        chain p _ _ (clean_one-induct _ b (reset c) c p) (clean_up-induct reset cs _ _)

  pub checked-induct :
      ((a : ℕ) (p : Pool) → R p (acquire_from_pool a p).0)
      → ((c : ℕ) (p : Pool) → R p (remove_connection c (modify close c p)))
      → (alive : ℕ → Bool) (a rounds : ℕ) (p : Pool)
      → R p (acquire_from_pool_checked alive a rounds p).0
  unfolding acquire_from_pool_checked
  checked-induct taken dropped alive a zero p = same p
  checked-induct taken dropped alive a (suc rounds) p =
      elim (Option-cases (acquire_from_pool a p).1) [
        | inl e ↦ rw (e, acquire_from_pool_checked) (taken a p)
        | inr (c, e) ↦ elim (Bool-cases (health_check alive (acquire_from_pool a p).0 c)) [
          | inl healthy ↦ rw (e, acquire_from_pool_checked) (rw healthy (taken a p))
          | inr ill ↦
              rw (e, acquire_from_pool_checked)
                (rw ill (
                  chain p _ _ (taken a p)
                    (chain _ _ _ (dropped c _) (checked-induct taken dropped alive a rounds _))))
        ]
      ]
