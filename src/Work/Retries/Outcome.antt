-- ===== src/Work/Retries/Outcome.antt =====
-- Why the retry loop has ended.
use neo4j_python_driver.Base.{
  ℕ, ◌+◌, ◌<◌, ◌≡◌, refl, sym, ap, ◌∙◌, Bool-cases, true, false, ltb, Option, some, List, [], ◌∷◌,
  Result, ok, err, ◌⊎◌, inl, inr, arith,
}
use neo4j_python_driver.Work.Transactions.{
  Raised, is_driver_error, is_retryable, Session, disconnect,
}
use neo4j_python_driver.Work.Retries.{Attempt, start_of, attempt, after, run_transaction}
use neo4j_python_driver.Work.Retries.Explained.{Succeeded}

module _ {A : Type 0} where
  -- An attempt after which the loop goes on: it has raised an error that can be retried.
  unfoldable pub Retried : Attempt A → Type 0
  Retried t =
      (s : Session) × (e : Raised) × (u : Session) × (attempt t s ≡ (err e, u))
      × (is_driver_error e ≡ true)
      × (is_retryable e ≡ true)

  unfoldable pub Explains : A → Session → List (Attempt A) → Type 0
  Explains a u [] = ⊥
  Explains a u (t ∷ ts) = Succeeded t a u ⊎ (Retried t × Explains a u ts)

  after_err :
      (limit : ℕ) (t0 : Option ℕ) (t : Attempt A)
      (rest : ℕ → Session → Option (Result Raised A × Session)) (r : Result Raised A × Session)
      (e : Raised) (u : Session)
      → after limit t0 t rest r ≡ some (err e, u)
      → ((w : Session) × (r ≡ (err e, w))
          × ((is_driver_error e ≡ false)
              ⊎ (is_retryable e ≡ false)
              ⊎ (start_of t0 t.failed_at + limit < t.checked_at)))
        ⊎ ((f : Raised) × (w : Session) × (r ≡ (err f, w))
            × (is_driver_error f ≡ true)
            × (is_retryable f ≡ true)
            × (rest (start_of t0 t.failed_at) (disconnect w) ≡ some (err e, u)))
  unfolding after
  after_err limit t0 t rest (ok x, s) e u h = absurd (ground arith)
  after_err limit t0 t rest (err f, s) e u h = elim (Bool-cases (is_driver_error f)) [
    | inr d ↦
        let q : f ≡ e = ground arith in
        inl (s, ap (λ x. (err x, s)) q, inl (ap is_driver_error (sym q) ∙ d))
    | inl d ↦ elim (Bool-cases (is_retryable f)) [
      | inr n ↦
          let q : f ≡ e = ground arith in
          inl (s, ap (λ x. (err x, s)) q, inr (inl (ap is_retryable (sym q) ∙ n)))
      | inl n ↦ elim (Bool-cases (ltb (start_of t0 t.failed_at + limit) t.checked_at)) [
        | inl l ↦
            let q : f ≡ e = ground arith in
            inl (s, ap (λ x. (err x, s)) q, inr (inr (ground arith)))
        | inr l ↦ inr (f, s, refl, d, n, ground arith)
      ]
    ]
  ]

  -- Why `e` is raised: it has ended an attempt, and is no error of the driver or the server, or none that
  -- can be retried, or it has come too late.
  unfoldable pub GivesUp : Raised → ℕ → Option ℕ → List (Attempt A) → Type 0
  GivesUp e limit t0 [] = ⊥
  GivesUp e limit t0 (t ∷ ts) =
      ((s : Session) × (u : Session) × (attempt t s ≡ (err e, u))
        × ((is_driver_error e ≡ false)
            ⊎ (is_retryable e ≡ false)
            ⊎ (start_of t0 t.failed_at + limit < t.checked_at)))
      ⊎ (Retried t × GivesUp e limit (some (start_of t0 t.failed_at)) ts)

  -- What the loop raises is what an attempt has raised, the attempts before which have raised errors that
  -- can be retried; unless it is no error of the driver or the server, or cannot be retried, more than
  -- the limit has passed since the first failure.
  pub run_transaction-GivesUp :
      (limit : ℕ) (ts : List (Attempt A)) (t0 : Option ℕ) (s u : Session) (e : Raised)
      → run_transaction limit ts t0 s ≡ some (err e, u)
      → GivesUp e limit t0 ts
  unfolding run_transaction GivesUp Retried
  run_transaction-GivesUp limit [] t0 s u e h = ground arith
  run_transaction-GivesUp limit (t ∷ ts) t0 s u e h =
      elim (after_err limit t0 t _ (attempt t s) e u h) [
        | inl (w, p, why) ↦ inl (s, w, p, why)
        | inr (f, w, p, d, r, more) ↦ inr (
          (s, f, w, p, d, r),
          run_transaction-GivesUp limit ts (some (start_of t0 t.failed_at)) (disconnect w) u e more,
        )
      ]
