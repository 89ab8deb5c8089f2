-- ===== src/Work/Retries.antt =====
-- `Session._run_transaction` (neo4j/_sync/work/session.py), behind `execute_read` and
-- `execute_write`.
pub mod Fairness
pub mod Released
pub mod Explained
pub mod Outcome
mod Tests
use neo4j_python_driver.Base.{
  ℕ, ◌+◌, Bool, true, false, if◌then◌else◌, ltb, Option, none, some, List, [], ◌∷◌, Result, ok, err,
}
use neo4j_python_driver.Work.Transactions.{
  CallFailure, Raised, is_driver_error, is_retryable, Transaction, Session, Returned, disconnect,
  call, run_query, Commit, commit, Rollback, close, open_transaction,
}

-- What the transaction function does with the transaction: it runs a query, or reads a result, and may
-- catch what this raises.
pub data Step : Type 0 where
  query : Option CallFailure → Step
  read_result : Option CallFailure → Step

-- All that happens from outside in one round of the loop: answers of the pool and the server, what
-- the transaction function does and returns or raises, and the two times read after a failure.
pub record Attempt (A : Type 0) : Type 0 where
  pub acquire : Option Raised
  pub begin : Option CallFailure
  pub steps : List Step
  pub outcome : Result Raised A
  pub commit : Commit
  pub rollback : Rollback
  pub failed_at : ℕ
  pub checked_at : ℕ

-- A result that has failed with its transaction is no longer attached to the connection.
abbrev pub read_if : Option Raised → Option CallFailure → Session → Session
read_if none answer s = (call answer s).1
read_if (some e) answer s = s

unfoldable pub step : Step → Session → Session
step (query answer) s = (run_query answer s).1
step (read_result answer) s = read_if s.transaction.last_error answer s

unfoldable pub work : List Step → Session → Session
work [] s = s
work (x ∷ xs) s = work xs (step x s)

abbrev pub start_of : Option ℕ → ℕ → ℕ
start_of none now = now
start_of (some t0) now = t0

module _ {A : Type 0} where
  abbrev pub if_closed : Raised → Returned → Result Raised A × Session
  if_closed e (err f, s) = (err f, s)
  if_closed e (ok x, s) = (err e, s)

  abbrev pub if_committed : A → Returned → Result Raised A × Session
  if_committed a (err e, s) = (err e, s)
  if_committed a (ok x, s) = (ok a, s)

  -- The transaction function has returned or raised.
  unfoldable pub finish_work : Attempt A → Result Raised A → Session → Result Raised A × Session
  finish_work t (err e) s = if_closed e (close t.rollback s)
  finish_work t (ok a) s = if_committed a (commit t.commit s)

  abbrev pub if_opened : Attempt A → Returned → Result Raised A × Session
  if_opened t (err e, s) = (err e, s)
  if_opened t (ok x, s) = finish_work t t.outcome (work t.steps s)

  -- The inner `try` of the loop.
  unfoldable pub attempt : Attempt A → Session → Result Raised A × Session
  attempt t s = if_opened t (open_transaction t.acquire t.begin s)

  -- What the loop does after an attempt, given the maximum time to retry and `t0`.
  unfoldable pub after :
      ℕ
      → Option ℕ
      → Attempt A
      → (ℕ → Session → Option (Result Raised A × Session))
      → Result Raised A × Session
      → Option (Result Raised A × Session)
  after limit t0 t rest (ok a, s) = some (ok a, s)
  after limit t0 t rest (err e, s) =
      if is_driver_error e
      then (if is_retryable e
          then (if ltb (start_of t0 t.failed_at + limit) t.checked_at
              then some (err e, disconnect s)
              else rest (start_of t0 t.failed_at) (disconnect s))
          else some (err e, disconnect s))
      else some (err e, s)

  -- The loop, over the attempts that will be made; `none` is a loop that goes on after them.
  unfoldable pub run_transaction :
      ℕ → List (Attempt A) → Option ℕ → Session → Option (Result Raised A × Session)
  run_transaction limit [] t0 s = none
  run_transaction limit (t ∷ ts) t0 s =
      after limit t0 t (λ start u. run_transaction limit ts (some start) u) (attempt t s)
