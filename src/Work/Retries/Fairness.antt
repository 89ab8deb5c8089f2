-- ===== src/Work/Retries/Fairness.antt =====
-- What each operation of a transaction does with the connection.
use neo4j_python_driver.Base.{
  ◌+◌, ◌≡◌, refl, sym, ap, subst, ◌∙◌, Bool, true, false, if◌then◌else◌, Bool-cases, Option, none,
  some, List, [], ◌∷◌, ok, err, inl, inr, arith,
}
use neo4j_python_driver.Work.Transactions.{
  CallFailure, handled, unhandled, Raised, driver_error, transaction_failed, is_driver_error,
  Session, Returned, update_bookmark, disconnect, transaction_closed_handler,
  transaction_error_handler, error_handler, call, if_active, close_flag, committing, results_fail,
  commit_fails, committed, rolling_back, nothing_sent, rolled_back, rollback_results_fail,
  rollback_fails, run_query, Commit, commit, Rollback, close,
}
use neo4j_python_driver.Work.Retries.{Step, query, read_result, read_if, step, work}

-- A connection is held only for a transaction, and all others have been given back.
pub record Fair (s : Session) : Type 0 where
  pub for_transaction : s.connected ≡ true → s.opened ≡ true
  pub balance : s.taken ≡ s.released + (if s.connected then 1 else 0)

-- Nothing is held.
pub record Idle (s : Session) : Type 0 where
  pub disconnected : s.connected ≡ false
  pub all_released : s.taken ≡ s.released

pub disconnect-Idle :
    (s : Session) → s.taken ≡ s.released + (if s.connected then 1 else 0) → Idle (disconnect s)
unfolding disconnect
disconnect-Idle s b = record { disconnected = refl; all_released = b }

pub Idle-Fair : (s : Session) → Idle s → Fair s
Idle-Fair s v = record {
  for_transaction = λ c. absurd (ground (arith, v.disconnected));
  balance = v.all_released ∙ rw v.disconnected (omega arith);
}

pub if_both :
    (P : Session → Type 0) (c : Bool) (x y : Session)
    → (c ≡ true → P x)
    → (c ≡ false → P y)
    → P (if c then x else y)
if_both P true x y h k = h refl
if_both P false x y h k = k refl

-- Without a transaction nothing is held.
pub unopened-Idle : (s : Session) → Fair s → s.opened ≡ false → Idle s
unopened-Idle s v o =
    let d : s.connected ≡ false = elim (Bool-cases s.connected) [
      | inl c ↦ absurd (ground (arith, v.for_transaction c))
      | inr c ↦ c
    ] in
    record { disconnected = d; all_released = v.balance ∙ rw d (omega arith) }

pub close_flag-Idle : (s : Session) → Fair s → Idle (close_flag s)
unfolding close_flag transaction_closed_handler update_bookmark
close_flag-Idle s v =
    if_both Idle s.opened _ _ (λ o. disconnect-Idle _ v.balance)
      (λ o.
        let i = unopened-Idle s v o in
        record { disconnected = i.disconnected; all_released = i.all_released })

pub error_handler-Idle : (e : Raised) (s : Session) → Fair s → Idle (error_handler e s)
unfolding error_handler transaction_error_handler
error_handler-Idle e s v =
    if_both Idle s.opened _ _ (λ o. disconnect-Idle _ v.balance)
      (λ o.
        let i = unopened-Idle s v o in
        record { disconnected = i.disconnected; all_released = i.all_released })

-- While the transaction function runs.
pub record Active (s : Session) : Type 0 where
  pub fair : Fair s
  pub unclosed : s.transaction.closed ≡ false

pub error_handler-Active : (e : Raised) (s : Session) → Active s → Active (error_handler e s)
unfolding error_handler transaction_error_handler disconnect
error_handler-Active e s v = record {
  fair = Idle-Fair _ (error_handler-Idle e s v.fair);
  unclosed =
      if_both (λ t. t.transaction.closed ≡ false) s.opened _ _ (λ o. v.unclosed) (λ o. v.unclosed);
}

pub call-Active : (answer : Option CallFailure) (s : Session) → Active s → Active (call answer s).1
call-Active none s v = v
call-Active (some (handled e)) s v = error_handler-Active (driver_error e) s v
call-Active (some (unhandled x)) s v = v

pub if_active_cases :
    (P : Returned → Type 0) (c : Bool) (e : Option Raised) (s : Session) (rest : Returned)
    → c ≡ false
    → P (err transaction_failed, s)
    → P rest
    → P (if_active c e s rest)
if_active_cases P true e s rest h f r = absurd (ground arith)
if_active_cases P false (some e) s rest h f r = f
if_active_cases P false none s rest h f r = r

pub read_if-Active :
    (e : Option Raised) (answer : Option CallFailure) (s : Session)
    → Active s
    → Active (read_if e answer s)
read_if-Active none answer s v = call-Active answer s v
read_if-Active (some e) answer s v = v

pub step-Active : (x : Step) (s : Session) → Active s → Active (step x s)
unfolding step run_query
step-Active (query answer) s v =
    if_active_cases (λ r. Active r.1) s.transaction.closed s.transaction.last_error s _ v.unclosed v
      (call-Active answer s v)
step-Active (read_result answer) s v = read_if-Active s.transaction.last_error answer s v

pub work-Active : (xs : List Step) (s : Session) → Active s → Active (work xs s)
unfolding work
work-Active [] s v = v
work-Active (x ∷ xs) s v = work-Active xs (step x s) (step-Active x s v)

-- What a call that ends a transaction leaves.
unfoldable pub Ends : Returned → Type 0
Ends (ok x, s) = Idle s
Ends (err e, s) = Fair s × (is_driver_error e ≡ false → Idle s)

call-Fair : (answer : Option CallFailure) (s : Session) → Fair s → Fair (call answer s).1
call-Fair none s v = v
call-Fair (some (handled e)) s v = Idle-Fair _ (error_handler-Idle (driver_error e) s v)
call-Fair (some (unhandled x)) s v = v

Idle-Ends : (r : Returned) → Idle r.1 → Ends r
unfolding Ends
Idle-Ends (ok x, s) v = v
Idle-Ends (err e, s) v = (Idle-Fair s v, λ d. v)

pub committing-Ends : (c : Commit) (s : Session) → Fair s → Ends (committing c s)
unfolding committing
committing-Ends (results_fail f) s v = Idle-Ends _ (close_flag-Idle _ (call-Fair (some f) s v))
committing-Ends (commit_fails x) s v = Idle-Ends _ (close_flag-Idle s v)
committing-Ends (committed b) s v =
    Idle-Ends _
      (close_flag-Idle _ (record { for_transaction = v.for_transaction; balance = v.balance }))

pub commit-Ends : (c : Commit) (s : Session) → Active s → Ends (commit c s)
unfolding commit Ends is_driver_error
commit-Ends c s v =
    if_active_cases Ends s.transaction.closed s.transaction.last_error s _ v.unclosed
      (v.fair, λ d. absurd (ground (arith, d))) (committing-Ends c s v.fair)

pub rolling_back-Idle : (r : Rollback) (s : Session) → Fair s → Idle (rolling_back r s).1
unfolding rolling_back
rolling_back-Idle nothing_sent s v = close_flag-Idle s v
rolling_back-Idle rolled_back s v = close_flag-Idle s v
rolling_back-Idle (rollback_results_fail f) s v = close_flag-Idle _ (call-Fair (some f) s v)
rolling_back-Idle (rollback_fails e) s v = close_flag-Idle s v

pub close-Idle : (r : Rollback) (s : Session) → Active s → Idle (close r s).1
unfolding close
close-Idle r s v =
    let e : (if s.transaction.closed then (ok tt, s) else rolling_back r s) ≡ rolling_back r s =
      ap (λ c. if c then (ok tt, s) else rolling_back r s) v.unclosed in
    subst (λ (x : Returned). Idle x.1) (sym e) (rolling_back-Idle r s v.fair)
