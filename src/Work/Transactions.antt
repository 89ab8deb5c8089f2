-- ===== src/Work/Transactions.antt =====
-- `TransactionBase` and `ManagedTransaction` (neo4j/_sync/work/transaction.py) with the handlers that
-- the session gives them (session.py), and a connection that the session takes from the pool and
-- gives back (workspace.py). What the network does in a call is an argument. Cancellation is left
-- out, which the synchronous driver does not have, and so is the bookmark manager.
use neo4j_python_driver.Base.{
  ℕ, suc, ◌+◌, Bool, true, false, if◌then◌else◌, Option, none, some, List, [], ◌∷◌, Result, ok, err,
}
use neo4j_python_driver.Work.Results.{Text}

-- `Neo4jError` or `DriverError`.
pub record Error : Type 0 where
  pub code : ℕ
  pub retryable : Bool

pub data Raised : Type 0 where
  driver_error : Error → Raised
  transaction_closed transaction_failed : Raised
  other_exception : ℕ → Raised

-- `except (DriverError, Neo4jError)`
unfoldable pub is_driver_error : Raised → Bool
is_driver_error (driver_error e) = true
is_driver_error transaction_closed = true
is_driver_error transaction_failed = true
is_driver_error (other_exception n) = false

unfoldable pub is_retryable : Raised → Bool
is_retryable (driver_error e) = e.retryable
is_retryable transaction_closed = false
is_retryable transaction_failed = false
is_retryable (other_exception n) = false

pub record Transaction : Type 0 where
  pub closed : Bool
  pub last_error : Option Raised
  pub bookmark : Option Text

-- A session with the transaction that it has opened last. `opened` says that `_transaction` is set,
-- `taken` and `released` count what the pool has given and got back.
pub record Session : Type 0 where
  pub connected : Bool
  pub opened : Bool
  pub transaction : Transaction
  pub bookmarks : List Text
  pub taken : ℕ
  pub released : ℕ

abbrev pub Returned : Type 0
Returned = Result Raised (Unit {0}) × Session

-- `_update_bookmark`, which passes over an empty text too.
abbrev pub updated : Option Text → List Text → List Text
updated none bs = bs
updated (some []) bs = bs
updated (some (c ∷ cs)) bs = (c ∷ cs) ∷ []

unfoldable pub update_bookmark : Option Text → Session → Session
update_bookmark b s = record s { bookmarks = updated b s.bookmarks }

unfoldable pub disconnect : Session → Session
disconnect s = record s {
  connected = false;
  released = s.released + (if s.connected then 1 else 0);
}

unfoldable pub transaction_closed_handler : Session → Session
transaction_closed_handler s =
    if s.opened
    then disconnect (record (update_bookmark s.transaction.bookmark s) { opened = false })
    else s

unfoldable pub transaction_error_handler : Session → Session
transaction_error_handler s = if s.opened then disconnect (record s { opened = false }) else s

-- `_error_handler`, for a call that raises.
unfoldable pub error_handler : Raised → Session → Session
error_handler e s =
    transaction_error_handler
      (record s { transaction = record s.transaction { last_error = some e } })

-- How a call of the connection fails. `ConnectionErrorHandler` handles a `Neo4jError`, a
-- `ServiceUnavailable` and a `SessionExpired`, and nothing else: a parameter that cannot be packed is a
-- `ValueError`, for example.
pub data CallFailure : Type 0 where
  handled : Error → CallFailure
  unhandled : Raised → CallFailure

-- A call of the connection behind `ConnectionErrorHandler`.
abbrev pub call : Option CallFailure → Session → Returned
call none s = (ok tt, s)
call (some (handled e)) s = (err (driver_error e), error_handler (driver_error e) s)
call (some (unhandled x)) s = (err x, s)

-- The tests at the start of `run` and `_commit`, given `_closed_flag` and `_last_error`.
abbrev pub if_active : Bool → Option Raised → Session → Returned → Returned
if_active true e s rest = (err transaction_closed, s)
if_active false (some e) s rest = (err transaction_failed, s)
if_active false none s rest = rest

unfoldable pub run_query : Option CallFailure → Session → Returned
run_query answer s = if_active s.transaction.closed s.transaction.last_error s (call answer s)

-- The `finally` of `_commit` and `_rollback`.
unfoldable pub close_flag : Session → Session
close_flag s =
    transaction_closed_handler (record s { transaction = record s.transaction { closed = true } })

-- What happens in `_commit`: consuming the results fails, or the commit does, or neither.
pub data Commit : Type 0 where
  results_fail : CallFailure → Commit
  commit_fails : Raised → Commit
  committed : Option Text → Commit

unfoldable pub committing : Commit → Session → Returned
committing (results_fail f) s = let r = call (some f) s in (r.0, close_flag r.1)
committing (commit_fails x) s = (err x, close_flag s)
committing (committed b) s =
    (ok tt, close_flag (record s { transaction = record s.transaction { bookmark = b } }))

unfoldable pub commit : Commit → Session → Returned
commit c s = if_active s.transaction.closed s.transaction.last_error s (committing c s)

-- What happens in `_rollback`; nothing is sent on a connection that is closed, defunct or reset.
pub data Rollback : Type 0 where
  nothing_sent rolled_back : Rollback
  rollback_results_fail : CallFailure → Rollback
  rollback_fails : Raised → Rollback

unfoldable pub rolling_back : Rollback → Session → Returned
rolling_back nothing_sent s = (ok tt, close_flag s)
rolling_back rolled_back s = (ok tt, close_flag s)
rolling_back (rollback_results_fail f) s = let r = call (some f) s in (r.0, close_flag r.1)
rolling_back (rollback_fails x) s = (err x, close_flag s)

unfoldable pub close : Rollback → Session → Returned
close r s = if s.transaction.closed then (ok tt, s) else rolling_back r s

abbrev pub new_transaction : Transaction
new_transaction = record { closed = false; last_error = none; bookmark = none }

-- `_connect`; nothing is pending on a connection that the session still has.
unfoldable pub connect : Option Raised → Session → Returned
connect (some x) s = (err x, disconnect s)
connect none s = let t = disconnect s in (ok tt, record t { connected = true; taken = suc t.taken })

-- BEGIN is appended without the handler, which is around the sending and the answer: what `begin` itself
-- raises is `unhandled`.
abbrev pub begin_after : Option CallFailure → Returned → Returned
begin_after begin (err e, s) = (err e, s)
begin_after begin (ok x, s) = call begin (record s { opened = true; transaction = new_transaction })

-- `_open_transaction`, without pipelining.
unfoldable pub open_transaction : Option Raised → Option CallFailure → Session → Returned
open_transaction acquire begin s = begin_after begin (connect acquire s)
