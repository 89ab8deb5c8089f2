-- ===== src/Work/Retries/Tests.antt =====
-- The retry loop on rounds of its own.
use neo4j_python_driver.Base.{ℕ, ◌≡◌, refl, true, false, none, some, [], ◌∷◌, ok, err}
use neo4j_python_driver.Work.Transactions.{
  Error, handled, unhandled, other_exception, driver_error, transaction_failed, is_driver_error,
  is_retryable, new_transaction, Session, update_bookmark, disconnect, transaction_closed_handler,
  transaction_error_handler, error_handler, close_flag, committing, committed, rolled_back,
  rolling_back, commit, close, connect, open_transaction, run_query,
}
use neo4j_python_driver.Work.Retries.{
  query, Attempt, step, work, finish_work, attempt, after, run_transaction,
}
use neo4j_python_driver.Work.Retries.Outcome.{GivesUp, run_transaction-GivesUp}

abbrev deadlock : Error
deadlock = record { code = 1; retryable = true }

-- The second query fails.
abbrev failing : Attempt ℕ
failing = record {
  acquire = none;
  begin = none;
  steps = query none ∷ query (some (handled deadlock)) ∷ [];
  outcome = err (driver_error deadlock);
  commit = committed none;
  rollback = rolled_back;
  failed_at = 5;
  checked_at = 6;
}

abbrev passing : Attempt ℕ
passing = record failing {
  steps = query none ∷ [];
  outcome = ok 7;
  commit = committed (some (70 ∷ []));
}

abbrev idle : Session
idle = record {
  connected = false;
  opened = false;
  transaction = new_transaction;
  bookmarks = [];
  taken = 0;
  released = 0;
}

abbrev after_retry : Session
after_retry = record {
  connected = false;
  opened = false;
  transaction = record { closed = true; last_error = none; bookmark = some (70 ∷ []) };
  bookmarks = (70 ∷ []) ∷ [];
  taken = 2;
  released = 2;
}

-- A function that catches the failure of a query and returns does not get its transaction committed.
swallowed : (attempt (record failing { outcome = ok 7 }) idle).0 ≡ err transaction_failed
unfolding attempt open_transaction connect work step run_query finish_work commit
    transaction_error_handler error_handler disconnect
swallowed = refl

-- A query whose parameters cannot be packed fails, and does not keep the transaction from being committed.
packing_caught :
    (attempt (record passing { steps = query (some (unhandled (other_exception 1))) ∷ [] }) idle).0
    ≡ ok 7
unfolding attempt open_transaction connect work step run_query finish_work commit committing
    close_flag transaction_closed_handler update_bookmark disconnect
packing_caught = refl

-- With metadata that cannot be packed the session keeps the connection.
connection_kept :
    (attempt (record passing { begin = some (unhandled (other_exception 1)) }) idle).1.connected
    ≡ true
unfolding attempt open_transaction connect disconnect
connection_kept = refl

abbrev after_failure : Session
after_failure = record {
  connected = false;
  opened = false;
  transaction = record {
    closed = true;
    last_error = some (driver_error deadlock);
    bookmark = none;
  };
  bookmarks = [];
  taken = 1;
  released = 1;
}

given_up :
    run_transaction 30 (record failing { checked_at = 36 } ∷ []) none idle
    ≡ some (err (driver_error deadlock), after_failure)
unfolding run_transaction after attempt open_transaction connect work step run_query finish_work
    close rolling_back close_flag transaction_closed_handler transaction_error_handler error_handler
    update_bookmark disconnect is_driver_error is_retryable
given_up = refl

run_transaction-GivesUp_example :
    GivesUp (driver_error deadlock) 30 none (record failing { checked_at = 36 } ∷ [])
run_transaction-GivesUp_example =
    run_transaction-GivesUp 30 (record failing { checked_at = 36 } ∷ []) none idle after_failure
      (driver_error deadlock) given_up
