-- ===== src/Pool/Acquire/Tests.antt =====
-- `_acquire` on a pool with one idle connection.
use neo4j_python_driver.Base.{
  List, ◌≡◌, refl, [], ◌∷◌, true, false, some, ok, err, ◌==◌, if◌then◌else◌,
}
use neo4j_python_driver.Pool.State.{Connection, Pool, modify, update, remove, modify_all}
use neo4j_python_driver.Pool.Ops.{
  find_idle, acquire_from_pool, acquire_from_pool_checked, acquire_new_later, has_room,
  health_check, open_failed, reset_ok, connected, connection_creator, in_use_connection_count,
  count_in_use, clean_one, clean_up, release, Opened, remove_connection,
}
use neo4j_python_driver.Pool.Acquire.{
  ReAuthOutcome, re_auth_ok, re_auth_unsupported, Round, configuration_error, timed_out, acquire,
  after_check, re_authed, opened_or_next,
}
use neo4j_python_driver.Pool.Acquire.Handed.{Handed, acquire-Handed}

abbrev idle_connection : Connection
idle_connection = record {
  address = 1;
  in_use = false;
  closed = false;
  defunct = false;
  stale = false;
  is_reset = true;
  authenticated = true;
}

abbrev one_idle : Pool
one_idle = record {
  store = λ c. idle_connection;
  connections = λ a. if a == 1 then 4 ∷ [] else [];
  reservations = λ a. 0;
  max_size = some 1;
}

abbrev a_round : ReAuthOutcome → Opened → Round
a_round outcome opened = record {
  alive = λ c. true;
  checks = 9;
  re_auth = record {
    outcome = outcome;
    closed_after = false;
    defunct_after = false;
    clean_after = true;
    authenticated_after = true;
  };
  reset = λ c. record {
    outcome = reset_ok;
    closed_after = false;
    defunct_after = false;
    clean_after = true;
  };
  opened = opened;
  woken = false;
  lost = false;
  before_new = λ p. p;
  while_opening = λ p. p;
  before_next = λ p. p;
}

-- A token of the session that the connection cannot take is an error, after which the connection stays in use.
still_in_use :
    (acquire true 1 (a_round re_auth_unsupported open_failed ∷ []) one_idle).1
    ≡ some (err configuration_error)
unfolding acquire after_check re_authed acquire_from_pool_checked acquire_from_pool find_idle
    health_check modify update
still_in_use = refl

counted_in_use :
    in_use_connection_count 1
      (acquire true 1 (a_round re_auth_unsupported open_failed ∷ []) one_idle).0
    ≡ 1
unfolding acquire after_check re_authed acquire_from_pool_checked acquire_from_pool find_idle
    health_check modify update in_use_connection_count count_in_use
counted_in_use = refl

-- So with a pool of one connection the next call waits until its time is over.
blocked :
    (acquire false 1
      (a_round re_auth_ok (connected 5) ∷ [])
      (acquire true 1 (a_round re_auth_unsupported open_failed ∷ []) one_idle).0).1
    ≡ some (err timed_out)
unfolding acquire after_check re_authed opened_or_next acquire_from_pool_checked acquire_from_pool
    find_idle health_check modify update acquire_new_later has_room
blocked = refl

abbrev two_rounds : List Round
two_rounds = a_round re_auth_unsupported open_failed ∷ a_round re_auth_ok (connected 5) ∷ []

-- The purged connection fails the check of the next round, in which a new one is opened.
handed_out :
    acquire false 1 two_rounds one_idle ≡ ((acquire false 1 two_rounds one_idle).0, some (ok 5))
unfolding acquire after_check re_authed opened_or_next acquire_from_pool_checked acquire_from_pool
    find_idle health_check modify update acquire_new_later has_room connection_creator remove
    release clean_up clean_one modify_all remove_connection
handed_out = refl

acquire-Handed_example : Handed 1 two_rounds 5 (acquire false 1 two_rounds one_idle).0
acquire-Handed_example = acquire-Handed false 1 two_rounds one_idle _ 5 handed_out
