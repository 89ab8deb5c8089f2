-- ===== src/Routing/Acquire.antt =====
-- `Neo4jPool.acquire` (neo4j/_sync/io/_pool.py).
pub mod Served
mod Tests
use neo4j_python_driver.Base.{
  ℕ, zero, suc, List, Bool, true, false, Option, none, some, Result, ok, err, ◌==◌, if◌then◌else◌,
  length,
}
use neo4j_python_driver.Pool.State.{Pool}
use neo4j_python_driver.Pool.Acquire.{
  Round, AcquireError, timed_out, configuration_error, re_auth_error, no_service, open_error,
  Acquired,
}
use neo4j_python_driver.Pool.Acquire
use neo4j_python_driver.Routing.Tables.{Neo4jPool, deactivate_address}
use neo4j_python_driver.Routing.Select.{Unavailable, select_address, addresses_for}
use neo4j_python_driver.Routing.Update.{Failure, Fetched, Attempt, ensure_routing_table_is_fresh}

-- `ClientError` for a timeout of 0, what the update of the routing table raises, `SessionExpired`, and
-- what `_acquire` raises.
pub data RoutedError : Type 0 where
  no_timeout session_expired : RoutedError
  not_updated : Failure → RoutedError
  not_acquired : AcquireError → RoutedError

abbrev pub Routed : Type 0
Routed = Neo4jPool × Option (Result RoutedError ℕ)

-- `except (ServiceUnavailable, SessionExpired)`
abbrev pub is_unavailable : AcquireError → Bool
is_unavailable no_service = true
is_unavailable timed_out = false
is_unavailable configuration_error = false
is_unavailable re_auth_error = false
is_unavailable open_error = false

-- The end of a round: an address whose server is not available is deactivated, and the loop goes on.
unfoldable pub after_acquire : ℕ → (Neo4jPool → Routed) → Neo4jPool → Acquired → Routed
after_acquire address next q (p, none) = (record q { pool = p }, none)
after_acquire address next q (p, some (ok c)) = (record q { pool = p }, some (ok c))
after_acquire address next q (p, some (err e)) =
    let q' = record q { pool = p } in
    if is_unavailable e
    then next (deactivate_address address q')
    else (q', some (err (not_acquired e)))

unfoldable pub after_select : (ℕ → Routed) → Neo4jPool → Result Unavailable ℕ → Routed
after_select there q (err e) = (q, some (err session_expired))
after_select there q (ok address) = there address

-- `plan` has the rounds of `_acquire` at each address; the loop comes to an address once. `choice` is
-- `random.choice`. The fuel bounds the rounds.
module _ (auth : Bool) (plan : ℕ → List Round) (choice : List ℕ → ℕ) (readonly : Bool)
    (db : ℕ) where
  unfoldable pub acquire_loop : ℕ → Neo4jPool → Routed
  acquire_loop zero q = (q, none)
  acquire_loop (suc n) q =
      after_select
        (λ a. after_acquire a (acquire_loop n) q (Acquire.acquire auth a (plan a) q.pool)) q
        (select_address choice readonly db q)

  -- The loop has a round for each server of the access mode, and one that finds none.
  unfoldable pub after_update : Attempt → Routed
  after_update (q, err e) = (q, some (err (not_updated e)))
  after_update (q, ok r) = acquire_loop (suc (length (addresses_for readonly db q))) q

  -- The rest are the parameters of `ensure_routing_table_is_fresh`.
  unfoldable pub acquire_routed :
      (ℕ → Neo4jPool → Neo4jPool × Fetched)
      → (ℕ → List ℕ)
      → (List ℕ → List ℕ)
      → ℕ
      → (ℕ → ℕ)
      → List ℕ
      → ℕ
      → Neo4jPool
      → Routed
  acquire_routed fetch resolve set_order now unresolved addresses timeout q =
      if timeout == 0
      then (q, some (err no_timeout))
      else after_update (
          ensure_routing_table_is_fresh fetch resolve set_order now unresolved addresses readonly db
            q)
