-- ===== src/Pool/Tests.antt =====
-- Runs of the pool, and its theorems at concrete inputs.
use neo4j_python_driver.Base.{ℕ, ◌-◌, ◌≡◌, refl, [], ◌∷◌, true, false, some, ◌==◌}
use neo4j_python_driver.Pool.State.{Connection, Pool, update, modify, remove}
use neo4j_python_driver.Pool.Ops.{
  find_idle, acquire_from_pool, acquire_from_pool_checked, health_check, remove_connection,
  connected, connection_creator, in_use_connection_count, count_in_use,
}
use neo4j_python_driver.Pool.System.{System}

abbrev fresh_connection : Connection
fresh_connection = record {
  address = 1;
  in_use = false;
  closed = false;
  defunct = false;
  stale = false;
  is_reset = true;
  authenticated = true;
}

-- Connection 0 is stale.
abbrev some_store : ℕ → Connection
some_store c = record fresh_connection { stale = c == 0 }

abbrev empty_pool : Pool
empty_pool = record {
  store = some_store;
  connections = λ a. [];
  reservations = λ a. 0;
  max_size = some 2;
}

abbrev no_clients : System
no_clients = record { pool = empty_pool; creators = λ a. 0; holders = λ c. 0 }

abbrev one_reserved : Pool
one_reserved = record empty_pool { reservations = update (λ a. 0) 1 1 }

abbrev one_creator : System
one_creator = record { pool = one_reserved; creators = update (λ a. 0) 1 1; holders = λ c. 0 }

abbrev one_held : System
one_held = record {
  pool = (connection_creator 1 (connected 7) one_reserved).0;
  creators = update one_creator.creators 1 (one_creator.creators 1 - 1);
  holders = update (λ c. 0) 7 1;
}

-- The stale connection is passed over and removed.
abbrev two_idle : Pool
two_idle = record empty_pool { connections = λ a. 0 ∷ 3 ∷ [] }

stale_skipped : (acquire_from_pool_checked (λ c. true) 1 5 two_idle).1 ≡ some 3
unfolding acquire_from_pool_checked acquire_from_pool find_idle health_check modify update
    remove_connection remove
stale_skipped = refl

counted : in_use_connection_count 1 one_held.pool ≡ 1
unfolding in_use_connection_count count_in_use connection_creator modify update
counted = refl
