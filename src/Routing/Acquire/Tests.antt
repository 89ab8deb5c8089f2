-- ===== src/Routing/Acquire/Tests.antt =====
-- `Neo4jPool.acquire` where the first reader is down.
use neo4j_python_driver.Base.{
  ℕ, List, ◌≡◌, refl, ◌∙◌, [], ◌∷◌, true, false, none, ok, ◌==◌, if◌then◌else◌, ◌⊎◌, inl, inr,
  Bool-cases, arith,
}
use neo4j_python_driver.Pool.State.{Pool}
use neo4j_python_driver.Pool.Ops.{
  acquire_from_pool_checked, acquire_new_later, has_room, service_unavailable, reset_ok, connected,
  connection_creator, deactivate,
}
use neo4j_python_driver.Pool.Bound.{deactivate-Shrinks}
use neo4j_python_driver.Pool.Acquire.{re_auth_ok, Round, acquire, after_check, opened_or_next}
use neo4j_python_driver.Routing.Elements.{contains}
use neo4j_python_driver.Routing.Table.{RoutingTable, is_fresh, should_be_purged_from_memory}
use neo4j_python_driver.Routing.Tables.{Neo4jPool, lookup, get_or_create_routing_table, purge}
use neo4j_python_driver.Routing.Update.{Fetched, unavailable, ensure_routing_table_is_fresh}
use neo4j_python_driver.Routing.Select.{addresses_for}
use neo4j_python_driver.Routing.Fewest.{Chooses}
use neo4j_python_driver.Routing.Acquire.{acquire_routed}
use neo4j_python_driver.Routing.Acquire.Served.{
  HandsOut, FindsNone, HandsOutRouted, acquire_routed_lem,
}

abbrev a_round : ℕ → Round
a_round a = record {
  alive = λ c. true;
  checks = 0;
  re_auth = record {
    outcome = re_auth_ok;
    closed_after = false;
    defunct_after = false;
    clean_after = true;
    authenticated_after = true;
  };
  reset = λ c. record {
    outcome = reset_ok;
    closed_after = false;
    defunct_after = false;
    clean_after = true;
  };
  opened = if a == 2 then connected 7 else service_unavailable;
  woken = false;
  lost = false;
  before_new = λ p. p;
  while_opening = λ p. p;
  before_next = λ p. p;
}

abbrev plan : ℕ → List Round
plan a = a_round a ∷ []

abbrev table : RoutingTable
table = record {
  initial_routers = 1 ∷ [];
  routers = 1 ∷ [];
  readers = 1 ∷ 2 ∷ [];
  writers = [];
  initialized_without_writers = true;
  last_updated_time = 0;
  ttl = 300;
  database = 0;
}

abbrev no_connections : Pool
no_connections = record {
  store = λ c. record {
    address = 1;
    in_use = false;
    closed = false;
    defunct = false;
    stale = false;
    is_reset = true;
    authenticated = true;
  };
  connections = λ a. [];
  reservations = λ a. 0;
  max_size = none;
}

abbrev routed : Neo4jPool
routed = record { pool = no_connections; address = 1; routing_tables = (0, table) ∷ [] }

abbrev Unlimited : Pool → Type 0
Unlimited p = p.max_size ≡ none

reached : (p : Pool) → Unlimited p → HandsOut (acquire true 2 (plan 2) p)
unfolding acquire after_check opened_or_next acquire_from_pool_checked acquire_new_later has_room
    connection_creator
reached p h = rw h (7, refl)

reached_or_not :
    (a : ℕ) (p : Pool)
    → Unlimited p
    → HandsOut (acquire true a (plan a) p)
      ⊎ (FindsNone (acquire true a (plan a) p)
          × Unlimited (deactivate a (acquire true a (plan a) p).0))
unfolding acquire after_check opened_or_next acquire_from_pool_checked acquire_new_later has_room
    connection_creator
reached_or_not a p h = elim (Bool-cases (a == 2)) [
  | inl up ↦ inl (rw (h, up) (7, refl))
  | inr down ↦
      inr (rw (h, down) (refl, (deactivate-Shrinks a _).limit ∙ (deactivate-Shrinks a _).limit))
]

abbrev first_of : List ℕ → ℕ
first_of [] = 0
first_of (x ∷ xs) = x

first_of-Chooses : Chooses first_of
unfolding Chooses contains
first_of-Chooses [] h = absurd (ground (arith, h))
first_of-Chooses (x ∷ xs) h = ground arith

abbrev no_fetch : ℕ → Neo4jPool → Neo4jPool × Fetched
no_fetch a q = (q, unavailable)

abbrev itself : List ℕ → List ℕ
itself as' = as'

table_fresh :
    ensure_routing_table_is_fresh no_fetch (λ a. a ∷ []) itself 50 (λ a. a) [] true 0 routed
    ≡ (routed, ok none)
unfolding ensure_routing_table_is_fresh get_or_create_routing_table purge lookup is_fresh
    should_be_purged_from_memory
table_fresh = refl

acquire_routed_lem_example : HandsOutRouted (
    acquire_routed true plan first_of true 0 no_fetch (λ a. a ∷ []) itself 50 (λ a. a) [] 60 routed)
acquire_routed_lem_example =
    acquire_routed_lem true plan first_of true 0 2 first_of-Chooses Unlimited reached reached_or_not
      no_fetch (λ a. a ∷ []) itself 50 (λ a. a) [] 60 routed routed none refl table_fresh refl
      second
  where
    second : contains 2 (addresses_for true 0 routed) ≡ true
    second = unfold contains addresses_for lookup in refl
