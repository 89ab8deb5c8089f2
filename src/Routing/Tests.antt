-- ===== src/Routing/Tests.antt =====
-- Runs of the routing pool, and its theorems at concrete inputs.
use neo4j_python_driver.Base.{
  ℕ, ◌≡◌, inl, ◌≤◌, ◌==◌, if◌then◌else◌, refl, List, [], ◌∷◌, true, false, none, some, arith, ok,
}
use neo4j_python_driver.Pool.State.{Connection, Pool}
use neo4j_python_driver.Pool.Ops.{in_use_connection_count}
use neo4j_python_driver.Routing.Elements.{
  contains, add, add_each, ordered_set, discard, is_empty, remove_element,
}
use neo4j_python_driver.Routing.Table.{
  Server, route, read_role, write_role, RoutingTable, new_routing_table, parse_routing_info,
  parse_servers, parse_server, parse_addresses, extend,
}
use neo4j_python_driver.Routing.Tables.{Neo4jPool, lookup, deactivate_address}
use neo4j_python_driver.Routing.Update.{
  Fetched, returned, unavailable, fetch_routing_table, read_routing_info, usable,
  update_routing_table, ensure_routing_table_is_fresh,
}
use neo4j_python_driver.Routing.Select.{addresses_for, select_address}
use neo4j_python_driver.Routing.Deactivate.{Absent, Used, deactivate_address_lem}
use neo4j_python_driver.Routing.Installed.{Ensured, ensure_routing_table_is_fresh-Ensured}
use neo4j_python_driver.Routing.Progress.{
  Done, NoneFatal, KeepsElements, Answers, update_routing_table-Done,
}
use neo4j_python_driver.Routing.Fewest.{Chooses, select_address_lem}

ordered : ordered_set (3 ∷ 1 ∷ 3 ∷ 2 ∷ []) ≡ 3 ∷ 1 ∷ 2 ∷ []
unfolding ordered_set add_each add contains
ordered = refl

removed : remove_element 1 (3 ∷ 1 ∷ 2 ∷ []) ≡ some (3 ∷ 2 ∷ [])
unfolding remove_element contains discard
removed = refl

not_there : remove_element 7 (3 ∷ 1 ∷ 2 ∷ []) ≡ none
unfolding remove_element contains
not_there = refl

-- Router 1 describes a cluster; the other addresses do not answer.
abbrev cluster : List Server
cluster =
    record { role = some write_role; addresses = some (some 2 ∷ []) }
    ∷ (record { role = some read_role; addresses = some (some 3 ∷ some 4 ∷ []) }
        ∷ (record { role = some route; addresses = some (some 1 ∷ some 2 ∷ []) } ∷ []))

abbrev cluster_table : RoutingTable
cluster_table = new_routing_table 50 0 (1 ∷ 2 ∷ []) (3 ∷ 4 ∷ []) (2 ∷ []) 300

parsed_cluster : parse_routing_info 50 0 cluster 300 ≡ some cluster_table
unfolding parse_routing_info parse_servers parse_server parse_addresses extend
parsed_cluster = refl

abbrev fetch_from : ℕ → Neo4jPool → Neo4jPool × Fetched
fetch_from a q =
    if a == 1
    then (q, returned (record { servers = some cluster; ttl = some 300; db = none } ∷ []))
    else (q, unavailable)

abbrev idle_connection : Connection
idle_connection = record {
  address = 3;
  in_use = false;
  closed = false;
  defunct = false;
  stale = false;
  is_reset = true;
  authenticated = true;
}

-- Address 3 has a connection in use.
abbrev some_pool : Pool
some_pool = record {
  store = λ c. record idle_connection { in_use = true };
  connections = λ a. if a == 3 then 0 ∷ [] else [];
  reservations = λ a. 0;
  max_size = some 2;
}

abbrev start : Neo4jPool
start = record { pool = some_pool; address = 1; routing_tables = [] }

abbrev routed : Neo4jPool
routed = record start { routing_tables = (0, cluster_table) ∷ [] }

ensure_routing_table_is_fresh-Ensured_example : Ensured fetch_from 50 true 0 (
    ensure_routing_table_is_fresh fetch_from
      (λ a. a ∷ [])
      (λ as'. as')
      50
      (λ a. a)
      (3 ∷ [])
      true
      0
      start)
ensure_routing_table_is_fresh-Ensured_example =
    ensure_routing_table_is_fresh-Ensured fetch_from (λ a. a ∷ []) (λ as'. as') 50 (λ a. a) (3 ∷ [])
      true 0 start

deactivate_address_lem_example :
    Absent 3 (deactivate_address 3 routed).routing_tables
    × Used
        (deactivate_address 3 routed).pool.store
        ((deactivate_address 3 routed).pool.connections 3)
deactivate_address_lem_example = deactivate_address_lem 3 routed

abbrev first_of : List ℕ → ℕ
first_of [] = 0
first_of (x ∷ xs) = x

first_of-Chooses : Chooses first_of
unfolding Chooses contains
first_of-Chooses [] h = cc
first_of-Chooses (x ∷ xs) h = ground arith

readers : is_empty (addresses_for true 0 routed) ≡ false
unfolding addresses_for lookup new_routing_table ordered_set add_each add contains
readers = refl

select_address_lem_example :
    (a : ℕ) × (select_address first_of true 0 routed ≡ ok a)
    × (contains a (addresses_for true 0 routed) ≡ true)
    × ((b : ℕ)
        → contains b (addresses_for true 0 routed) ≡ true
        → in_use_connection_count a routed.pool ≤ in_use_connection_count b routed.pool)
select_address_lem_example = select_address_lem first_of true 0 routed first_of-Chooses readers

abbrev cluster_fetched : Fetched
cluster_fetched = returned (record { servers = some cluster; ttl = some 300; db = none } ∷ [])

abbrev all_answer : ℕ → Neo4jPool → Neo4jPool × Fetched
all_answer a q = (q, cluster_fetched)

answered :
    (a : ℕ) (q : Neo4jPool)
    → (fetch_routing_table all_answer (λ a. a ∷ []) (λ as'. as') 50 0 a q).1
      ≡ ok (some cluster_table)
unfolding fetch_routing_table read_routing_info usable parse_routing_info parse_servers parse_server
    parse_addresses extend new_routing_table ordered_set add_each add contains
answered a q = refl

update_routing_table-Done_example :
    Done (update_routing_table all_answer (λ a. a ∷ []) (λ as'. as') 50 0 start)
update_routing_table-Done_example =
    update_routing_table-Done all_answer (λ a. a ∷ []) (λ as'. as') 50 0 1 1 start
      (unfold NoneFatal in λ a q. (some cluster_table, answered a q))
      (unfold KeepsElements in λ xs x h. h) (inl (ground arith)) (unfold contains in refl)
      (unfold Answers in λ q. (cluster_table, answered 1 q))
