-- ===== src/Routing/Tables.antt =====
-- `Neo4jPool`: an `IOPool` and the routing tables of the databases, with the operations that need no
-- router. Each stands under `refresh_lock`.
use neo4j_python_driver.Base.{
  ℕ, List, [], ◌∷◌, Bool, true, false, Option, none, some, ◌==◌, if◌then◌else◌, ◌≡◌, ==_refl, arith,
}
use neo4j_python_driver.Pool.State.{Pool}
use neo4j_python_driver.Pool.Ops
use neo4j_python_driver.Routing.Elements.{contains, discard}
use neo4j_python_driver.Routing.Table.{
  RoutingTable, new_routing_table, servers, should_be_purged_from_memory,
}

-- The dict `routing_tables`, from database to table, in its order of insertion.
abbrev pub Tables : Type 0
Tables = List (ℕ × RoutingTable)

unfoldable pub lookup : ℕ → Tables → Option RoutingTable
lookup db [] = none
lookup db ((k, t) ∷ ts) = if k == db then some t else lookup db ts

unfoldable pub assign : ℕ → RoutingTable → Tables → Tables
assign db t [] = (db, t) ∷ []
assign db t ((k, u) ∷ ts) =
    let rest = assign db t ts in if k == db then (k, t) ∷ ts else (k, u) ∷ rest

pub record Neo4jPool : Type 0 where
  pub pool : Pool
  pub address : ℕ
  pub routing_tables : Tables

unfoldable pub get_or_create_routing_table : ℕ → ℕ → Neo4jPool → Neo4jPool × RoutingTable
get_or_create_routing_table now db q = elim (lookup db q.routing_tables) [
  | some t ↦ (q, t)
  | none ↦
      let t = new_routing_table now db (q.address ∷ []) [] [] 0 in
      (record q { routing_tables = assign db t q.routing_tables }, t)
]

-- `deactivate`: the address leaves every routing table, and its idle connections are closed.
unfoldable pub discard_address : ℕ → RoutingTable → RoutingTable
discard_address address t = record t {
  routers = discard address t.routers;
  readers = discard address t.readers;
  writers = discard address t.writers;
}

unfoldable pub discard_from_tables : ℕ → Tables → Tables
discard_from_tables address [] = []
discard_from_tables address ((k, t) ∷ ts) =
    (k, discard_address address t) ∷ discard_from_tables address ts

unfoldable pub deactivate_address : ℕ → Neo4jPool → Neo4jPool
deactivate_address address q = record q {
  routing_tables = discard_from_tables address q.routing_tables;
  pool = Ops.deactivate address q.pool;
}

-- `on_write_failure`
unfoldable pub on_write_failure : ℕ → ℕ → Neo4jPool → Neo4jPool
on_write_failure address db q = elim (lookup db q.routing_tables) [
  | none ↦ q
  | some t ↦ record q {
    routing_tables = assign db (record t { writers = discard address t.writers }) q.routing_tables;
  }
]

-- The first loop of `ensure_routing_table_is_fresh`: old tables are dropped.
unfoldable pub purge : ℕ → Tables → Tables
purge now [] = []
purge now ((k, t) ∷ ts) =
    let rest = purge now ts in if should_be_purged_from_memory now t then rest else (k, t) ∷ rest

-- `update_connection_pool`: connections to servers of no table are closed, if idle. `unresolved` is
-- the attribute of a resolved address, `addresses` the keys of `connections`.
unfoldable pub is_server : ℕ → Tables → Bool
is_server address [] = false
is_server address ((k, t) ∷ ts) =
    let rest = is_server address ts in if contains address (servers t) then true else rest

unfoldable pub deactivate_unknown : (ℕ → ℕ) → Tables → List ℕ → Pool → Pool
deactivate_unknown unresolved ts [] p = p
deactivate_unknown unresolved ts (a ∷ rest) p =
    deactivate_unknown unresolved ts rest
      (if is_server (unresolved a) ts then p else Ops.deactivate a p)

unfoldable pub update_connection_pool : ℕ → (ℕ → ℕ) → List ℕ → ℕ → Neo4jPool → Neo4jPool
update_connection_pool now unresolved addresses db q =
    let (q', t) = get_or_create_routing_table now db q in
    record q' { pool = deactivate_unknown unresolved q'.routing_tables addresses q'.pool }

pub lookup-assign : (db : ℕ) (t : RoutingTable) (ts : Tables) → lookup db (assign db t ts) ≡ some t
unfolding lookup assign
lookup-assign db t [] = rw ==_refl
lookup-assign db t ((k, u) ∷ ts) = grind (arith, lookup-assign db t ts)
