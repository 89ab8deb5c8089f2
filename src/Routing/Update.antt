-- ===== src/Routing/Update.antt =====
-- `Neo4jPool`: how the routing table of a database is updated from the routers.
use neo4j_python_driver.Base.{
  ℕ, List, [], ◌∷◌, Bool, Option, none, some, ◌||◌, if◌then◌else◌, Result, ok, err,
}
use neo4j_python_driver.Routing.Elements.{discard, is_empty}
use neo4j_python_driver.Routing.Table.{
  Server, RoutingTable, parse_routing_info, update_table, is_fresh,
}
use neo4j_python_driver.Routing.Tables.{
  Neo4jPool, get_or_create_routing_table, assign, deactivate_address, purge, update_connection_pool,
}

pub data Failure : Type 0 where
  fatal_error value_error key_error service_unavailable : Failure

-- A routing record; a missing key is `none`.
pub record RoutingRecord : Type 0 where
  pub servers : Option (List Server)
  pub ttl : Option ℕ
  pub db : Option ℕ

-- How `fetch_routing_info` ends: with records, with a `Neo4jError` that is fatal during discovery or
-- is not, or with `ServiceUnavailable` or `SessionExpired`.
pub data Fetched : Type 0 where
  returned : List RoutingRecord → Fetched
  neo4j_error : Bool → Fetched
  unavailable : Fetched

-- A table without routers or without readers is not used.
unfoldable pub usable : RoutingTable → Option RoutingTable
usable t = if is_empty t.routers || is_empty t.readers then none else some t

abbrev pub parsed : Option RoutingTable → Result Failure (Option RoutingTable)
parsed none = err value_error
parsed (some t) = ok (usable t)

unfoldable pub read_routing_info : ℕ → ℕ → Fetched → Result Failure (Option RoutingTable)
read_routing_info now db (neo4j_error fatal) = if fatal then err fatal_error else ok none
read_routing_info now db unavailable = ok none
read_routing_info now db (returned []) = ok none
read_routing_info now db (returned (r ∷ rs)) = elim r.servers [
  | none ↦ err key_error
  | some ss ↦ elim r.ttl [
    | none ↦ err key_error
    | some ttl ↦ parsed (parse_routing_info now (elim r.db [ none ↦ db | some d ↦ d ]) ss ttl)
  ]
]

-- The pool after an attempt, with the exception, or the database whose table was updated, or `none`
-- where nothing was.
abbrev pub Attempt : Type 0
Attempt = Neo4jPool × Result Failure (Option ℕ)

unfoldable pub or_else : Attempt → (Neo4jPool → Attempt) → Attempt
or_else (q, err e) next = (q, err e)
or_else (q, ok none) next = next q
or_else (q, ok (some db)) next = (q, ok (some db))

-- What `_update_routing_table_from` does with a table that it got.
unfoldable pub install : ℕ → RoutingTable → Neo4jPool → Neo4jPool
install now new q =
    let (q', old) = get_or_create_routing_table now new.database q in
    record q' { routing_tables = assign new.database (update_table now old new) q'.routing_tables }

abbrev pub install_fetched : ℕ → Result Failure (Option RoutingTable) → Neo4jPool → Attempt
install_fetched now (err e) q = (q, err e)
install_fetched now (ok none) q = (q, ok none)
install_fetched now (ok (some t)) q = (install now t q, ok (some t.database))

-- `fetch` is the conversation with the router at an address (`fetch_routing_info`): acquiring and
-- releasing a connection changes the pool. `resolve` is `NetworkUtil.resolve_address`, and
-- `set_order` the order in which Python goes through a set. `now` is the time.
module _ (fetch : ℕ → Neo4jPool → Neo4jPool × Fetched) (resolve : ℕ → List ℕ)
    (set_order : List ℕ → List ℕ) (now : ℕ) where
  unfoldable pub fetch_routing_table :
      ℕ → ℕ → Neo4jPool → Neo4jPool × Result Failure (Option RoutingTable)
  fetch_routing_table db address q =
      let (q', fetched) = fetch address q in (q', read_routing_info now db fetched)

  -- `_update_routing_table_from`: the loop over the addresses of one router, and over the routers.
  unfoldable pub try_address : ℕ → ℕ → Neo4jPool → Attempt
  try_address db address q =
      let (q', r) = fetch_routing_table db address q in install_fetched now r q'

  unfoldable pub try_addresses : ℕ → List ℕ → Neo4jPool → Attempt
  try_addresses db [] q = (q, ok none)
  try_addresses db (a ∷ rest) q = or_else (try_address db a q) (try_addresses db rest)

  unfoldable pub update_from : ℕ → List ℕ → Neo4jPool → Attempt
  update_from db [] q = (q, ok none)
  update_from db (router ∷ rest) q =
      or_else (try_addresses db (resolve router) q)
        λ q'. update_from db rest (deactivate_address router q')

  -- `update_routing_table`: a table that never had writers prefers the initial address.
  unfoldable pub update_routing_table : ℕ → Neo4jPool → Attempt
  update_routing_table db q =
      let (q', t) = get_or_create_routing_table now db q in
      let others = set_order (discard q.address t.routers) in
      let prefer = t.initialized_without_writers in
      or_else (if prefer then update_from db (q.address ∷ []) q' else (q', ok none)) λ q1.
        or_else (update_from db others q1) λ q2.
          or_else (if prefer then (q2, ok none) else update_from db (q.address ∷ []) q2)
            λ q3. (q3, err service_unavailable)

  -- `ensure_routing_table_is_fresh`: with `none`, nothing had to be updated.
  unfoldable pub refreshed : (ℕ → ℕ) → List ℕ → ℕ → Attempt → Attempt
  refreshed unresolved addresses db (q, err e) = (q, err e)
  refreshed unresolved addresses db (q, ok r) =
      (update_connection_pool now unresolved addresses db q, ok r)

  unfoldable pub ensure_routing_table_is_fresh : (ℕ → ℕ) → List ℕ → Bool → ℕ → Neo4jPool → Attempt
  ensure_routing_table_is_fresh unresolved addresses readonly db q =
      let (q', t) =
        get_or_create_routing_table now db
          (record q { routing_tables = purge now q.routing_tables }) in
      if is_fresh now readonly t
      then (q', ok none)
      else refreshed unresolved addresses db (update_routing_table db q')
