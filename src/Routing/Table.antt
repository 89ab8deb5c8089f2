-- ===== src/Routing/Table.antt =====
-- `RoutingTable` (neo4j/_routing.py). Times are whole nanoseconds of `perf_counter`, `ttl` is in
-- seconds. A database is known by its name, and by 0 if it is `None`; an address by its identity.
use neo4j_python_driver.Base.{
  ℕ, ◌+◌, ◌*◌, List, [], ◌∷◌, ◌++◌, Bool, not, ◌&&◌, ◌||◌, Option, none, some, leb, if◌then◌else◌,
}
use neo4j_python_driver.Routing.Elements.{contains, ordered_set, is_empty}

abbrev pub second : ℕ
second = 1_000_000_000

pub record RoutingTable : Type 0 where
  pub initial_routers : List ℕ
  pub routers : List ℕ
  pub readers : List ℕ
  pub writers : List ℕ
  pub initialized_without_writers : Bool
  pub last_updated_time : ℕ
  pub ttl : ℕ
  pub database : ℕ

-- `RoutingTable.__init__` at the time `now`.
unfoldable pub new_routing_table : ℕ → ℕ → List ℕ → List ℕ → List ℕ → ℕ → RoutingTable
new_routing_table now database routers readers writers ttl = record {
  initial_routers = ordered_set routers;
  routers = ordered_set routers;
  readers = ordered_set readers;
  writers = ordered_set writers;
  initialized_without_writers = is_empty (ordered_set writers);
  last_updated_time = now;
  ttl = ttl;
  database = database;
}

-- `__contains__`
unfoldable pub in_table : ℕ → RoutingTable → Bool
in_table address t =
    contains address t.routers || contains address t.readers || contains address t.writers

unfoldable pub is_fresh : ℕ → Bool → RoutingTable → Bool
is_fresh now readonly t =
    let expired = leb (t.last_updated_time + t.ttl * second) now in
    let servers_for_mode = if readonly then t.readers else t.writers in
    not expired && not (is_empty t.routers) && not (is_empty servers_for_mode)

-- `RoutingConfig.routing_table_purge_delay` is 30 seconds.
abbrev pub routing_table_purge_delay : ℕ
routing_table_purge_delay = 30

unfoldable pub should_be_purged_from_memory : ℕ → RoutingTable → Bool
should_be_purged_from_memory now t =
    leb (t.last_updated_time + t.ttl * second + routing_table_purge_delay * second) now

-- `update`: the initial routers and the database stay.
unfoldable pub update_table : ℕ → RoutingTable → RoutingTable → RoutingTable
update_table now t new = record t {
  routers = ordered_set new.routers;
  readers = ordered_set new.readers;
  writers = ordered_set new.writers;
  initialized_without_writers = is_empty (ordered_set new.writers);
  last_updated_time = now;
  ttl = new.ttl;
}

unfoldable pub servers : RoutingTable → List ℕ
servers t = ordered_set (t.routers ++ (t.writers ++ t.readers))

pub data Role : Type 0 where
  route read_role write_role other_role : Role

-- A server as the router describes it. A missing key is `none`; so is an address that
-- `Address.parse` refuses.
pub record Server : Type 0 where
  pub role : Option Role
  pub addresses : Option (List (Option ℕ))

-- The lists `routers`, `readers` and `writers` that `parse_routing_info` fills.
pub record Roles : Type 0 where
  pub routers : List ℕ
  pub readers : List ℕ
  pub writers : List ℕ

unfoldable pub parse_addresses : List (Option ℕ) → Option (List ℕ)
parse_addresses [] = some []
parse_addresses (none ∷ rest) = none
parse_addresses (some a ∷ rest) = elim (parse_addresses rest) [
  | none ↦ none
  | some found ↦ some (a ∷ found)
]

unfoldable pub extend : Role → List ℕ → Roles → Roles
extend route more r = record r { routers = r.routers ++ more }
extend read_role more r = record r { readers = r.readers ++ more }
extend write_role more r = record r { writers = r.writers ++ more }
extend other_role more r = r

-- One round of the loop over the servers.
unfoldable pub parse_server : Server → Roles → Option Roles
parse_server s r = elim s.role [
  | none ↦ none
  | some role ↦ elim s.addresses [
    | none ↦ none
    | some addresses ↦ elim (parse_addresses addresses) [
      | none ↦ none
      | some found ↦ some (extend role found r)
    ]
  ]
]

unfoldable pub parse_servers : List Server → Roles → Option Roles
parse_servers [] r = some r
parse_servers (s ∷ ss) r = elim (parse_server s r) [ none ↦ none | some r' ↦ parse_servers ss r' ]

-- `parse_routing_info`, and `none` for the `ValueError`.
unfoldable pub parse_routing_info : ℕ → ℕ → List Server → ℕ → Option RoutingTable
parse_routing_info now database ss ttl =
    elim (parse_servers ss (record { routers = []; readers = []; writers = [] })) [
      | none ↦ none
      | some r ↦ some (new_routing_table now database r.routers r.readers r.writers ttl)
    ]
