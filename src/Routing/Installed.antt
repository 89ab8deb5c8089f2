-- ===== src/Routing/Installed.antt =====
-- What a successful update of a routing table leaves in `Neo4jPool`.
use neo4j_python_driver.Base.{
  ℕ, List, [], ◌∷◌, Bool, true, none, some, ◌≡◌, ◌≢◌, refl, ok, err, Option-cases, Bool-cases, inl,
  inr,
}
use neo4j_python_driver.Routing.Table.{RoutingTable, is_fresh}
use neo4j_python_driver.Routing.Tables.{
  Neo4jPool, lookup, lookup-assign, get_or_create_routing_table, purge,
}
use neo4j_python_driver.Routing.Update.{
  Failure, service_unavailable, Fetched, Attempt, or_else, read_routing_info, fetch_routing_table,
  try_address, try_addresses, update_from, update_routing_table, ensure_routing_table_is_fresh,
  refreshed,
}
use neo4j_python_driver.Routing.Success.{
  Installed, read_routing_info-usable, read_routing_info-Named, Named, Success, or_else-Success,
  update_connection_pool-Installed, install_fetched-Success, skip-Success, raise-Success,
  if-Success,
}

-- A router has answered, and its answer means the database.
abbrev pub Meant : (ℕ → Neo4jPool → Neo4jPool × Fetched) → ℕ → ℕ → Type 0
Meant fetch db d = (a : ℕ) × (q : Neo4jPool) × Named db (fetch a q).1 d

-- What `ensure_routing_table_is_fresh` leaves: if nothing was updated, the table of the database is
-- fresh for the mode; else the table of the database that the router named was installed.
pub Ensured : (ℕ → Neo4jPool → Neo4jPool × Fetched) → ℕ → Bool → ℕ → Attempt → Type 0
Ensured fetch now readonly db (q, err e) = Unit {0}
Ensured fetch now readonly db (q, ok (some d)) = Installed now d q × Meant fetch db d
Ensured fetch now readonly db (q, ok none) =
    (t : RoutingTable) × (lookup db q.routing_tables ≡ some t) × (is_fresh now readonly t ≡ true)

lookup-get_or_create :
    (now db : ℕ) (q : Neo4jPool)
    → lookup db (get_or_create_routing_table now db q).0.routing_tables
      ≡ some (get_or_create_routing_table now db q).1
unfolding get_or_create_routing_table
lookup-get_or_create now db q = elim (Option-cases (lookup db q.routing_tables)) [
  | inl e ↦ rw (get_or_create_routing_table, e) (lookup-assign db _ q.routing_tables)
  | inr (t, e) ↦ rw (get_or_create_routing_table, e) e
]

-- An attempt that does not end with nothing updated.
Updates : Attempt → Type 0
Updates a = a.1 ≢ ok none

or_else-Updates :
    (a : Attempt) (next : Neo4jPool → Attempt)
    → ((q : Neo4jPool) → Updates (next q))
    → Updates (or_else a next)
unfolding Updates or_else
or_else-Updates (q, err e) next h = λ e'. cc
or_else-Updates (q, ok none) next h = h q
or_else-Updates (q, ok (some db)) next h = λ e'. cc

raise-Updates : (e : Failure) (q : Neo4jPool) → Updates (q, err e)
unfolding Updates
raise-Updates e q = λ h. cc

module _ (fetch : ℕ → Neo4jPool → Neo4jPool × Fetched) (resolve : ℕ → List ℕ)
    (set_order : List ℕ → List ℕ) (now : ℕ) where
  try_address-Success :
      (db a : ℕ) (q : Neo4jPool)
      → Success (Meant fetch db) now (try_address fetch resolve set_order now db a q)
  unfolding try_address fetch_routing_table
  try_address-Success db a q =
      install_fetched-Success (Meant fetch db) now (read_routing_info now db (fetch a q).1)
        (fetch a q).0
        (λ t h.
          let (routers, readers) = read_routing_info-usable now db (fetch a q).1 h in
          (routers, readers, (a, q, read_routing_info-Named now db (fetch a q).1 t h)))

  try_addresses-Success :
      (db : ℕ) (as' : List ℕ) (q : Neo4jPool)
      → Success (Meant fetch db) now (try_addresses fetch resolve set_order now db as' q)
  unfolding try_addresses
  try_addresses-Success db [] q = unfold Success in tt
  try_addresses-Success db (a ∷ as') q =
      or_else-Success (Meant fetch db) now _ _ (try_address-Success db a q)
        (try_addresses-Success db as')

  update_from-Success :
      (db : ℕ) (routers : List ℕ) (q : Neo4jPool)
      → Success (Meant fetch db) now (update_from fetch resolve set_order now db routers q)
  unfolding update_from
  update_from-Success db [] q = unfold Success in tt
  update_from-Success db (r ∷ rs) q =
      or_else-Success (Meant fetch db) now _ _ (try_addresses-Success db (resolve r) q)
        (λ q'. update_from-Success db rs _)

  update_routing_table-Success :
      (db : ℕ) (q : Neo4jPool)
      → Success (Meant fetch db) now (update_routing_table fetch resolve set_order now db q)
  unfolding update_routing_table
  update_routing_table-Success db q =
      let (q', t) = get_or_create_routing_table now db q in
      or_else-Success (Meant fetch db) now _ _
        (if-Success (Meant fetch db) now t.initialized_without_writers _ _
          (update_from-Success db (q.address ∷ []) q') (skip-Success (Meant fetch db) now q'))
        λ q1. or_else-Success (Meant fetch db) now _ _ (update_from-Success db _ q1) λ q2.
          or_else-Success (Meant fetch db) now _ _
            (if-Success (Meant fetch db) now
              (get_or_create_routing_table now db q).1.initialized_without_writers _ _
              (skip-Success (Meant fetch db) now q2) (update_from-Success db (q.address ∷ []) q2))
            (raise-Success (Meant fetch db) now service_unavailable)

  update_routing_table-Updates :
      (db : ℕ) (q : Neo4jPool) → Updates (update_routing_table fetch resolve set_order now db q)
  unfolding update_routing_table
  update_routing_table-Updates db q =
      or_else-Updates _ _
        λ q1. or_else-Updates _ _ λ q2. or_else-Updates _ _ (raise-Updates service_unavailable)

  refreshed-Ensured :
      (unresolved : ℕ → ℕ) (addresses : List ℕ) (readonly : Bool) (db : ℕ) (a : Attempt)
      → Updates a
      → Success (Meant fetch db) now a
      → Ensured fetch now readonly db
          (refreshed fetch resolve set_order now unresolved addresses db a)
  unfolding refreshed Ensured Success Updates
  refreshed-Ensured unresolved addresses readonly db (q, err e) h s = tt
  refreshed-Ensured unresolved addresses readonly db (q, ok none) h s = absurd (h refl)
  refreshed-Ensured unresolved addresses readonly db (q, ok (some d)) h s =
      (update_connection_pool-Installed now d db unresolved addresses q s.0, s.1)

  -- Unless it raises, `ensure_routing_table_is_fresh` leaves a fresh table of the database where it
  -- updated nothing, and else a table with routers and readers, as old as the call, of a database that
  -- a router named in its answer, or of the one asked for if that answer names none. This holds however the conversations with the routers go, however
  -- addresses resolve and in whichever order the routers are asked.
  pub ensure_routing_table_is_fresh-Ensured :
      (unresolved : ℕ → ℕ) (addresses : List ℕ) (readonly : Bool) (db : ℕ) (q : Neo4jPool)
      → Ensured fetch now readonly db (
          ensure_routing_table_is_fresh fetch resolve set_order now unresolved addresses readonly db
            q)
  unfolding ensure_routing_table_is_fresh
  ensure_routing_table_is_fresh-Ensured unresolved addresses readonly db q =
      let start : Neo4jPool = record q { routing_tables = purge now q.routing_tables } in
      let (q', t) = get_or_create_routing_table now db start in
      elim (Bool-cases (is_fresh now readonly t)) [
        | inl e ↦ rw e (unfold Ensured in (t, lookup-get_or_create now db start, e))
        | inr e ↦ rw e (
            refreshed-Ensured unresolved addresses readonly db _
              (update_routing_table-Updates db q') (update_routing_table-Success db q'))
      ]
