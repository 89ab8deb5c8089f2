-- ===== src/Routing/Success.antt =====
-- What an attempt to read a routing table leaves if it succeeds.
use neo4j_python_driver.Base.{
  ℕ, List, [], ◌∷◌, Bool, true, false, Option, none, some, ◌≡◌, refl, sym, ap, ◌∙◌, arith, Result,
  ok, err, ◌⊎◌, Option-cases, inl, inr, if◌then◌else◌,
}
use neo4j_python_driver.Routing.Elements.{contains, add, add_each, ordered_set, is_empty}
use neo4j_python_driver.Routing.Table.{
  RoutingTable, parse_routing_info, new_routing_table, update_table,
}
use neo4j_python_driver.Routing.Tables.{
  Neo4jPool, Tables, lookup, assign, lookup-assign, get_or_create_routing_table,
  update_connection_pool,
}
use neo4j_python_driver.Routing.Update.{
  Failure, Fetched, Attempt, or_else, usable, RoutingRecord, neo4j_error, unavailable, returned,
  read_routing_info, install, install_fetched,
}

-- The answer of a router names the database, or it names none, and the database that was asked for is meant.
pub Named : ℕ → Fetched → ℕ → Type 0
Named db f d =
    (r : RoutingRecord) × (rs : List RoutingRecord) × (f ≡ returned (r ∷ rs))
    × (((r.db ≡ none) × (d ≡ db)) ⊎ (r.db ≡ some d))

-- A table with routers and readers, written at the time `now`.
pub Installed : ℕ → ℕ → Neo4jPool → Type 0
Installed now db q =
    (t : RoutingTable) × (lookup db q.routing_tables ≡ some t)
    × (is_empty t.routers ≡ false)
    × (is_empty t.readers ≡ false)
    × (t.last_updated_time ≡ now)

add-nonempty : (xs : List ℕ) (e : ℕ) → is_empty (add xs e) ≡ false
unfolding add contains
add-nonempty [] e = refl
add-nonempty (x ∷ xs) e = ground arith

add_each-nonempty : (xs es : List ℕ) → is_empty xs ≡ false → is_empty (add_each xs es) ≡ false
unfolding add_each
add_each-nonempty xs [] h = h
add_each-nonempty xs (e ∷ es) h = add_each-nonempty (add xs e) es (add-nonempty xs e)

ordered_set-nonempty : (es : List ℕ) → is_empty es ≡ false → is_empty (ordered_set es) ≡ false
unfolding ordered_set add_each
ordered_set-nonempty [] h = h
ordered_set-nonempty (e ∷ es) h = add_each-nonempty (add [] e) es (add-nonempty [] e)

pub read_routing_info-usable :
    (now db : ℕ) (f : Fetched) {t : RoutingTable}
    → read_routing_info now db f ≡ ok (some t)
    → (is_empty t.routers ≡ false) × (is_empty t.readers ≡ false)
unfolding read_routing_info usable
read_routing_info-usable now db f h = grind arith

install-Installed :
    (now : ℕ) (t : RoutingTable) (q : Neo4jPool)
    → is_empty t.routers ≡ false
    → is_empty t.readers ≡ false
    → Installed now t.database (install now t q)
unfolding install Installed update_table
install-Installed now t q h k =
    let (q', old) = get_or_create_routing_table now t.database q in
    (
      update_table now old t,
      lookup-assign t.database (update_table now old t) q'.routing_tables,
      ordered_set-nonempty t.routers h,
      ordered_set-nonempty t.readers k,
      refl,
    )

parsed-database :
    (now db : ℕ) (r : RoutingRecord) (rs : List RoutingRecord) (t : RoutingTable)
    → read_routing_info now db (returned (r ∷ rs)) ≡ ok (some t)
    → (elim r.db [ none ↦ db | some d ↦ d ]) ≡ t.database
unfolding read_routing_info usable parse_routing_info new_routing_table
parsed-database now db r rs t h = grind arith

pub read_routing_info-Named :
    (now db : ℕ) (f : Fetched) (t : RoutingTable)
    → read_routing_info now db f ≡ ok (some t)
    → Named db f t.database
unfolding read_routing_info Named
read_routing_info-Named now db (neo4j_error fatal) t h = absurd (ground arith)
read_routing_info-Named now db unavailable t h = absurd (ground arith)
read_routing_info-Named now db (returned []) t h = absurd (ground arith)
read_routing_info-Named now db (returned (r ∷ rs)) t h =
    let same = parsed-database now db r rs t h in
    elim (Option-cases r.db) [
      | inl e ↦ (r, rs, refl, inl (e, sym (rw e at same)))
      | inr (d, e) ↦ (r, rs, refl, inr (e ∙ ap some (rw e at same)))
    ]

-- What a finished attempt leaves: if a table was updated, it is installed, and its database is one that
-- may be meant.
unfoldable pub Success : (ℕ → Type 0) → ℕ → Attempt → Type 0
Success Meant now (q, err e) = Unit {0}
Success Meant now (q, ok none) = Unit {0}
Success Meant now (q, ok (some db)) = Installed now db q × Meant db

pub or_else-Success :
    (M : ℕ → Type 0) (now : ℕ) (a : Attempt) (next : Neo4jPool → Attempt)
    → Success M now a
    → ((q : Neo4jPool) → Success M now (next q))
    → Success M now (or_else a next)
unfolding Success or_else
or_else-Success M now (q, err e) next s k = tt
or_else-Success M now (q, ok none) next s k = k q
or_else-Success M now (q, ok (some db)) next s k = s

lookup-assign_other :
    (db d : ℕ) (t u : RoutingTable) (ts : Tables)
    → lookup db ts ≡ some t
    → lookup d ts ≡ none
    → lookup db (assign d u ts) ≡ some t
unfolding lookup assign
lookup-assign_other db d t u [] h k = cc
lookup-assign_other db d t u ((e, v) ∷ ts) h k = grind (arith, lookup-assign_other db d t u ts)

-- Connecting the pool to the tables leaves the tables as they are.
pub update_connection_pool-Installed :
    (now db d : ℕ) (unresolved : ℕ → ℕ) (addresses : List ℕ) (q : Neo4jPool)
    → Installed now db q
    → Installed now db (update_connection_pool now unresolved addresses d q)
unfolding Installed update_connection_pool get_or_create_routing_table
update_connection_pool-Installed now db d unresolved addresses q (t, h, i, j, k) =
    elim (Option-cases (lookup d q.routing_tables)) [
      | inl e ↦
          rw (update_connection_pool, get_or_create_routing_table, e)
            (t, lookup-assign_other db d t _ q.routing_tables h e, i, j, k)
      | inr (u, e) ↦ rw (update_connection_pool, get_or_create_routing_table, e) (t, h, i, j, k)
    ]

pub install_fetched-Success :
    (M : ℕ → Type 0) (now : ℕ) (r : Result Failure (Option RoutingTable)) (q : Neo4jPool)
    → ((t : RoutingTable)
        → r ≡ ok (some t)
        → (is_empty t.routers ≡ false) × (is_empty t.readers ≡ false) × M t.database)
    → Success M now (install_fetched now r q)
unfolding Success
install_fetched-Success M now (err e) q h = tt
install_fetched-Success M now (ok none) q h = tt
install_fetched-Success M now (ok (some t)) q h =
    (install-Installed now t q (h t refl).0 (h t refl).1, (h t refl).2)

pub skip-Success : (M : ℕ → Type 0) (now : ℕ) (q : Neo4jPool) → Success M now (q, ok none)
unfolding Success
skip-Success M now q = tt

pub raise-Success :
    (M : ℕ → Type 0) (now : ℕ) (e : Failure) (q : Neo4jPool) → Success M now (q, err e)
unfolding Success
raise-Success M now e q = tt

pub if-Success :
    (M : ℕ → Type 0) (now : ℕ) (b : Bool) (x y : Attempt)
    → Success M now x
    → Success M now y
    → Success M now (if b then x else y)
if-Success M now true x y h k = h
if-Success M now false x y h k = k
