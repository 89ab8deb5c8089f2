-- ===== src/Routing/Progress.antt =====
-- When `Neo4jPool.update_routing_table` succeeds.
use neo4j_python_driver.Base.{
  ℕ, List, [], ◌∷◌, Bool, true, false, Option, none, some, ◌≡◌, ◌⊎◌, inl, inr, ◌==◌, refl, arith,
  Result, ok, err, Bool-cases, if◌then◌else◌, ◌∙◌,
}
use neo4j_python_driver.Routing.Elements.{contains, discard, contains-discard_other}
use neo4j_python_driver.Routing.Table.{RoutingTable}
use neo4j_python_driver.Routing.Tables.{Neo4jPool, get_or_create_routing_table}
use neo4j_python_driver.Routing.Update.{
  Failure, Fetched, Attempt, or_else, install_fetched, fetch_routing_table, try_address,
  try_addresses, update_from, update_routing_table,
}

-- An attempt that raises nothing, and one that updated a table.
Quiet : Attempt → Type 0
Quiet a = (o : Option ℕ) × (a.1 ≡ ok o)

unfoldable pub Done : Attempt → Type 0
Done a = (db : ℕ) × (a.1 ≡ ok (some db))

Done-Quiet : (a : Attempt) → Done a → Quiet a
unfolding Done Quiet
Done-Quiet a (db, e) = (some db, e)

skip-Quiet : (q : Neo4jPool) → Quiet (q, ok none)
unfolding Quiet
skip-Quiet q = (none, refl)

or_else-Quiet :
    (a : Attempt) (next : Neo4jPool → Attempt)
    → Quiet a
    → ((q : Neo4jPool) → Quiet (next q))
    → Quiet (or_else a next)
unfolding or_else Quiet
or_else-Quiet (q, err e) next (o, h) k = cc
or_else-Quiet (q, ok none) next h k = k q
or_else-Quiet (q, ok (some db)) next h k = h

or_else-Done : (a : Attempt) (next : Neo4jPool → Attempt) → Done a → Done (or_else a next)
unfolding or_else Done
or_else-Done (q, err e) next (db, h) = cc
or_else-Done (q, ok none) next (db, h) = cc
or_else-Done (q, ok (some db)) next h = h

or_else-Done_next :
    (a : Attempt) (next : Neo4jPool → Attempt)
    → Quiet a
    → ((q : Neo4jPool) → Done (next q))
    → Done (or_else a next)
unfolding or_else Quiet Done
or_else-Done_next (q, err e) next (o, h) k = cc
or_else-Done_next (q, ok none) next h k = k q
or_else-Done_next (q, ok (some db)) next h k = (db, refl)

if-Quiet : (b : Bool) (x y : Attempt) → Quiet x → Quiet y → Quiet (if b then x else y)
if-Quiet true x y h k = h
if-Quiet false x y h k = k

install_fetched-Quiet :
    (now : ℕ) (r : Result Failure (Option RoutingTable)) (q : Neo4jPool)
    → (o : Option RoutingTable) × (r ≡ ok o)
    → Quiet (install_fetched now r q)
unfolding Quiet
install_fetched-Quiet now (err e) q (o, h) = cc
install_fetched-Quiet now (ok none) q h = (none, refl)
install_fetched-Quiet now (ok (some t)) q h = (some t.database, refl)

install_fetched-Done :
    (now : ℕ) (r : Result Failure (Option RoutingTable)) (q : Neo4jPool)
    → (t : RoutingTable) × (r ≡ ok (some t))
    → Done (install_fetched now r q)
unfolding Done
install_fetched-Done now (err e) q (t, h) = cc
install_fetched-Done now (ok none) q (t, h) = cc
install_fetched-Done now (ok (some t)) q h = (t.database, refl)

-- Going through a set in any order meets each of its elements.
unfoldable pub KeepsElements : (List ℕ → List ℕ) → Type 0
KeepsElements order = (xs : List ℕ) (x : ℕ) → contains x xs ≡ true → contains x (order xs) ≡ true

module _ (fetch : ℕ → Neo4jPool → Neo4jPool × Fetched) (resolve : ℕ → List ℕ)
    (set_order : List ℕ → List ℕ) (now db : ℕ) where
  -- No router reports an error that ends the search, in whatever state the pool is.
  unfoldable pub NoneFatal : Type 0
  NoneFatal =
      (a : ℕ) (q : Neo4jPool)
      → (o : Option RoutingTable) × ((fetch_routing_table fetch resolve set_order now db a q).1
          ≡ ok o)

  -- The router at the address provides a table that can be used.
  unfoldable pub Answers : ℕ → Type 0
  Answers a =
      (q : Neo4jPool)
      → (t : RoutingTable) × ((fetch_routing_table fetch resolve set_order now db a q).1
          ≡ ok (some t))

  module _ (calm : NoneFatal) where
    try_address-Quiet :
        (a : ℕ) (q : Neo4jPool) → Quiet (try_address fetch resolve set_order now db a q)
    unfolding try_address NoneFatal
    try_address-Quiet a q = install_fetched-Quiet now _ _ (calm a q)

    try_addresses-Quiet :
        (as' : List ℕ) (q : Neo4jPool) → Quiet (try_addresses fetch resolve set_order now db as' q)
    unfolding try_addresses
    try_addresses-Quiet [] q = skip-Quiet q
    try_addresses-Quiet (a ∷ as') q =
        or_else-Quiet _ _ (try_address-Quiet a q) (try_addresses-Quiet as')

    update_from-Quiet :
        (rs : List ℕ) (q : Neo4jPool) → Quiet (update_from fetch resolve set_order now db rs q)
    unfolding update_from
    update_from-Quiet [] q = skip-Quiet q
    update_from-Quiet (r ∷ rs) q =
        or_else-Quiet _ _ (try_addresses-Quiet (resolve r) q) (λ q'. update_from-Quiet rs _)

    module _ (a : ℕ) (answers : Answers a) where
      try_address-Done :
          (b : ℕ) (q : Neo4jPool)
          → (b == a) ≡ true
          → Done (try_address fetch resolve set_order now db b q)
      unfolding try_address Answers
      try_address-Done b q e =
          let here : b ≡ a = ground arith in rw here (install_fetched-Done now _ _ (answers q))

      try_addresses-Done :
          (as' : List ℕ) (q : Neo4jPool)
          → contains a as' ≡ true
          → Done (try_addresses fetch resolve set_order now db as' q)
      unfolding try_addresses contains
      try_addresses-Done [] q h = cc
      try_addresses-Done (b ∷ as') q h = elim (Bool-cases (b == a)) [
        | inl same ↦ or_else-Done _ _ (try_address-Done b q same)
        | inr other ↦
            or_else-Done_next _ _ (try_address-Quiet b q)
              (λ q'. try_addresses-Done as' q' (ground arith))
      ]

      module _ (r : ℕ) (resolves : contains a (resolve r) ≡ true) where
        update_from-Done :
            (rs : List ℕ) (q : Neo4jPool)
            → contains r rs ≡ true
            → Done (update_from fetch resolve set_order now db rs q)
        unfolding update_from contains
        update_from-Done [] q h = cc
        update_from-Done (s ∷ rs) q h = elim (Bool-cases (s == r)) [
          | inl same ↦
              let here : s ≡ r = ground arith in
              rw here (or_else-Done _ _ (try_addresses-Done (resolve r) q resolves))
          | inr other ↦
              or_else-Done_next _ _ (try_addresses-Quiet (resolve s) q)
                (λ q'. update_from-Done rs _ (ground arith))
        ]

        -- The router is the initial one.
        initial-Done :
            (q : Neo4jPool)
            → (q.address == r) ≡ true
            → Done (update_routing_table fetch resolve set_order now db q)
        unfolding update_routing_table
        initial-Done q e =
            let (q', t) = get_or_create_routing_table now db q in
            let from_initial : (p : Neo4jPool)
                → Done (update_from fetch resolve set_order now db (q.address ∷ []) p) =
              λ p. update_from-Done (q.address ∷ []) p (unfold contains in rw e refl) in
            elim (Bool-cases t.initialized_without_writers) [
              | inl p ↦ or_else-Done _ _ (rw p (from_initial q'))
              | inr p ↦ or_else-Done_next _ _ (rw p (skip-Quiet q')) λ q1.
                  or_else-Done_next _ _ (update_from-Quiet _ q1)
                    λ q2. or_else-Done _ _ (rw p (from_initial q2))
            ]

        -- The router is one of the others in the routing table.
        listed-Done :
            (q : Neo4jPool)
            → contains r
                (set_order (discard q.address (get_or_create_routing_table now db q).1.routers))
              ≡ true
            → Done (update_routing_table fetch resolve set_order now db q)
        unfolding update_routing_table
        listed-Done q h =
            let (q', t) = get_or_create_routing_table now db q in
            or_else-Done_next _ _
              (if-Quiet t.initialized_without_writers _ _ (update_from-Quiet (q.address ∷ []) q')
                (skip-Quiet q'))
              λ q1. or_else-Done _ _ (update_from-Done _ q1 h)

-- `update_routing_table` updates a routing table if some router answers, which is the initial one or
-- stands in the table of the database: one of the addresses that the router resolves to provides a
-- usable table. It needs that no router reports an error that ends the search, and that going through
-- a set meets each element.
pub update_routing_table-Done :
    (fetch : ℕ → Neo4jPool → Neo4jPool × Fetched) (resolve : ℕ → List ℕ)
    (set_order : List ℕ → List ℕ) (now db r a : ℕ) (q : Neo4jPool)
    → NoneFatal fetch resolve set_order now db
    → KeepsElements set_order
    → ((q.address == r) ≡ true)
      ⊎ (contains r (get_or_create_routing_table now db q).1.routers ≡ true)
    → contains a (resolve r) ≡ true
    → Answers fetch resolve set_order now db a
    → Done (update_routing_table fetch resolve set_order now db q)
unfolding KeepsElements
update_routing_table-Done fetch resolve set_order now db r a q calm keeps (inl e) resolves answers =
    initial-Done fetch resolve set_order now db calm a answers r resolves q e
update_routing_table-Done fetch resolve set_order now db r a q calm keeps (inr h) resolves answers =
    elim (Bool-cases (q.address == r)) [
      | inl e ↦ initial-Done fetch resolve set_order now db calm a answers r resolves q e
      | inr e ↦
          listed-Done fetch resolve set_order now db calm a answers r resolves q
            (keeps _ r (contains-discard_other r q.address _ (ground arith) ∙ h))
    ]
