-- ===== src/Routing/Acquire/Served.antt =====
-- `Neo4jPool.acquire` finds a server.
use neo4j_python_driver.Base.{
  ℕ, zero, suc, ◌≤◌, ◌<◌, List, [], ◌∷◌, Bool, true, false, Option, none, some, ◌≡◌, refl, sym, ◌∙◌,
  ◌⊎◌, inl, inr, ◌==◌, if◌then◌else◌, ok, err, arith, Bool-cases, length,
}
use neo4j_python_driver.Pool.State.{Pool}
use neo4j_python_driver.Pool.Acquire.{Round, AcquireError, no_service, Acquired}
use neo4j_python_driver.Pool.Acquire
use neo4j_python_driver.Pool.Ops
use neo4j_python_driver.Routing.Elements.{contains, discard, is_empty, contains-discard_other}
use neo4j_python_driver.Routing.Tables.{
  Neo4jPool, Tables, lookup, discard_address, discard_from_tables, deactivate_address,
}
use neo4j_python_driver.Routing.Select.{addresses_for}
use neo4j_python_driver.Routing.Fewest.{Chooses, select_address_lem}
use neo4j_python_driver.Routing.Update.{Fetched, ensure_routing_table_is_fresh}
use neo4j_python_driver.Routing.Acquire.{
  Routed, after_acquire, after_select, acquire_loop, after_update, acquire_routed,
}

length-discard : (e : ℕ) (xs : List ℕ) → length (discard e xs) ≤ length xs
unfolding discard
length-discard e [] = omega arith
length-discard e (x ∷ xs) = ground (arith, length-discard e xs)

discard_less : (e : ℕ) (xs : List ℕ) → contains e xs ≡ true → length (discard e xs) < length xs
unfolding discard contains
discard_less e [] h = absurd (ground (arith, h))
discard_less e (x ∷ xs) h = ground (arith, h, length-discard e xs, discard_less e xs)

-- The servers of the access mode after an address was deactivated.
abbrev servers_of : Bool → ℕ → Tables → List ℕ
servers_of readonly db ts = elim (lookup db ts) [
  | none ↦ []
  | some t ↦ if readonly then t.readers else t.writers
]

servers_of-discard :
    (readonly : Bool) (a db : ℕ) (ts : Tables)
    → servers_of readonly db (discard_from_tables a ts) ≡ discard a (servers_of readonly db ts)
unfolding lookup discard_from_tables discard_address
servers_of-discard readonly a db [] = unfold discard in refl
servers_of-discard readonly a db ((k, t) ∷ ts) = elim (Bool-cases (k == db)) [
  | inl here ↦ rw (servers_of, here) (mode readonly)
  | inr there ↦ rw (servers_of, there) (servers_of-discard readonly a db ts)
]
  where
    mode :
        (b : Bool)
        → (if b then discard a t.readers else discard a t.writers)
          ≡ discard a (if b then t.readers else t.writers)
    mode true = refl
    mode false = refl

addresses_for-deactivate :
    (readonly : Bool) (a db : ℕ) (q : Neo4jPool) (p : Pool)
    → addresses_for readonly db (deactivate_address a (record q { pool = p }))
      ≡ discard a (addresses_for readonly db q)
unfolding addresses_for deactivate_address
addresses_for-deactivate readonly a db q p = servers_of-discard readonly a db q.routing_tables

abbrev pub HandsOutRouted : Routed → Type 0
HandsOutRouted x = (c : ℕ) × (x.1 ≡ some (ok c))

-- `_acquire` at an address hands out a connection, or finds the server unavailable.
abbrev pub HandsOut : Acquired → Type 0
HandsOut x = (c : ℕ) × (x.1 ≡ some (ok c))

abbrev pub FindsNone : Acquired → Type 0
FindsNone x = x.1 ≡ some (err no_service)

contains-nonempty : (b : ℕ) (xs : List ℕ) → contains b xs ≡ true → is_empty xs ≡ false
unfolding contains
contains-nonempty b [] h = absurd (ground (arith, h))
contains-nonempty b (x ∷ xs) h = refl

nonempty-length : (xs : List ℕ) → length xs ≤ 0 → is_empty xs ≡ false → ⊥
nonempty-length [] h e = ground (arith, e)
nonempty-length (x ∷ xs) h e = omega arith

-- `Fine` is what is known of the pool; `b` is a server that can be reached.
module _ (auth : Bool) (plan : ℕ → List Round) (choice : List ℕ → ℕ) (readonly : Bool) (db b : ℕ)
    (chooses : Chooses choice) (Fine : Pool → Type 0)
    (serves : (p : Pool) → Fine p → HandsOut (Acquire.acquire auth b (plan b) p))
    (ends : (a : ℕ) (p : Pool)
      → Fine p
      → HandsOut (Acquire.acquire auth a (plan a) p)
        ⊎ (FindsNone (Acquire.acquire auth a (plan a) p)
            × Fine (Ops.deactivate a (Acquire.acquire auth a (plan a) p).0))) where
  -- A round at the address `a`, given that the rest of the loop finds a connection if it has to.
  round :
      (a : ℕ) (next : Neo4jPool → Routed) (q : Neo4jPool) (x : Acquired)
      → HandsOut x
        ⊎ (FindsNone x × HandsOutRouted (next (deactivate_address a (record q { pool = x.0 }))))
      → HandsOutRouted (after_acquire a next q x)
  unfolding after_acquire
  round a next q x (inl (c, e)) = (c, rw e refl)
  round a next q x (inr (e, (c, f))) = (c, rw e f)

  Fine-deactivate :
      (a : ℕ) (q : Neo4jPool) (p : Pool)
      → Fine (Ops.deactivate a p)
      → Fine (deactivate_address a (record q { pool = p })).pool
  unfolding deactivate_address
  Fine-deactivate a q p h = h

  fewer :
      (n a : ℕ) (q : Neo4jPool) (p : Pool)
      → length (addresses_for readonly db q) ≤ suc n
      → contains a (addresses_for readonly db q) ≡ true
      → length (addresses_for readonly db (deactivate_address a (record q { pool = p }))) ≤ n
  fewer n a q p h k =
      rw (addresses_for-deactivate readonly a db q p)
        (omega (arith, discard_less a (addresses_for readonly db q) k))

  other_server :
      (a : ℕ) (p : Pool) → Fine p → FindsNone (Acquire.acquire auth a (plan a) p) → (b == a) ≡ false
  other_server a p fine nothing = elim (Bool-cases (b == a)) [
    | inr other ↦ other
    | inl same ↦
        let here : b ≡ a = ground (arith, same) in
        let (c, e) = rw here at (serves p fine) in absurd (served (sym nothing ∙ e))
  ]
    where
      served : {c : ℕ} → some (err no_service) ≡ some (ok c) → ⊥
      served e = ground (arith, e)

  still_there :
      (a : ℕ) (q : Neo4jPool) (p : Pool)
      → (b == a) ≡ false
      → contains b (addresses_for readonly db q) ≡ true
      → contains b (addresses_for readonly db (deactivate_address a (record q { pool = p }))) ≡ true
  still_there a q p h k =
      rw (addresses_for-deactivate readonly a db q p)
        (contains-discard_other b a (addresses_for readonly db q) h ∙ k)

  acquire_loop_lem :
      (n : ℕ) (q : Neo4jPool)
      → Fine q.pool
      → length (addresses_for readonly db q) ≤ n
      → contains b (addresses_for readonly db q) ≡ true
      → HandsOutRouted (acquire_loop auth plan choice readonly db n q)
  unfolding acquire_loop after_select
  acquire_loop_lem zero q fine h k =
      absurd (nonempty-length (addresses_for readonly db q) h (contains-nonempty b _ k))
  acquire_loop_lem (suc n) q fine h k =
      let (a, e, here, _) =
        select_address_lem choice readonly db q chooses (contains-nonempty b _ k) in
      let tried = Acquire.acquire auth a (plan a) q.pool in
      rw e (
        round a (acquire_loop auth plan choice readonly db n) q _ (elim (ends a q.pool fine) [
          | inl handed ↦ inl handed
          | inr (nothing, kept) ↦ inr (
            nothing,
            acquire_loop_lem n (deactivate_address a (record q { pool = tried.0 }))
                (Fine-deactivate a q tried.0 kept) (fewer n a q tried.0 h here)
                (still_there a q tried.0 (other_server a q.pool fine nothing) k),
          )
        ]))

  -- Once the routing table is fresh, `acquire` hands out a connection if one server that the table has for the access
  -- mode can be reached, and the others can be reached or are found unavailable: those are deactivated one by one.
  -- `Fine` is what the pool keeps over such rounds, and `choice` returns an element of what it is given.
  pub acquire_routed_lem :
      (fetch : ℕ → Neo4jPool → Neo4jPool × Fetched) (resolve : ℕ → List ℕ)
      (set_order : List ℕ → List ℕ) (now : ℕ) (unresolved : ℕ → ℕ) (addresses : List ℕ)
      (timeout : ℕ) (q q' : Neo4jPool) (r : Option ℕ)
      → (timeout == 0) ≡ false
      → ensure_routing_table_is_fresh fetch resolve set_order now unresolved addresses readonly db q
        ≡ (q', ok r)
      → Fine q'.pool
      → contains b (addresses_for readonly db q') ≡ true
      → HandsOutRouted (
          acquire_routed auth plan choice readonly db fetch resolve set_order now unresolved
            addresses timeout q)
  unfolding acquire_routed after_update
  acquire_routed_lem fetch resolve set_order now unresolved addresses timeout q q' r t e fine k =
      rw (t, e)
        (acquire_loop_lem (suc (length (addresses_for readonly db q'))) q' fine (omega arith) k)
