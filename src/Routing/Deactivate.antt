-- ===== src/Routing/Deactivate.antt =====
-- What `Neo4jPool.deactivate` (neo4j/_sync/io/_pool.py) leaves of an address.
use neo4j_python_driver.Base.{
  ℕ, List, [], ◌∷◌, true, false, ◌≡◌, ◌==◌, refl, arith, All, ==_refl, Bool-cases, inl, inr,
}
use neo4j_python_driver.Pool.State.{Connection, Pool, modify, modify_all, remove, update, close}
use neo4j_python_driver.Pool.Ops.{idle_of, remove_each}
use neo4j_python_driver.Pool.Ops
use neo4j_python_driver.Pool.Use.{KeepsUse, deactivate-KeepsUse}
use neo4j_python_driver.Routing.Elements.{contains-discard}
use neo4j_python_driver.Routing.Table.{RoutingTable, in_table}
use neo4j_python_driver.Routing.Tables.{
  Neo4jPool, Tables, discard_address, discard_from_tables, deactivate_address,
}

pub Absent : ℕ → Tables → Type 0
Absent address ts = All (λ kt. in_table address (kt.1) ≡ false) ts

in_table-discard_address :
    (address : ℕ) (t : RoutingTable) → in_table address (discard_address address t) ≡ false
unfolding in_table discard_address
in_table-discard_address address t = rw (
  contains-discard address t.routers,
  contains-discard address t.readers,
  contains-discard address t.writers,
)

discard_from_tables-Absent :
    (address : ℕ) (ts : Tables) → Absent address (discard_from_tables address ts)
unfolding Absent discard_from_tables
discard_from_tables-Absent address [] = tt
discard_from_tables-Absent address ((k, t) ∷ ts) =
    (in_table-discard_address address t, discard_from_tables-Absent address ts)

-- The connections of a queue that are in use, which are the ones that the removal of the idle ones
-- leaves.
pub Used : (ℕ → Connection) → List ℕ → Type 0
Used store cs = All (λ c. (store c).in_use ≡ true) cs

Idle : (ℕ → Connection) → List ℕ → Type 0
Idle store cs = All (λ c. (store c).in_use ≡ false) cs

idle_of-Idle : (store : ℕ → Connection) (cs : List ℕ) → Idle store (idle_of store cs)
unfolding idle_of Idle
idle_of-Idle store [] = tt
idle_of-Idle store (c ∷ cs) = elim (Bool-cases (store c).in_use) [
  | inl e ↦ rw e (idle_of-Idle store cs)
  | inr e ↦ rw e (e, idle_of-Idle store cs)
]

-- A connection in use at the head of the queue stays there.
remove_each_used :
    (store : ℕ → Connection) (c : ℕ) (ks cs : List ℕ)
    → (store c).in_use ≡ true
    → Idle store ks
    → remove_each ks (c ∷ cs) ≡ c ∷ remove_each ks cs
unfolding remove_each remove Idle
remove_each_used store c [] cs e h = refl
remove_each_used store c (k ∷ ks) cs e (i, h) = elim (Bool-cases (c == k)) [
  | inl same ↦ let here : c ≡ k = ground arith in cc
  | inr other ↦ rw other (remove_each_used store c ks (remove k cs) e h)
]

remove_each_head : (c : ℕ) (ks cs : List ℕ) → remove_each (c ∷ ks) (c ∷ cs) ≡ remove_each ks cs
unfolding remove_each remove
remove_each_head c ks cs = rw (==_refl c)

remove_each-idle_of :
    (store : ℕ → Connection) (cs : List ℕ) → Used store (remove_each (idle_of store cs) cs)
unfolding idle_of Used
remove_each-idle_of store [] = unfold remove_each in tt
remove_each-idle_of store (c ∷ cs) = elim (Bool-cases (store c).in_use) [
  | inl e ↦
      rw (e, remove_each_used store c (idle_of store cs) cs e (idle_of-Idle store cs))
        (e, remove_each-idle_of store cs)
  | inr e ↦ rw (e, remove_each_head c (idle_of store cs) cs) (remove_each-idle_of store cs)
]

Used-KeepsUse : (p q : Pool) (cs : List ℕ) → KeepsUse p q → Used p.store cs → Used q.store cs
unfolding Used
Used-KeepsUse p q [] keep h = tt
Used-KeepsUse p q (c ∷ cs) keep (h, hs) = (keep c h, Used-KeepsUse p q cs keep hs)

connections-modify_all :
    (f : Connection → Connection) (cs : List ℕ) (p : Pool)
    → (modify_all f cs p).connections ≡ p.connections
unfolding modify_all modify
connections-modify_all f [] p = refl
connections-modify_all f (c ∷ cs) p = connections-modify_all f cs (modify f c p)

Ops-deactivate-Used :
    (address : ℕ) (p : Pool)
    → Used (Ops.deactivate address p).store ((Ops.deactivate address p).connections address)
unfolding Ops.deactivate
Ops-deactivate-Used address p =
    Used-KeepsUse p (Ops.deactivate address p) _ (deactivate-KeepsUse address p) (
      rw (connections-modify_all close (idle_of p.store (p.connections address)) _) (
        unfold update in
        rw (==_refl address) (remove_each-idle_of p.store (p.connections address))))

-- After an address was deactivated no routing table names it, and all connections to it that the pool
-- still has are in use.
pub deactivate_address_lem :
    (address : ℕ) (q : Neo4jPool)
    → Absent address (deactivate_address address q).routing_tables
      × Used
          (deactivate_address address q).pool.store
          ((deactivate_address address q).pool.connections address)
unfolding deactivate_address
deactivate_address_lem address q =
    (discard_from_tables-Absent address q.routing_tables, Ops-deactivate-Used address q.pool)
