-- ===== src/Pool/Invariant.antt =====
-- What holds of the pool and its clients in every state that can be reached.
use neo4j_python_driver.Base.{
  ℕ, ◌+◌, ◌-◌, ◌≤◌, ◌<◌, ◌≡◌, refl, sym, ap, ◌∙◌, List, [], ◌∷◌, true, false, none, some, length,
  length-append, arith,
}
use neo4j_python_driver.Pool.State.{
  Connection, Pool, update, modify, modify_all, set_in_use, close, mark_unauthenticated,
}
use neo4j_python_driver.Pool.Ops.{
  remove_connection, acquire_new_later, has_room, Opened, connected, service_unavailable,
  open_failed, no_re_auth, connection_creator, deactivate, clean_up, release, kill,
  kill_and_release, unauthenticate_all,
}
use neo4j_python_driver.Pool.Bound.{
  acquire_from_pool-Shrinks, remove_connection-Shrinks, Shrinks, Shrinks-refl, Shrinks-trans,
  modify-Shrinks, clean_up-Shrinks, modify_all-Shrinks, deactivate-Shrinks, mark_all_stale-Shrinks,
  close_all-Shrinks,
}
use neo4j_python_driver.Pool.Use.{
  acquire_from_pool-KeepsUse, acquire_from_pool_lem, KeepsUse, modify_all-KeepsUse,
  clean_up-KeepsUse, modify-KeepsUse, kill-Leaves, close_all-KeepsUse, mark_all_stale-KeepsUse,
  deactivate-KeepsUse,
}
use neo4j_python_driver.Pool.System.{
  System, clear_all, Step, picks, closes_unhealthy, removes_unhealthy, reserves, creates,
  fails_to_create, releases, kills, deactivates, marks_stale, unauthenticates, closes,
}

-- The four promises of the pool.
pub record Inv (s : System) : Type 0 where
  pub bounded :
      (a size : ℕ)
      → s.pool.max_size ≡ some size
      → length (s.pool.connections a) + s.pool.reservations a ≤ size
  pub matched : (a : ℕ) → s.creators a ≡ s.pool.reservations a
  pub single : (c : ℕ) → s.holders c ≤ 1
  pub used : (c : ℕ) → 0 < s.holders c → (s.pool.store c).in_use ≡ true

-- A step that takes no new connection, no reservation and no connection out of use.
quiet-Inv :
    (s : System) (q : Pool)
    → Inv s
    → Shrinks s.pool q
    → KeepsUse s.pool q
    → Inv (record s { pool = q })
quiet-Inv s q v h k = record {
  bounded = λ a size e. omega (arith, v.bounded a size (sym h.limit ∙ e), h.fewer a, h.reserved a);
  matched = λ a. v.matched a ∙ sym (h.reserved a);
  single = v.single;
  used = λ c held. k c (v.used c held);
}

-- What is still held after some connections were given up was not among them.
clear_all_lem :
    (f : Connection → Connection) (cs : List ℕ) (h : ℕ → ℕ) (p : Pool) (d : ℕ)
    → (clear_all cs h d ≤ h d) × (0 < clear_all cs h d → (modify_all f cs p).store d ≡ p.store d)
unfolding clear_all modify_all modify update
clear_all_lem f [] h p d = (omega arith, λ _. refl)
clear_all_lem f (c ∷ cs) h p d =
    let (less, same) = clear_all_lem f cs (update h c 0) (modify f c p) d in
    (ground (arith, less), λ held. ground (arith, less, same held))

released-Inv :
    (s : System) (q : Pool) (cs : List ℕ)
    → Inv s
    → Shrinks s.pool q
    → KeepsUse s.pool q
    → Inv (record s { pool = modify_all (set_in_use false) cs q; holders = clear_all cs s.holders })
released-Inv s q cs v h k =
    let all = modify_all-Shrinks (set_in_use false) cs q in
    let shrinks = Shrinks-trans s.pool q _ h all in
    record {
      bounded = λ a size e.
          omega
            (arith, v.bounded a size (sym shrinks.limit ∙ e), shrinks.fewer a, shrinks.reserved a);
      matched = λ a. v.matched a ∙ sym (shrinks.reserved a);
      single =
          λ c. omega (arith, (clear_all_lem (set_in_use false) cs s.holders q c).0, v.single c);
      used = λ c held.
          let (less, same) = clear_all_lem (set_in_use false) cs s.holders q c in
          ap (λ (x : Connection). x.in_use) (same held) ∙ k c (v.used c (omega arith));
    }

reserves-Inv :
    (s : System) (a : ℕ) (q : Pool)
    → acquire_new_later a s.pool ≡ some q
    → Inv s
    → Inv (record s { pool = q; creators = update s.creators a (s.creators a + 1) })
unfolding acquire_new_later has_room update
reserves-Inv s a q e v = record {
  bounded = λ b size lim. ground (arith, v.bounded b size, v.bounded a size);
  matched = λ b. ground (arith, v.matched b, v.matched a);
  single = v.single;
  used = λ c held. ground (arith, v.used c held);
}

creates-Inv :
    (s : System) (a c : ℕ)
    → 0 < s.creators a
    → s.holders c ≡ 0
    → Inv s
    → Inv (record {
      pool = (connection_creator a (connected c) s.pool).0;
      creators = update s.creators a (s.creators a - 1);
      holders = update s.holders c 1;
    })
unfolding connection_creator modify update
creates-Inv s a c pending free v = record {
  bounded = λ b size lim. ground (
    arith,
    v.bounded b size lim,
    v.bounded a size lim,
    v.matched a,
    length-append (s.pool.connections a) (c ∷ []),
  );
  matched = λ b. ground (arith, v.matched b, v.matched a);
  single = λ d. ground (arith, v.single d);
  used = λ d held. ground (arith, v.used d);
}

-- A creator that fails shrinks the pool, but for the reservation that it gives back.
abbrev Undone : ℕ → Pool → Pool → Type 0
Undone a p q =
    (r : Pool) × Shrinks p r
    × KeepsUse p r
    × (q ≡ record r { reservations = update r.reservations a (r.reservations a - 1) })

failed_creator :
    (a : ℕ) (o : Opened) (p : Pool)
    → (connection_creator a o p).1 ≡ none
    → Undone a p (connection_creator a o p).0
unfolding connection_creator
failed_creator a (connected c) p e = cc
failed_creator a service_unavailable p e =
    (deactivate a p, deactivate-Shrinks a p, deactivate-KeepsUse a p, refl)
failed_creator a open_failed p e = (p, Shrinks-refl p, λ c h. h, refl)
failed_creator a (no_re_auth c) p e =
    (modify close c p, modify-Shrinks close c p, modify-KeepsUse close (λ x. refl) c p, refl)

Undone-Inv :
    (s : System) (a : ℕ) (q : Pool)
    → 0 < s.creators a
    → Undone a s.pool q
    → Inv s
    → Inv (record s { pool = q; creators = update s.creators a (s.creators a - 1) })
unfolding update
Undone-Inv s a q pending (r, h, k, e) v = rw e (record {
  bounded =
      λ b size lim. ground (arith, v.bounded b size (sym h.limit ∙ lim), h.fewer b, h.reserved b);
  matched = λ b. ground (arith, v.matched b, h.reserved b, h.reserved a, v.matched a);
  single = v.single;
  used = λ c held. k c (v.used c held);
})

acquires-Inv :
    (s : System) (q : Pool) (c : ℕ)
    → Shrinks s.pool q
    → KeepsUse s.pool q
    → (s.pool.store c).in_use ≡ false
    → (q.store c).in_use ≡ true
    → Inv s
    → Inv (record s { pool = q; holders = update s.holders c (s.holders c + 1) })
unfolding update
acquires-Inv s q c h k free taken v =
    let unheld : s.holders c ≡ 0 = ground (arith, v.used c) in
    record {
      bounded =
          λ a size e. omega (arith, v.bounded a size (sym h.limit ∙ e), h.fewer a, h.reserved a);
      matched = λ a. v.matched a ∙ sym (h.reserved a);
      single = λ d. ground (arith, unheld, v.single d);
      used = λ d held. ground (arith, v.used d, k d);
    }

removes-Inv :
    (s : System) (c : ℕ)
    → Inv s
    → Inv (record s { pool = remove_connection c s.pool; holders = update s.holders c 0 })
unfolding update
removes-Inv s c v =
    let h = remove_connection-Shrinks c s.pool in
    record {
      bounded =
          λ a size e. omega (arith, v.bounded a size (sym h.limit ∙ e), h.fewer a, h.reserved a);
      matched = λ a. v.matched a ∙ sym (h.reserved a);
      single = λ d. ground (arith, v.single d);
      used = λ d held. unfold remove_connection in ground (arith, v.used d);
    }

-- Every step keeps the four promises: with the connections being opened counted in, no address has
-- more than `max_connection_pool_size` connections; each reservation belongs to one creator that
-- will give it back; no connection has two holders; and what is held is in use.
pub Step-Inv : {s t : System} → Step s t → Inv s → Inv t
Step-Inv {s} (picks a c e) v =
    let (free, taken) = acquire_from_pool_lem a c s.pool e in
    acquires-Inv s _ c (acquire_from_pool-Shrinks a s.pool) (acquire_from_pool-KeepsUse a s.pool)
      free taken v
Step-Inv {s} (closes_unhealthy c held) v =
    quiet-Inv s _ v (modify-Shrinks close c s.pool) (modify-KeepsUse close (λ x. refl) c s.pool)
Step-Inv {s} (removes_unhealthy c held) v = removes-Inv s c v
Step-Inv {s} (reserves a q e) v = reserves-Inv s a q e v
Step-Inv {s} (creates a c pending free) v = creates-Inv s a c pending free v
Step-Inv {s} (fails_to_create a o pending e) v =
    Undone-Inv s a _ pending (failed_creator a o s.pool e) v
Step-Inv {s} (releases reset cs held) v =
    unfold release in
    released-Inv s (clean_up reset false cs s.pool).0 cs v (clean_up-Shrinks reset cs false s.pool)
      (clean_up-KeepsUse reset cs false s.pool)
Step-Inv {s} (kills cs held) v =
    unfold kill_and_release in
    released-Inv s (modify_all kill cs s.pool) cs v (modify_all-Shrinks kill cs s.pool)
      (modify_all-KeepsUse kill kill-Leaves cs s.pool)
Step-Inv {s} (deactivates a) v =
    quiet-Inv s _ v (deactivate-Shrinks a s.pool) (deactivate-KeepsUse a s.pool)
Step-Inv {s} (marks_stale as') v =
    quiet-Inv s _ v (mark_all_stale-Shrinks as' s.pool) (mark_all_stale-KeepsUse as' s.pool)
Step-Inv {s} (unauthenticates a) v =
    unfold unauthenticate_all in
    quiet-Inv s _ v (modify_all-Shrinks mark_unauthenticated (s.pool.connections a) s.pool)
      (modify_all-KeepsUse mark_unauthenticated (λ x. refl) (s.pool.connections a) s.pool)
Step-Inv {s} (closes as') v =
    quiet-Inv s _ v (close_all-Shrinks as' s.pool) (close_all-KeepsUse as' s.pool)
