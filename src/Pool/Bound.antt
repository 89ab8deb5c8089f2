-- ===== src/Pool/Bound.antt =====
-- The size of the pool: no operation but a reservation makes an address hold more connections.
use neo4j_python_driver.Base.{
  ℕ, ◌≤◌, ◌≡◌, refl, ap, ◌∙◌, List, [], ◌∷◌, Bool, true, false, length, arith, Bool-cases,
  Option-cases, inl, inr, ◌==◌,
}
use neo4j_python_driver.Pool.State.{
  Connection, Pool, update, modify, modify_all, remove, set_in_use, close, set_stale,
}
use neo4j_python_driver.Pool.Rules.{clean_up-induct, checked-induct}
use neo4j_python_driver.Pool.Ops.{
  find_idle, acquire_from_pool, remove_connection, acquire_from_pool_checked, idle_of, remove_each,
  deactivate, Reset, after_reset, clean_up, release, kill, kill_and_release, mark_all_stale,
  close_all,
}

-- No address has more connections than before, and the reservations are the same.
pub record Shrinks (p q : Pool) : Type 0 where
  pub fewer : (a : ℕ) → length (q.connections a) ≤ length (p.connections a)
  pub reserved : (a : ℕ) → q.reservations a ≡ p.reservations a
  pub limit : q.max_size ≡ p.max_size

pub Shrinks-refl : (p : Pool) → Shrinks p p
Shrinks-refl p = record { fewer = λ a. omega arith; reserved = λ a. refl; limit = refl }

pub Shrinks-trans : (p q r : Pool) → Shrinks p q → Shrinks q r → Shrinks p r
Shrinks-trans p q r s t = record {
  fewer = λ a. omega (arith, s.fewer a, t.fewer a);
  reserved = λ a. t.reserved a ∙ s.reserved a;
  limit = t.limit ∙ s.limit;
}

pub modify-Shrinks : (f : Connection → Connection) (c : ℕ) (p : Pool) → Shrinks p (modify f c p)
unfolding modify
modify-Shrinks f c p = record { fewer = λ a. omega arith; reserved = λ a. refl; limit = refl }

pub modify_all-Shrinks :
    (f : Connection → Connection) (cs : List ℕ) (p : Pool) → Shrinks p (modify_all f cs p)
unfolding modify_all
modify_all-Shrinks f [] p = Shrinks-refl p
modify_all-Shrinks f (c ∷ cs) p =
    Shrinks-trans p (modify f c p) _ (modify-Shrinks f c p) (modify_all-Shrinks f cs (modify f c p))

length-remove : (c : ℕ) (ds : List ℕ) → length (remove c ds) ≤ length ds
unfolding remove
length-remove c [] = omega arith
length-remove c (d ∷ ds) = ground (arith, length-remove c ds)

length-remove_each : (cs ds : List ℕ) → length (remove_each cs ds) ≤ length ds
unfolding remove_each
length-remove_each [] ds = omega arith
length-remove_each (c ∷ cs) ds =
    omega (arith, length-remove c ds, length-remove_each cs (remove c ds))

-- An address gets a queue that is no longer than its old one.
queue-Shrinks :
    (p : Pool) (address : ℕ) (cs : List ℕ)
    → length cs ≤ length (p.connections address)
    → Shrinks p (record p { connections = update p.connections address cs })
unfolding update
queue-Shrinks p address cs h = record {
  fewer = λ a. elim (Bool-cases (a == address)) [
    | inl same ↦
        let here : a ≡ address = ground arith in
        rw same (omega (arith, ap (λ (j : ℕ). length (p.connections j)) here))
    | inr other ↦ rw other (omega arith)
  ];
  reserved = λ a. refl;
  limit = refl;
}

pub acquire_from_pool-Shrinks : (a : ℕ) (p : Pool) → Shrinks p (acquire_from_pool a p).0
unfolding acquire_from_pool
acquire_from_pool-Shrinks a p = elim (Option-cases (find_idle p.store (p.connections a))) [
  | inl e ↦ rw (e, acquire_from_pool) (Shrinks-refl p)
  | inr (c, e) ↦ rw (e, acquire_from_pool) (modify-Shrinks (set_in_use true) c p)
]

pub remove_connection-Shrinks : (c : ℕ) (p : Pool) → Shrinks p (remove_connection c p)
unfolding remove_connection
remove_connection-Shrinks c p =
    queue-Shrinks p (p.store c).address (remove c (p.connections (p.store c).address))
      (length-remove c (p.connections (p.store c).address))

pub deactivate-Shrinks : (a : ℕ) (p : Pool) → Shrinks p (deactivate a p)
unfolding deactivate
deactivate-Shrinks a p =
    let closable = idle_of p.store (p.connections a) in
    Shrinks-trans p _ _
      (queue-Shrinks p a (remove_each closable (p.connections a))
        (length-remove_each closable (p.connections a)))
      (modify_all-Shrinks close closable _)

pub clean_up-Shrinks :
    (reset : ℕ → Reset) (cs : List ℕ) (b : Bool) (p : Pool) → Shrinks p (clean_up reset b cs p).0
clean_up-Shrinks =
    clean_up-induct Shrinks Shrinks-refl Shrinks-trans (λ r c p. modify-Shrinks (after_reset r) c p)
      (λ c p. modify-Shrinks close c p)

pub release-Shrinks :
    (reset : ℕ → Reset) (cs : List ℕ) (p : Pool) → Shrinks p (release reset cs p).0
unfolding release
release-Shrinks reset cs p =
    Shrinks-trans p _ _ (clean_up-Shrinks reset cs false p)
      (modify_all-Shrinks (set_in_use false) cs _)

pub kill_and_release-Shrinks : (cs : List ℕ) (p : Pool) → Shrinks p (kill_and_release cs p)
unfolding kill_and_release
kill_and_release-Shrinks cs p =
    Shrinks-trans p _ _ (modify_all-Shrinks kill cs p) (modify_all-Shrinks (set_in_use false) cs _)

pub mark_all_stale-Shrinks : (as' : List ℕ) (p : Pool) → Shrinks p (mark_all_stale as' p)
unfolding mark_all_stale
mark_all_stale-Shrinks [] p = Shrinks-refl p
mark_all_stale-Shrinks (a ∷ as') p =
    Shrinks-trans p _ _ (modify_all-Shrinks set_stale (p.connections a) p)
      (mark_all_stale-Shrinks as' _)

pub close_all-Shrinks : (as' : List ℕ) (p : Pool) → Shrinks p (close_all as' p)
unfolding close_all
close_all-Shrinks [] p = Shrinks-refl p
close_all-Shrinks (a ∷ as') p =
    let emptied = record p { connections = update p.connections a [] } in
    Shrinks-trans p _ _ (queue-Shrinks p a [] (omega arith)) (
      Shrinks-trans emptied _ _ (modify_all-Shrinks close (p.connections a) emptied)
        (close_all-Shrinks as' _))

pub acquire_from_pool_checked-Shrinks :
    (alive : ℕ → Bool) (a rounds : ℕ) (p : Pool)
    → Shrinks p (acquire_from_pool_checked alive a rounds p).0
acquire_from_pool_checked-Shrinks =
    checked-induct Shrinks Shrinks-refl Shrinks-trans acquire_from_pool-Shrinks (λ c p.
      Shrinks-trans p _ _ (modify-Shrinks close c p)
        (remove_connection-Shrinks c (modify close c p)))
