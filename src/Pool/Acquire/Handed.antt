-- ===== src/Pool/Acquire/Handed.antt =====
-- What `_acquire` hands out.
use neo4j_python_driver.Base.{
  ℕ, List, [], ◌∷◌, ◌++◌, Bool, true, false, Option, none, some, ◌≡◌, refl, ap, subst, ◌∙◌, ◌⊎◌,
  inl, inr, ok, err, Bool-cases, Option-cases, ==_refl,
}
use neo4j_python_driver.Pool.State.{Connection, Pool, modify, update}
use neo4j_python_driver.Pool.Ops.{
  health_check, acquire_from_pool_checked, Opened, connected, service_unavailable, open_failed,
  no_re_auth, connection_creator,
}
use neo4j_python_driver.Pool.Checked.{acquire_from_pool_checked_lem}
use neo4j_python_driver.Pool.Acquire.{
  ReAuthOutcome, after_re_auth, re_auth_ok, re_auth_unsupported, re_auth_failed, Round, Acquired,
  created, re_authed, opened_or_next, after_check, acquire,
}

-- The connection `c` was free in some pool, has passed the health check, and was then authenticated
-- for the session. That pool is `q` before the re-authentication.
abbrev pub Reused : ℕ → Round → ℕ → Pool → Type 0
Reused address r c q =
    (p : Pool) × (((p.store c).in_use ≡ false))
    × (health_check r.alive (acquire_from_pool_checked r.alive address r.checks p).0 c ≡ true)
    × (r.re_auth.outcome ≡ re_auth_ok)
    × (q
        ≡ modify (after_re_auth r.re_auth) c
            (acquire_from_pool_checked r.alive address r.checks p).0)

-- The connection was opened in the round, and is the last of its queue.
abbrev pub Made : ℕ → Round → ℕ → Pool → Type 0
Made address r c q =
    (r.opened ≡ connected c) × (cs : List ℕ) × (q.connections address ≡ cs ++ (c ∷ []))

-- In one of the rounds.
abbrev pub Handed : ℕ → List Round → ℕ → Pool → Type 0
Handed address [] c q = ⊥
Handed address (r ∷ rs) c q =
    (((q.store c).in_use ≡ true) × (Reused address r c q ⊎ Made address r c q))
    ⊎ Handed address rs c q

abbrev Good : ℕ → List Round → Acquired → Type 0
Good address rs (q, none) = Unit
Good address rs (q, some (err e)) = Unit
Good address rs (q, some (ok c)) = Handed address rs c q

modify_self :
    (f : Connection → Connection) (c : ℕ) (p : Pool) → (modify f c p).store c ≡ f (p.store c)
unfolding modify update
modify_self f c p = rw (==_refl c) refl

Good-later :
    (address : ℕ) (r : Round) (rs : List Round) (x : Acquired)
    → Good address rs x
    → Good address (r ∷ rs) x
Good-later address r rs (q, none) h = tt
Good-later address r rs (q, some (err e)) h = tt
Good-later address r rs (q, some (ok c)) h = inr h

module _ (auth : Bool) (address : ℕ) (r : Round) (rs : List Round) (next : Pool → Acquired)
    (later : (p : Pool) → Good address rs (next p)) where
  re_authed-Good :
      (o : ReAuthOutcome) (c : ℕ) (p : Pool)
      → (r.re_auth.outcome ≡ o)
      → (r.re_auth.outcome ≡ re_auth_ok → Handed address (r ∷ rs) c p)
      → Good address (r ∷ rs) (re_authed auth r o c next p)
  unfolding re_authed
  re_authed-Good re_auth_ok c p e h = h e
  re_authed-Good re_auth_failed c p e h = tt
  re_authed-Good re_auth_unsupported c p e h = elim (Bool-cases auth) [
    | inl session ↦ rw session tt
    | inr pool ↦ rw pool (Good-later address r rs _ (later _))
  ]

  created-Good :
      (o : Opened) (p : Pool)
      → r.opened ≡ o
      → Good address (r ∷ rs) (created r.lost o (connection_creator address o p))
  unfolding connection_creator modify update
  created-Good (connected c) p e =
      inl (rw (==_refl c) refl, inr (e, p.connections address, rw (==_refl address) refl))
  created-Good service_unavailable p e = tt
  created-Good open_failed p e = tt
  created-Good (no_re_auth c) p e = tt

  opened_or_next-Good :
      (p : Pool) (o : Option Pool) → Good address (r ∷ rs) (opened_or_next address r next p o)
  unfolding opened_or_next
  opened_or_next-Good p (some q) = created-Good r.opened (r.while_opening q) refl
  opened_or_next-Good p none = elim (Bool-cases r.woken) [
    | inl woken ↦ rw woken (Good-later address r rs _ (later _))
    | inr late ↦ rw late tt
  ]

  after_check-Good :
      (p : Pool)
      → Good address
          (r ∷ rs)
          (after_check auth address r next (acquire_from_pool_checked r.alive address r.checks p))
  unfolding after_check
  after_check-Good p =
      elim (Option-cases (acquire_from_pool_checked r.alive address r.checks p).1) [
        | inl nothing ↦ rw nothing (opened_or_next-Good _ _)
        | inr (c, found) ↦
            let (free, taken, healthy) =
              acquire_from_pool_checked_lem r.alive address r.checks c p found in
            rw found (
              re_authed-Good r.re_auth.outcome c _ refl (λ e. inl (
                ap (λ (k : Connection). k.in_use) (modify_self (after_re_auth r.re_auth) c _)
                    ∙ taken,
                inl (p, free, healthy, e, refl),
              )))
      ]

acquire-Good :
    (auth : Bool) (address : ℕ) (rs : List Round) (p : Pool)
    → Good address rs (acquire auth address rs p)
unfolding acquire
acquire-Good auth address [] p = tt
acquire-Good auth address (r ∷ rs) p =
    after_check-Good auth address r rs (acquire auth address rs) (acquire-Good auth address rs) p

-- Whatever other threads do between its rounds, the connection that `_acquire` hands out is in use, and it is either
-- one that was free, has then passed the health check and has been authenticated for the session, or one that
-- was opened for this and joined the queue of the address.
pub acquire-Handed :
    (auth : Bool) (address : ℕ) (rs : List Round) (p q : Pool) (c : ℕ)
    → acquire auth address rs p ≡ (q, some (ok c))
    → Handed address rs c q
acquire-Handed auth address rs p q c e = subst (Good address rs) e (acquire-Good auth address rs p)
