-- ===== src/Pool/Errors.antt =====
-- `IOPool.on_neo4j_error` (neo4j/_sync/io/_pool.py): what a server error does to the pool, to the
-- manager of tokens, and to the error itself. `handle` is the manager's
-- `handle_security_exception`, given the connection with its token.
use neo4j_python_driver.Base.{
  ℕ, List, [], ◌∷◌, Bool, true, false, ◌||◌, ◌&&◌, ◌≡◌, refl, if◌then◌else◌, ==_refl, arith, All,
}
use neo4j_python_driver.Pool.State.{
  Connection, Pool, modify, modify_all, update, mark_unauthenticated,
}
use neo4j_python_driver.Pool.Ops.{unauthenticate_all}
use neo4j_python_driver.Errors.{
  Neo4jError, is_retryable, unauthenticates_all_connections, has_security_code,
}

module _ {A M : Type 0} (handle : ℕ → Neo4jError A → M → M × Bool) where
  -- The second part: an error that the manager has handled can be retried.
  unfoldable pub report_security : ℕ → Neo4jError A → M → Neo4jError A × M
  report_security c e m =
      let (m', handled) = handle c e m in
      if has_security_code e
      then ((if handled then record e { retryable = true } else e), m')
      else (e, m)

  unfoldable pub on_neo4j_error : ℕ → Neo4jError A → M → Pool → (Neo4jError A × M) × Pool
  on_neo4j_error c e m p = (
    report_security c e m,
    if unauthenticates_all_connections e then unauthenticate_all (p.store c).address p else p,
  )

  -- An error can be retried after it was reported if it could be before, or the manager has handled it.
  is_retryable-on_neo4j_error :
      (c : ℕ) (e : Neo4jError A) (m : M) (p : Pool)
      → is_retryable (on_neo4j_error c e m p).0.0
        ≡ (is_retryable e || (has_security_code e && (handle c e m).1))
  unfolding on_neo4j_error report_security is_retryable
  is_retryable-on_neo4j_error c e m p = ground arith

abbrev Unauthenticated : (ℕ → Connection) → List ℕ → Type 0
Unauthenticated store cs = All (λ c. (store c).authenticated ≡ false) cs

modify_all-unauthenticated :
    (cs : List ℕ) (d : ℕ) (p : Pool)
    → (p.store d).authenticated ≡ false
    → ((modify_all mark_unauthenticated cs p).store d).authenticated ≡ false
unfolding modify_all modify update
modify_all-unauthenticated [] d p h = h
modify_all-unauthenticated (c ∷ cs) d p h =
    modify_all-unauthenticated cs d (modify mark_unauthenticated c p) (ground (arith, h))

Unauthenticated-modify_all :
    (cs : List ℕ) (p : Pool) → Unauthenticated (modify_all mark_unauthenticated cs p).store cs
unfolding modify_all modify update
Unauthenticated-modify_all [] p = tt
Unauthenticated-modify_all (c ∷ cs) p = (
  modify_all-unauthenticated cs c (modify mark_unauthenticated c p) (rw (==_refl c) refl),
  Unauthenticated-modify_all cs (modify mark_unauthenticated c p),
)

-- After an error that says that the authorization has expired, no connection to that address is authenticated.
on_neo4j_error_lem :
    {A M : Type 0} (handle : ℕ → Neo4jError A → M → M × Bool) (c : ℕ) (e : Neo4jError A) (m : M)
    (p : Pool)
    → unauthenticates_all_connections e ≡ true
    → Unauthenticated (on_neo4j_error handle c e m p).1.store (p.connections (p.store c).address)
unfolding on_neo4j_error unauthenticate_all
on_neo4j_error_lem handle c e m p h =
    rw h (Unauthenticated-modify_all (p.connections (p.store c).address) p)
