-- ===== src/Pool/System.antt =====
-- The pool and its clients: threads that acquire, create and release in any interleaving of the
-- steps that the pool's lock makes atomic.
use neo4j_python_driver.Base.{ℕ, ◌+◌, ◌-◌, ◌<◌, ◌≡◌, List, [], ◌∷◌, none, some, All}
use neo4j_python_driver.Pool.State.{Pool, update, modify, close}
use neo4j_python_driver.Pool.Ops.{
  acquire_from_pool, remove_connection, acquire_new_later, Opened, connected, connection_creator,
  Reset, release, kill_and_release, mark_all_stale, unauthenticate_all, deactivate, close_all,
}

-- `creators`: the `connection_creator`s of each address that have not been run. `holders`: how many
-- clients have picked or were handed each connection and have neither released nor removed it.
pub record System : Type 0 where
  pub pool : Pool
  pub creators : ℕ → ℕ
  pub holders : ℕ → ℕ

unfoldable pub clear_all : List ℕ → (ℕ → ℕ) → ℕ → ℕ
clear_all [] h = h
clear_all (c ∷ cs) h = clear_all cs (update h c 0)

-- The rounds of `_acquire_from_pool_checked` take the lock to pick a connection, and again to remove it if
-- it is not healthy; the health check and the closing are outside the lock, between other steps. A
-- client that finds nothing to pick changes nothing. A new connection is a new object, which nobody holds. A client releases only what it holds.
pub data Step (s : System) : System → Type 0 where
  picks :
      (a c : ℕ)
      → (acquire_from_pool a s.pool).1 ≡ some c
      → Step s (record s {
        pool = (acquire_from_pool a s.pool).0;
        holders = update s.holders c (s.holders c + 1);
      })
  closes_unhealthy : (c : ℕ) → 0 < s.holders c → Step s (record s { pool = modify close c s.pool })
  removes_unhealthy :
      (c : ℕ)
      → 0 < s.holders c
      → Step s (record s { pool = remove_connection c s.pool; holders = update s.holders c 0 })
  reserves :
      (a : ℕ) (q : Pool)
      → acquire_new_later a s.pool ≡ some q
      → Step s (record s { pool = q; creators = update s.creators a (s.creators a + 1) })
  creates :
      (a c : ℕ)
      → 0 < s.creators a
      → s.holders c ≡ 0
      → Step s (record {
        pool = (connection_creator a (connected c) s.pool).0;
        creators = update s.creators a (s.creators a - 1);
        holders = update s.holders c 1;
      })
  fails_to_create :
      (a : ℕ) (o : Opened)
      → 0 < s.creators a
      → (connection_creator a o s.pool).1 ≡ none
      → Step s (record s {
        pool = (connection_creator a o s.pool).0;
        creators = update s.creators a (s.creators a - 1);
      })
  releases :
      (reset : ℕ → Reset) (cs : List ℕ)
      → All (λ c. 0 < s.holders c) cs
      → Step s (record s { pool = (release reset cs s.pool).0; holders = clear_all cs s.holders })
  kills :
      (cs : List ℕ)
      → All (λ c. 0 < s.holders c) cs
      → Step s (record s { pool = kill_and_release cs s.pool; holders = clear_all cs s.holders })
  deactivates : (a : ℕ) → Step s (record s { pool = deactivate a s.pool })
  marks_stale : (as' : List ℕ) → Step s (record s { pool = mark_all_stale as' s.pool })
  unauthenticates : (a : ℕ) → Step s (record s { pool = unauthenticate_all a s.pool })
  closes : (as' : List ℕ) → Step s (record s { pool = close_all as' s.pool })

pub data Reach (s : System) : System → Type 0 where
  here : Reach s s
  next : {t u : System} → Reach s t → Step t u → Reach s u
