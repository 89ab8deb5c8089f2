-- ===== src/Pool/State.antt =====
-- The state of an `IOPool`: the connection objects, the queues of each address and the reservations.
use neo4j_python_driver.Base.{ℕ, List, [], ◌∷◌, Bool, true, false, Option, ◌==◌, if◌then◌else◌}

-- What the pool reads of a connection. `is_reset` says that the connection is clean.
pub record Connection : Type 0 where
  pub address : ℕ
  pub in_use : Bool
  pub closed : Bool
  pub defunct : Bool
  pub stale : Bool
  pub is_reset : Bool
  pub authenticated : Bool

-- Connections are shared objects: `store` holds them by their identity, the queues hold identities.
-- `connections` and `connections_reservations` are defaultdicts. No `max_size` is an infinite pool.
pub record Pool : Type 0 where
  pub store : ℕ → Connection
  pub connections : ℕ → List ℕ
  pub reservations : ℕ → ℕ
  pub max_size : Option ℕ

unfoldable pub update {ℓ} : {A : Type ℓ} → (ℕ → A) → ℕ → A → ℕ → A
update f k a j = if j == k then a else f j

-- An assignment to attributes of one connection.
unfoldable pub modify : (Connection → Connection) → ℕ → Pool → Pool
modify f c p = record p { store = update p.store c (f (p.store c)) }

-- The same for each connection of a list, in its order.
unfoldable pub modify_all : (Connection → Connection) → List ℕ → Pool → Pool
modify_all f [] p = p
modify_all f (c ∷ cs) p = modify_all f cs (modify f c p)

-- `deque.remove`: the first occurrence, or nothing for the `ValueError` that is ignored.
unfoldable pub remove : ℕ → List ℕ → List ℕ
remove c [] = []
remove c (d ∷ ds) = if d == c then ds else d ∷ remove c ds

abbrev pub set_in_use : Bool → Connection → Connection
set_in_use b c = record c { in_use = b }

abbrev pub close : Connection → Connection
close c = record c { closed = true }

abbrev pub set_stale : Connection → Connection
set_stale c = record c { stale = true }

abbrev pub mark_unauthenticated : Connection → Connection
mark_unauthenticated c = record c { authenticated = false }
