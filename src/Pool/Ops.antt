-- ===== src/Pool/Ops.antt =====
-- The operations of `IOPool`. Each is what happens under one hold of the pool's lock, or a loop over
-- such steps.
use neo4j_python_driver.Base.{
  ℕ, zero, suc, ◌+◌, ◌-◌, List, [], ◌∷◌, ◌++◌, Bool, true, false, ◌||◌, Option, none, some, ltb,
  if◌then◌else◌, length,
}
use neo4j_python_driver.Pool.State.{
  Connection, Pool, update, modify, modify_all, remove, set_in_use, close, set_stale,
  mark_unauthenticated,
}

-- The first connection of the queue that is not in use.
unfoldable pub find_idle : (ℕ → Connection) → List ℕ → Option ℕ
find_idle store [] = none
find_idle store (c ∷ cs) = if (store c).in_use then find_idle store cs else some c

-- `_acquire_from_pool`
unfoldable pub acquire_from_pool : ℕ → Pool → Pool × Option ℕ
acquire_from_pool address p = elim (find_idle p.store (p.connections address)) [
  | none ↦ (p, none)
  | some c ↦ (modify (set_in_use true) c p, some c)
]

-- `_remove_connection`
unfoldable pub remove_connection : ℕ → Pool → Pool
remove_connection c p =
    let address = (p.store c).address in
    record p { connections = update p.connections address (remove c (p.connections address)) }

-- `health_check` of `_acquire`: `alive` is the outcome of the liveness check, which is `true` if the
-- check is off or the connection was used recently.
unfoldable pub health_check : (ℕ → Bool) → Pool → ℕ → Bool
health_check alive p c =
    let conn = p.store c in if conn.closed || conn.defunct || conn.stale then false else alive c

-- `_acquire_from_pool_checked`, until the deadline has expired after `rounds` rounds. Each round but
-- the last removes a connection.
unfoldable pub acquire_from_pool_checked : (ℕ → Bool) → ℕ → ℕ → Pool → Pool × Option ℕ
acquire_from_pool_checked alive address zero p = (p, none)
acquire_from_pool_checked alive address (suc rounds) p =
    let (p', found) = acquire_from_pool address p in
    elim found [
      | none ↦ (p', none)
      | some c ↦
          if health_check alive p' c
          then (p', some c)
          else acquire_from_pool_checked alive address rounds
              (remove_connection c (modify close c p'))
    ]

-- `_acquire_new_later`: a reservation, if there is room for a new connection.
unfoldable pub has_room : ℕ → Pool → Bool
has_room address p = elim p.max_size [
  | none ↦ true
  | some size ↦ ltb (length (p.connections address) + p.reservations address) size
]

unfoldable pub acquire_new_later : ℕ → Pool → Option Pool
unfolding has_room
acquire_new_later address p =
    if has_room address p
    then some
        (record p { reservations = update p.reservations address (p.reservations address + 1) })
    else none

abbrev pub give_back_reservation : ℕ → Pool → Pool
give_back_reservation address p = record p {
  reservations = update p.reservations address (p.reservations address - 1);
}

-- `deactivate`: the idle connections of the address are removed, then closed.
unfoldable pub idle_of : (ℕ → Connection) → List ℕ → List ℕ
idle_of store [] = []
idle_of store (c ∷ cs) = if (store c).in_use then idle_of store cs else c ∷ idle_of store cs

unfoldable pub remove_each : List ℕ → List ℕ → List ℕ
remove_each [] ds = ds
remove_each (c ∷ cs) ds = remove_each cs (remove c ds)

unfoldable pub deactivate : ℕ → Pool → Pool
deactivate address p =
    let connections = p.connections address in
    let closable = idle_of p.store connections in
    modify_all close closable
      (record p { connections = update p.connections address (remove_each closable connections) })

-- What the `opener` did, and `assert_re_auth_support` after it.
pub data Opened : Type 0 where
  connected : ℕ → Opened
  service_unavailable : Opened
  open_failed : Opened
  no_re_auth : ℕ → Opened

-- `connection_creator`: the reservation is given back on every path, and a connection that was opened
-- and is supported joins the queue, in use.
unfoldable pub connection_creator : ℕ → Opened → Pool → Pool × Option ℕ
connection_creator address (connected c) p =
    let p' = give_back_reservation address (modify (set_in_use true) c p) in
    (
      record p' {
        connections = update p'.connections address (p'.connections address ++ (c ∷ []));
      },
      some c,
    )
connection_creator address service_unavailable p =
    (give_back_reservation address (deactivate address p), none)
connection_creator address open_failed p = (give_back_reservation address p, none)
connection_creator address (no_re_auth c) p =
    (give_back_reservation address (modify close c p), none)

-- How `connection.reset()` ended in `release`, and what the connection is like after it.
pub data ResetOutcome : Type 0 where
  reset_ok reset_failed reset_cancelled : ResetOutcome

pub record Reset : Type 0 where
  pub outcome : ResetOutcome
  pub closed_after : Bool
  pub defunct_after : Bool
  pub clean_after : Bool

abbrev pub after_reset : Reset → Connection → Connection
after_reset r c = record c {
  closed = r.closed_after;
  defunct = r.defunct_after;
  is_reset = r.clean_after;
}

-- One round of the first loop of `release`: a connection that is alive and not clean is reset, and a
-- failure is only logged; once a reset was cancelled, that connection and the rest are killed.
unfoldable pub by_outcome : ResetOutcome → Reset → ℕ → Pool → Pool × Bool
by_outcome reset_ok r c p = (modify (after_reset r) c p, false)
by_outcome reset_failed r c p = (modify (after_reset r) c p, false)
by_outcome reset_cancelled r c p = (modify close c (modify (after_reset r) c p), true)

unfoldable pub clean_one : Bool → Bool → Reset → ℕ → Pool → Pool × Bool
clean_one true cancelled r c p = (p, cancelled)
clean_one false true r c p = (modify close c p, true)
clean_one false false r c p = by_outcome r.outcome r c p

unfoldable pub clean_up : (ℕ → Reset) → Bool → List ℕ → Pool → Pool × Bool
clean_up reset cancelled [] p = (p, cancelled)
clean_up reset cancelled (c ∷ cs) p =
    let conn = p.store c in
    let skip = conn.defunct || conn.closed || conn.is_reset in
    let (p', cancelled') = clean_one skip cancelled (reset c) c p in clean_up reset cancelled' cs p'

-- `release`; the flag says that the cancellation is raised again.
unfoldable pub release : (ℕ → Reset) → List ℕ → Pool → Pool × Bool
release reset cs p =
    let (p', cancelled) = clean_up reset false cs p in
    (modify_all (set_in_use false) cs p', cancelled)

-- `kill_and_release`
unfoldable pub kill : Connection → Connection
kill c = if c.defunct || c.closed then c else close c

unfoldable pub kill_and_release : List ℕ → Pool → Pool
unfolding kill
kill_and_release cs p = modify_all (set_in_use false) cs (modify_all kill cs p)

-- `in_use_connection_count`
unfoldable pub count_in_use : (ℕ → Connection) → List ℕ → ℕ
count_in_use store [] = 0
count_in_use store (c ∷ cs) = (if (store c).in_use then 1 else 0) + count_in_use store cs

unfoldable pub in_use_connection_count : ℕ → Pool → ℕ
unfolding count_in_use
in_use_connection_count address p = count_in_use p.store (p.connections address)

-- `mark_all_stale`, over the addresses that have a queue.
unfoldable pub mark_all_stale : List ℕ → Pool → Pool
mark_all_stale [] p = p
mark_all_stale (address ∷ rest) p =
    mark_all_stale rest (modify_all set_stale (p.connections address) p)

-- The part of `on_neo4j_error` that concerns the pool: an error that unauthenticates all connections
-- to the address of the connection.
unfoldable pub unauthenticate_all : ℕ → Pool → Pool
unauthenticate_all address p = modify_all mark_unauthenticated (p.connections address) p

-- `close`, over the addresses that have a queue.
unfoldable pub close_all : List ℕ → Pool → Pool
close_all [] p = p
close_all (address ∷ rest) p = close_all rest (
    modify_all close (p.connections address)
      (record p { connections = update p.connections address [] }))
