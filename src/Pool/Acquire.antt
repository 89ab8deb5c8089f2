-- ===== src/Pool/Acquire.antt =====
-- `IOPool._acquire` and `_re_auth_connection` (neo4j/_sync/io/_pool.py), over the rounds of the loop.
pub mod Handed
pub mod Returns
mod Tests
use neo4j_python_driver.Base.{
  ℕ, List, [], ◌∷◌, Bool, true, false, Option, none, some, if◌then◌else◌, Result, ok, err,
}
use neo4j_python_driver.Pool.State.{Connection, Pool, modify, close}
use neo4j_python_driver.Pool.Ops.{
  acquire_from_pool_checked, acquire_new_later, Opened, service_unavailable, open_failed,
  no_re_auth, connected, connection_creator, Reset, release,
}

-- How `_re_auth_connection` ends: the connection cannot do it, which is a `ConfigurationError`, or it
-- raises something else. Then come the attributes of the connection after it.
pub data ReAuthOutcome : Type 0 where
  re_auth_ok re_auth_unsupported re_auth_failed : ReAuthOutcome

pub record ReAuth : Type 0 where
  pub outcome : ReAuthOutcome
  pub closed_after : Bool
  pub defunct_after : Bool
  pub clean_after : Bool
  pub authenticated_after : Bool

abbrev pub after_re_auth : ReAuth → Connection → Connection
after_re_auth r c = record c {
  closed = r.closed_after;
  defunct = r.defunct_after;
  is_reset = r.clean_after;
  authenticated = r.authenticated_after;
}

-- What happens around a round. `checks` are the rounds of `_acquire_from_pool_checked` before the
-- deadline; `woken` says that `cond.wait` returned in time, and that there was time left; `lost` says
-- that what the re-authentication raises, or an opener that failed, is a `ServiceUnavailable` or a
-- `SessionExpired`. Other
-- threads change the pool whenever the lock is free: before a new connection is asked for, while one is
-- opened, and before the next round.
pub record Round : Type 0 where
  pub alive : ℕ → Bool
  pub checks : ℕ
  pub re_auth : ReAuth
  pub reset : ℕ → Reset
  pub opened : Opened
  pub woken : Bool
  pub lost : Bool
  pub before_new : Pool → Pool
  pub while_opening : Pool → Pool
  pub before_next : Pool → Pool

-- `ClientError`, `ConfigurationError`, what the re-authentication raised, `ServiceUnavailable` or
-- `SessionExpired`, and what else the opener raised.
pub data AcquireError : Type 0 where
  timed_out configuration_error re_auth_error no_service open_error : AcquireError

-- `none`: the loop goes on after the rounds.
abbrev pub Acquired : Type 0
Acquired = Pool × Option (Result AcquireError ℕ)

abbrev pub open_error_of : Bool → Opened → AcquireError
open_error_of lost (connected c) = open_error
open_error_of lost service_unavailable = no_service
open_error_of lost open_failed = if lost then no_service else open_error
open_error_of lost (no_re_auth c) = configuration_error

abbrev pub created : Bool → Opened → Pool × Option ℕ → Acquired
created lost o (p, some c) = (p, some (ok c))
created lost o (p, none) = (p, some (err (open_error_of lost o)))

-- A connection of the pool was found. With a token of the session, `auth`, a connection that cannot
-- be authenticated anew is an error, and else it is closed and given up.
unfoldable pub re_authed : Bool → Round → ReAuthOutcome → ℕ → (Pool → Acquired) → Pool → Acquired
re_authed auth r re_auth_ok c next p = (p, some (ok c))
re_authed auth r re_auth_failed c next p =
    (p, some (err (if r.lost then no_service else re_auth_error)))
re_authed auth r re_auth_unsupported c next p =
    if auth
    then (p, some (err configuration_error))
    else next (r.before_next (release r.reset (c ∷ []) (modify close c p)).0)

-- No connection was found: a new one is opened, if there is room, or else the thread waits.
unfoldable pub opened_or_next : ℕ → Round → (Pool → Acquired) → Pool → Option Pool → Acquired
opened_or_next address r next p (some q) =
    created r.lost r.opened (connection_creator address r.opened (r.while_opening q))
opened_or_next address r next p none =
    if r.woken then next (r.before_next p) else (p, some (err timed_out))

unfoldable pub after_check : Bool → ℕ → Round → (Pool → Acquired) → Pool × Option ℕ → Acquired
after_check auth address r next (p, some c) =
    re_authed auth r r.re_auth.outcome c next (modify (after_re_auth r.re_auth) c p)
after_check auth address r next (p, none) =
    let p' = r.before_new p in opened_or_next address r next p' (acquire_new_later address p')

unfoldable pub acquire : Bool → ℕ → List Round → Pool → Acquired
acquire auth address [] p = (p, none)
acquire auth address (r ∷ rs) p =
    after_check auth address r (acquire auth address rs)
      (acquire_from_pool_checked r.alive address r.checks p)
