-- ===== src/Auth.antt =====
-- `Neo4jAuthTokenManager` (neo4j/_sync/auth_management.py) and `ExpiringAuth`
-- (neo4j/_auth_management.py). Each operation runs under the manager's lock, so it is one step. The
-- provider is a parameter: what its nth call returns. Auth tokens are numbers, and so are times.
pub mod Once
mod Tests
use neo4j_python_driver.Base.{
  ℕ, suc, Bool, true, false, ◌||◌, ◌==◌, ltb, if◌then◌else◌, Option, none, some, List, [], ◌∷◌,
  ◌++◌,
}

pub record ExpiringAuth : Type 0 where
  pub auth : ℕ
  pub expires_at : Option ℕ

abbrev pub expires_before : Option ℕ → ℕ → Bool
expires_before none now = false
expires_before (some t) now = ltb t now

-- `expiring_auth_has_expired`
unfoldable pub has_expired : ℕ → ExpiringAuth → Bool
has_expired now a = expires_before a.expires_at now

-- `calls` is the number of calls of the provider so far.
pub record AuthManager : Type 0 where
  pub current_auth : Option ExpiringAuth
  pub calls : ℕ

abbrev pub new_manager : AuthManager
new_manager = record { current_auth = none; calls = 0 }

-- What is returned: nothing if the provider has returned `None`, which raises a `TypeError`.
abbrev pub auth_of : Option ExpiringAuth → Option ℕ
auth_of none = none
auth_of (some a) = some a.auth

-- `error.code in handled_codes`
abbrev pub is_handled : List ℕ → ℕ → Bool
is_handled [] code = false
is_handled (c ∷ cs) code = (c == code) || is_handled cs code

-- What the connections of a driver do with the manager, in the order in which they get the lock.
pub data Event : Type 0 where
  request : ℕ → Event
  report : ℕ → ℕ → Event

module _ (provider : ℕ → Option ExpiringAuth) where
  unfoldable pub refresh_auth : AuthManager → AuthManager
  refresh_auth m = record { current_auth = provider m.calls; calls = suc m.calls }

  abbrev pub refreshed : AuthManager → AuthManager × Option ℕ
  refreshed m = let n = refresh_auth m in (n, auth_of n.current_auth)

  abbrev pub get_from : ℕ → Option ExpiringAuth → AuthManager → AuthManager × Option ℕ
  get_from now none m = refreshed m
  get_from now (some a) m = if has_expired now a then refreshed m else (m, some a.auth)

  unfoldable pub get_auth : ℕ → AuthManager → AuthManager × Option ℕ
  get_auth now m = get_from now m.current_auth m

  abbrev pub report_to : Option ExpiringAuth → ℕ → AuthManager → AuthManager
  report_to none auth m = m
  report_to (some a) auth m = if a.auth == auth then refresh_auth m else m

  -- Whether the error is handled; a refresh that raises a `TypeError` leaves the same state.
  unfoldable pub handle_security_exception : List ℕ → ℕ → ℕ → AuthManager → AuthManager × Bool
  handle_security_exception handled_codes auth code m =
      if is_handled handled_codes code then (report_to m.current_auth auth m, true) else (m, false)

  -- The manager after the events, and what the requests were given.
  unfoldable pub run_events : List ℕ → List Event → AuthManager → AuthManager × List (Option ℕ)
  run_events codes [] m = (m, [])
  run_events codes (request now ∷ es) m =
      let (n, a) = get_auth now m in let (k, as') = run_events codes es n in (k, a ∷ as')
  run_events codes (report auth code ∷ es) m =
      run_events codes es (handle_security_exception codes auth code m).0
