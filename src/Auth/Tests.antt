-- ===== src/Auth/Tests.antt =====
-- Expiring tokens at concrete times.
use neo4j_python_driver.Base.{
  ℕ, ◌==◌, if◌then◌else◌, ◌≡◌, refl, false, Option, none, some, [], ◌∷◌, arith,
}
use neo4j_python_driver.Auth.{
  ExpiringAuth, has_expired, new_manager, refresh_auth, request, report, get_auth,
  handle_security_exception, run_events,
}
use neo4j_python_driver.Auth.Once.{Timely, has_report, tokens, run_events_lem}

abbrev old : ExpiringAuth
old = record { auth = 1; expires_at = some 100 }

abbrev new : ExpiringAuth
new = record { auth = 2; expires_at = none }

abbrev provide : ℕ → Option ExpiringAuth
provide n = if n == 0 then some old else some new

-- The token is used until its time is over.
expiry :
    run_events provide [] (request 5 ∷ request 100 ∷ request 101 ∷ []) new_manager
    ≡ (record { current_auth = some new; calls = 2 }, some 1 ∷ some 1 ∷ some 2 ∷ [])
unfolding run_events get_auth refresh_auth has_expired
expiry = refl

-- An error that is not handled changes nothing.
unhandled :
    handle_security_exception provide (8 ∷ []) 1 9 (record { current_auth = some old; calls = 1 })
    ≡ (record { current_auth = some old; calls = 1 }, false)
unfolding handle_security_exception
unhandled = refl

run_events_lem_example :
    run_events provide
      (9 ∷ [])
      (request 5 ∷ report 1 9 ∷ report 1 9 ∷ request 6 ∷ [])
      (record { current_auth = some old; calls = 1 })
    ≡ (record { current_auth = some new; calls = 2 }, some 1 ∷ some 2 ∷ [])
unfolding Timely has_expired has_report tokens
run_events_lem_example =
    run_events_lem provide (9 ∷ []) old new 1 (request 5 ∷ report 1 9 ∷ report 1 9 ∷ request 6 ∷ [])
      (refl, refl, (refl, refl, (refl, refl, (refl, refl, tt)))) refl (omega arith)
