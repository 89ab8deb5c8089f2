-- ===== src/Auth/Once.antt =====
-- That one failure of a token, reported by many connections, asks the provider once.
use neo4j_python_driver.Base.{
  ℕ, suc, ◌≡◌, ◌≢◌, refl, sym, ap, Bool, true, false, ◌||◌, ◌==◌, ==_refl, Option, some, List, [],
  ◌∷◌, arith,
}
use neo4j_python_driver.Auth.{
  ExpiringAuth, has_expired, AuthManager, refresh_auth, Event, request, report, is_handled,
  get_auth, handle_security_exception, run_events,
}

or_false : (c : Bool) → (c || false) ≡ c
or_false c = ground arith

or_true : (c : Bool) → (c || true) ≡ true
or_true c = ground arith

module _ (provider : ℕ → Option ExpiringAuth) (codes : List ℕ) (a b : ExpiringAuth)
    (calls : ℕ) where
  -- Requests at a time when neither token has expired, and reports of the old one with an error that is
  -- handled.
  unfoldable pub Timely : List Event → Type 0
  Timely [] = Unit {0}
  Timely (request now ∷ es) = (has_expired now a ≡ false) × (has_expired now b ≡ false) × Timely es
  Timely (report auth code ∷ es) = (auth ≡ a.auth) × (is_handled codes code ≡ true) × Timely es

  -- The manager before and after the refresh.
  abbrev pub manager : Bool → AuthManager
  manager false = record { current_auth = some a; calls = calls }
  manager true = record { current_auth = some b; calls = suc calls }

  abbrev pub token : Bool → ℕ
  token false = a.auth
  token true = b.auth

  unfoldable pub has_report : List Event → Bool
  has_report [] = false
  has_report (request now ∷ es) = has_report es
  has_report (report auth code ∷ es) = true

  -- What the requests are given: the old token up to the first report, then the new one.
  unfoldable pub tokens : Bool → List Event → List (Option ℕ)
  tokens seen [] = []
  tokens seen (request now ∷ es) = some (token seen) ∷ tokens seen es
  tokens seen (report auth code ∷ es) = tokens true es

  get_current :
      (seen : Bool) (now : ℕ)
      → has_expired now a ≡ false
      → has_expired now b ≡ false
      → get_auth provider now (manager seen) ≡ (manager seen, some (token seen))
  unfolding get_auth
  get_current false now h k = rw h refl
  get_current true now h k = rw k refl

  report_once :
      (seen : Bool) (auth code : ℕ)
      → provider calls ≡ some b
      → b.auth ≢ a.auth
      → auth ≡ a.auth
      → is_handled codes code ≡ true
      → (handle_security_exception provider codes auth code (manager seen)).0 ≡ manager true
  unfolding handle_security_exception refresh_auth
  report_once false auth code p n e h = rw (h, e, ==_refl a.auth, p) refl
  report_once true auth code p n e h =
      let different : (b.auth == a.auth) ≡ false = ground arith in rw (h, e, different) refl

  reported :
      (seen : Bool) (es : List Event)
      → Timely es
      → provider calls ≡ some b
      → b.auth ≢ a.auth
      → run_events provider codes es (manager seen)
        ≡ (manager (seen || has_report es), tokens seen es)
  unfolding run_events Timely has_report tokens
  reported seen [] v p n = ap (λ c. (manager c, [])) (sym (or_false seen))
  reported seen (request now ∷ es) v p n =
      rw (get_current seen now v.0 v.1, reported seen es v.2 p n) refl
  reported seen (report auth code ∷ es) v p n =
      rw (report_once seen auth code p n v.0 v.1, reported true es v.2 p n)
        (ap (λ c. (manager c, tokens true es)) (sym (or_true seen)))

  -- While neither the old token nor the one that the provider returns next expires, and the two differ,
  -- requests and reports of failures of the old token call the provider once, if there is a report at
  -- all, in whatever order they come: up to the first report requests are given the old token, and then
  -- the new one.
  pub run_events_lem :
      (es : List Event)
      → Timely es
      → provider calls ≡ some b
      → b.auth ≢ a.auth
      → run_events provider codes es (record { current_auth = some a; calls = calls })
        ≡ (manager (has_report es), tokens false es)
  run_events_lem es v p n = reported false es v p n
