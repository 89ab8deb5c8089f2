-- ===== src/Work/Retries/Released.antt =====
-- That the retry loop gives back each connection that it takes.
use neo4j_python_driver.Base.{
  ℕ, ◌+◌, ◌<◌, ◌≡◌, true, false, Option, some, List, [], ◌∷◌, Result, ok, err, ◌⊎◌,
}
use neo4j_python_driver.Work.Transactions.{
  CallFailure, unhandled, Raised, is_driver_error, Session, Returned,
}
use neo4j_python_driver.Work.Retries.{Attempt}
use neo4j_python_driver.Work.Retries.Fairness.{Fair, Idle, Active}

-- What the preparation of BEGIN has raised is neither handled nor caught: the session keeps the connection.
abbrev pub Kept : Option CallFailure → Raised → Session → Type 0
Kept begin e s =
    (begin ≡ some (unhandled e))
    × (is_driver_error e ≡ false)
    × (s.connected ≡ true)
    × (s.taken ≡ s.released + 1)

-- What an attempt leaves: a connection at most if it raises what the loop catches.
Left : {A : Type 0} → Option CallFailure → Result Raised A × Session → Type 0
Left begin (ok a, s) = Idle s
Left begin (err e, s) = Fair s × (is_driver_error e ≡ false → Idle s ⊎ Kept begin e s)

-- Opening a transaction.
Begun : Option CallFailure → Returned → Type 0
Begun begin (ok x, s) = Active s
Begun begin (err e, s) = Fair s × (is_driver_error e ≡ false → Idle s ⊎ Kept begin e s)

module _ {A : Type 0} where
  -- The loop has raised what the preparation of BEGIN raised in one of the attempts, and keeps the connection.
  unfoldable pub Escapes : List (Attempt A) → Result Raised A → Session → Type 0
  Escapes ts (ok a) u = ⊥
  Escapes [] (err e) u = ⊥
  Escapes (t ∷ ts) (err e) u = Kept t.begin e u ⊎ Escapes ts (err e) u

  -- Some attempt is checked after the time to retry is over.
  unfoldable pub Late : ℕ → ℕ → List (Attempt A) → Type 0
  Late limit start [] = ⊥
  Late limit start (t ∷ ts) = (start + limit < t.checked_at) ⊎ Late limit start ts

  -- The loop ends, with nothing held unless the preparation of BEGIN has raised.
  abbrev pub Finishes : List (Attempt A) → Option (Result Raised A × Session) → Type 0
  Finishes ts o =
      (r : Result Raised A) × (u : Session) × (o ≡ some (r, u)) × (Idle u ⊎ Escapes ts r u)
