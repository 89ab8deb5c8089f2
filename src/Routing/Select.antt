-- ===== src/Routing/Select.antt =====
-- `Neo4jPool._select_address` (neo4j/_sync/io/_pool.py).
use neo4j_python_driver.Base.{
  ℕ, List, [], ◌∷◌, ◌++◌, Bool, none, some, ◌==◌, if◌then◌else◌, min, Result, ok, err,
}
use neo4j_python_driver.Pool.Ops.{in_use_connection_count}
use neo4j_python_driver.Routing.Tables.{Neo4jPool, lookup}

pub data Unavailable : Type 0 where
  read_service_unavailable write_service_unavailable : Unavailable

-- The dict `addresses_by_usage`: the addresses with a number of connections in use.
abbrev pub Usage : Type 0
Usage = List (ℕ × List ℕ)

-- `addresses_by_usage.setdefault(usage, []).append(address)`
unfoldable pub count_address : ℕ → ℕ → Usage → Usage
count_address n a [] = (n, a ∷ []) ∷ []
count_address n a ((m, xs) ∷ us) =
    let rest = count_address n a us in if m == n then (m, xs ++ (a ∷ [])) ∷ us else (m, xs) ∷ rest

unfoldable pub addresses_by_usage : (ℕ → ℕ) → List ℕ → Usage → Usage
addresses_by_usage usage [] us = us
addresses_by_usage usage (a ∷ rest) us =
    addresses_by_usage usage rest (count_address (usage a) a us)

-- `min(addresses_by_usage)`, with the first key given apart.
unfoldable pub min_usage : ℕ → Usage → ℕ
min_usage n [] = n
min_usage n ((m, xs) ∷ us) = min_usage (min n m) us

unfoldable pub with_usage : ℕ → Usage → List ℕ
with_usage n [] = []
with_usage n ((m, xs) ∷ us) = let rest = with_usage n us in if m == n then xs else rest

-- The addresses among which `choice` chooses.
unfoldable pub least_used : Usage → List ℕ
least_used [] = []
least_used ((m, xs) ∷ us) = with_usage (min_usage m us) ((m, xs) ∷ us)

unfoldable pub addresses_for : Bool → ℕ → Neo4jPool → List ℕ
addresses_for readonly db q = elim (lookup db q.routing_tables) [
  | none ↦ []
  | some t ↦ if readonly then t.readers else t.writers
]

-- The end of `_select_address`: an error for the access mode, or a choice.
unfoldable pub choose_address : (List ℕ → ℕ) → Bool → Usage → Result Unavailable ℕ
choose_address choice readonly [] =
    err (if readonly then read_service_unavailable else write_service_unavailable)
choose_address choice readonly (u ∷ us) = ok (choice (least_used (u ∷ us)))

unfoldable pub select_address : (List ℕ → ℕ) → Bool → ℕ → Neo4jPool → Result Unavailable ℕ
select_address choice readonly db q =
    choose_address choice readonly
      (addresses_by_usage (λ a. in_use_connection_count a q.pool) (addresses_for readonly db q) [])
