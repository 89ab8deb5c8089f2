-- ===== src/Locks/Tests.antt =====
-- Locks that tasks contend for.
use neo4j_python_driver.Base.{ℕ, ◌≡◌, refl, some, List, [], ◌∷◌, err, arith}
use neo4j_python_driver.Locks.{foreign_lock, acquire, release, Action, acquiring, releasing, act}
use neo4j_python_driver.Locks.Exclusion.{history, outcome, history_exclusive}

abbrev contention : List Action
contention = acquiring 4 ∷ acquiring 4 ∷ acquiring 5 ∷ releasing 5 ∷ releasing 4 ∷ []

abbrev task : ℕ
task = 4

refused : (act (acquiring 5) (record { owner = some 4; count = 2 })).1 ≡ err foreign_lock
unfolding act acquire
refused = refl

history_exclusive_example :
    (task ≡ task)
    × ((outcome contention).0.owner ≡ some task)
    × ((outcome contention).0.count ≡ (outcome contention).1 task)
unfolding history act acquire release
history_exclusive_example = history_exclusive contention task task (omega arith) (omega arith)
