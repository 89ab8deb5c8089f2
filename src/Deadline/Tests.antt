-- ===== src/Deadline/Tests.antt =====
-- Deadlines at concrete times.
use neo4j_python_driver.Base.{◌≡◌, refl, [], ◌∷◌, true, none, some}
use neo4j_python_driver.Deadline.Merge.{
  Deadline, timeout_limit, deadline_limit, to_timeout, expired, all_deadlines,
  merge_deadlines_and_timeouts, connection_deadline,
}
use neo4j_python_driver.Deadline.Earliest.{any_expired, merge_deadlines_and_timeouts_lem}

abbrev at_ten : Deadline
at_ten = record { deadline = some 10; original_timeout = some 4 }

over_at_ten : expired 10 at_ten ≡ true
unfolding expired to_timeout
over_at_ten = refl

-- Without a deadline on either side there is nothing to merge.
nothing_to_merge : connection_deadline none none ≡ none
unfolding connection_deadline
nothing_to_merge = refl

merge_deadlines_and_timeouts_lem_example :
    (d : Deadline) × (merge_deadlines_and_timeouts 5
        (timeout_limit (some 7) ∷ deadline_limit at_ten ∷ [])
      ≡ some d)
    × (expired 11 d
        ≡ any_expired 11 (all_deadlines 5 (timeout_limit (some 7) ∷ deadline_limit at_ten ∷ [])))
merge_deadlines_and_timeouts_lem_example =
    merge_deadlines_and_timeouts_lem 5 11 (timeout_limit (some 7)) (deadline_limit at_ten ∷ [])
