-- ===== src/Deadline/Merge.antt =====
-- `Deadline` and the merging of deadlines. Times are ticks of `perf_counter`; a deadline or a timeout
-- that is `None` or infinite is `none`, and timeouts are not negative.
use neo4j_python_driver.Base.{
  ℕ, ◌+◌, ◌-◌, List, [], ◌∷◌, Bool, true, false, Option, none, some, ltb, ◌==◌, if◌then◌else◌,
}

pub record Deadline : Type 0 where
  pub deadline : Option ℕ
  pub original_timeout : Option ℕ

-- `Deadline(timeout)` at the time `now`.
unfoldable pub new_deadline : ℕ → Option ℕ → Deadline
new_deadline now none = record { deadline = none; original_timeout = none }
new_deadline now (some timeout) = record {
  deadline = some (now + timeout);
  original_timeout = some timeout;
}

-- What is left, and 0 when the time is over.
unfoldable pub to_timeout : ℕ → Deadline → Option ℕ
to_timeout now d = elim d.deadline [
  | none ↦ none
  | some end ↦ some (if ltb now end then end - now else 0)
]

unfoldable pub expired : ℕ → Deadline → Bool
expired now d = elim (to_timeout now d) [ none ↦ false | some left ↦ left == 0 ]

-- `__lt__`
unfoldable pub earlier : Option ℕ → Option ℕ → Bool
earlier none e = false
earlier (some d) none = true
earlier (some d) (some e) = ltb d e

-- `merge_deadlines`, which is `min`: the first of the least. `none` is the `ValueError` on nothing.
unfoldable pub min_deadline : Deadline → List Deadline → Deadline
min_deadline d [] = d
min_deadline d (e ∷ es) = min_deadline (if earlier e.deadline d.deadline then e else d) es

unfoldable pub merge_deadlines : List Deadline → Option Deadline
merge_deadlines [] = none
merge_deadlines (d ∷ ds) = some (min_deadline d ds)

-- `from_timeout_or_deadline`
pub data Limit : Type 0 where
  timeout_limit : Option ℕ → Limit
  deadline_limit : Deadline → Limit

unfoldable pub from_timeout_or_deadline : ℕ → Limit → Deadline
from_timeout_or_deadline now (timeout_limit t) = new_deadline now t
from_timeout_or_deadline now (deadline_limit d) = d

unfoldable pub all_deadlines : ℕ → List Limit → List Deadline
all_deadlines now [] = []
all_deadlines now (l ∷ ls) = from_timeout_or_deadline now l ∷ all_deadlines now ls

unfoldable pub merge_deadlines_and_timeouts : ℕ → List Limit → Option Deadline
merge_deadlines_and_timeouts now ls = merge_deadlines (all_deadlines now ls)

-- `connection_deadline`: the deadline of the socket inside the block, given the one asked for and the
-- one that the socket had and has again after the block.
unfoldable pub given : Option Deadline → Option Deadline → List Deadline
given none none = []
given none (some d) = d ∷ []
given (some d) none = d ∷ []
given (some d) (some e) = d ∷ e ∷ []

-- The outer `none` is the `ValueError` of `min`.
unfoldable pub connection_deadline : Option Deadline → Option Deadline → Option (Option Deadline)
connection_deadline none (some original) = some (some original)
connection_deadline none none = none
connection_deadline (some d) original = elim (merge_deadlines (given (some d) original)) [
  | none ↦ none
  | some merged ↦ some (some merged)
]
