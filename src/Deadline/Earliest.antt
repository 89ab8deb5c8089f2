-- ===== src/Deadline/Earliest.antt =====
-- What a merged deadline is.
use neo4j_python_driver.Base.{
  ℕ, List, [], ◌∷◌, Bool, true, false, ◌||◌, Option, none, some, ◌≡◌, refl, arith, ltb,
  if◌then◌else◌, ◌∙◌,
}
use neo4j_python_driver.Deadline.Merge.{
  Deadline, Limit, expired, to_timeout, earlier, min_deadline, merge_deadlines, all_deadlines,
  from_timeout_or_deadline, merge_deadlines_and_timeouts,
}

-- Whether some deadline of a list has expired.
pub any_expired : ℕ → List Deadline → Bool
any_expired now [] = false
any_expired now (d ∷ ds) = expired now d || any_expired now ds

over : ℕ → Option ℕ → Bool
over now none = false
over now (some end) = if ltb now end then false else true

expired-over : (now : ℕ) (d : Deadline) → expired now d ≡ over now d.deadline
unfolding expired to_timeout over
expired-over now d = ground arith

over-earlier :
    (now : ℕ) (x y : Option ℕ)
    → over now (if earlier y x then y else x) ≡ (over now x || over now y)
unfolding over earlier
over-earlier now none none = refl
over-earlier now none (some e) = refl
over-earlier now (some d) none = ground arith
over-earlier now (some d) (some e) = ground arith

deadline-if :
    (b : Bool) (d e : Deadline)
    → (if b then e else d).deadline ≡ (if b then e.deadline else d.deadline)
deadline-if true d e = refl
deadline-if false d e = refl

expired-earlier :
    (now : ℕ) (d e : Deadline)
    → expired now (if earlier e.deadline d.deadline then e else d)
      ≡ (expired now d || expired now e)
expired-earlier now d e =
    rw
      (
        expired-over now (if earlier e.deadline d.deadline then e else d),
        expired-over now d,
        expired-over now e,
        deadline-if (earlier e.deadline d.deadline) d e,
      )
      (over-earlier now d.deadline e.deadline)

or_assoc : (a b c : Bool) → ((a || b) || c) ≡ (a || (b || c))
or_assoc true b c = refl
or_assoc false b c = refl

expired-min_deadline :
    (now : ℕ) (d : Deadline) (ds : List Deadline)
    → expired now (min_deadline d ds) ≡ (expired now d || any_expired now ds)
unfolding min_deadline any_expired
expired-min_deadline now d [] = ground arith
expired-min_deadline now d (e ∷ es) =
    expired-min_deadline now (if earlier e.deadline d.deadline then e else d) es
    ∙ (rw (expired-earlier now d e) (or_assoc (expired now d) (expired now e) (any_expired now es)))

-- Merging one or more deadlines and timeouts gives a deadline which at every time has expired exactly
-- if some of them has.
pub merge_deadlines_and_timeouts_lem :
    (start now : ℕ) (l : Limit) (ls : List Limit)
    → (d : Deadline) × (merge_deadlines_and_timeouts start (l ∷ ls) ≡ some d)
      × (expired now d ≡ any_expired now (all_deadlines start (l ∷ ls)))
unfolding merge_deadlines_and_timeouts merge_deadlines all_deadlines any_expired
merge_deadlines_and_timeouts_lem start now l ls = (
  min_deadline (from_timeout_or_deadline start l) (all_deadlines start ls),
  refl,
  expired-min_deadline now (from_timeout_or_deadline start l) (all_deadlines start ls),
)
