-- ===== src/Locks.antt =====
-- `AsyncCooperativeRLock` (neo4j/_async_compat/concurrency.py). Tasks are numbers; an operation that
-- raises `RuntimeError` leaves the lock as it is.
pub mod Exclusion
mod Tests
use neo4j_python_driver.Base.{
  ℕ, suc, ◌+◌, ◌-◌, Bool, true, false, ◌==◌, if◌then◌else◌, Option, none, some, List, [], ◌∷◌,
  Result, ok, err,
}

pub data RuntimeError : Type 0 where
  foreign_lock not_acquired : RuntimeError

pub record CooperativeRLock : Type 0 where
  pub owner : Option ℕ
  pub count : ℕ

abbrev pub new_lock : CooperativeRLock
new_lock = record { owner = none; count = 0 }

abbrev pub acquire_from :
    Option ℕ → ℕ → CooperativeRLock → CooperativeRLock × Result RuntimeError (Unit {0})
acquire_from none me l = (record { owner = some me; count = 1 }, ok tt)
acquire_from (some o) me l =
    if o == me then (record l { count = suc l.count }, ok tt) else (l, err foreign_lock)

unfoldable pub acquire : ℕ → CooperativeRLock → CooperativeRLock × Result RuntimeError (Unit {0})
acquire me l = acquire_from l.owner me l

abbrev pub release_from :
    Option ℕ → ℕ → CooperativeRLock → CooperativeRLock × Result RuntimeError (Unit {0})
release_from none me l = (l, err not_acquired)
release_from (some o) me l =
    if o == me
    then (if l.count - 1 == 0
        then (record { owner = none; count = l.count - 1 }, ok tt)
        else (record { owner = some o; count = l.count - 1 }, ok tt))
    else (l, err foreign_lock)

unfoldable pub release : ℕ → CooperativeRLock → CooperativeRLock × Result RuntimeError (Unit {0})
release me l = release_from l.owner me l

-- What tasks do with a lock.
pub data Action : Type 0 where
  acquiring releasing : ℕ → Action

unfoldable pub act : Action → CooperativeRLock → CooperativeRLock × Result RuntimeError (Unit {0})
act (acquiring t) l = acquire t l
act (releasing t) l = release t l

abbrev pub locked : CooperativeRLock → Bool
locked l = elim l.owner [ none ↦ false | some o ↦ true ]
