-- ===== src/Pool/Acquire/Returns.antt =====
-- When `_acquire` ends.
use neo4j_python_driver.Base.{
  ℕ, List, [], ◌∷◌, Bool, false, Option, none, some, ◌≡◌, refl, ◌⊎◌, inl, inr, Result, ok,
  Bool-cases, Option-cases,
}
use neo4j_python_driver.Pool.State.{Pool}
use neo4j_python_driver.Pool.Ops.{acquire_from_pool_checked, acquire_new_later, Opened}
use neo4j_python_driver.Pool.Acquire.{
  AcquireError, ReAuthOutcome, re_auth_ok, re_auth_unsupported, re_auth_failed, Round, Acquired,
  created, re_authed, opened_or_next, after_check, acquire,
}

-- In one of the rounds the deadline has expired when it begins.
abbrev pub HasExpired : List Round → Type 0
HasExpired [] = ⊥
HasExpired (r ∷ rs) = ((r.checks ≡ 0) × (r.woken ≡ false)) ⊎ HasExpired rs

abbrev pub Ended : Acquired → Type 0
Ended x = (o : Result AcquireError ℕ) × (x.1 ≡ some o)

created-Ended : (lost : Bool) (o : Opened) (x : Pool × Option ℕ) → Ended (created lost o x)
created-Ended lost o (p, some c) = (ok c, refl)
created-Ended lost o (p, none) = (_, refl)

expired_round :
    (auth : Bool) (address : ℕ) (r : Round) (next : Pool → Acquired) (p : Pool)
    → r.checks ≡ 0
    → r.woken ≡ false
    → Ended (after_check auth address r next (acquire_from_pool_checked r.alive address r.checks p))
unfolding after_check opened_or_next acquire_from_pool_checked
expired_round auth address r next p h k =
    elim (Option-cases (acquire_new_later address (r.before_new p))) [
      | inl full ↦ rw (h, full, k) (_, refl)
      | inr (q, room) ↦ rw (h, room) (created-Ended r.lost r.opened _)
    ]

module _ (auth : Bool) (address : ℕ) (r : Round) (next : Pool → Acquired)
    (later : (p : Pool) → Ended (next p)) where
  re_authed-Ended : (o : ReAuthOutcome) (c : ℕ) (p : Pool) → Ended (re_authed auth r o c next p)
  unfolding re_authed
  re_authed-Ended re_auth_ok c p = (ok c, refl)
  re_authed-Ended re_auth_failed c p = (_, refl)
  re_authed-Ended re_auth_unsupported c p = elim (Bool-cases auth) [
    | inl session ↦ rw session (_, refl)
    | inr pool ↦ rw pool (later _)
  ]

  opened_or_next-Ended : (p : Pool) (o : Option Pool) → Ended (opened_or_next address r next p o)
  unfolding opened_or_next
  opened_or_next-Ended p (some q) = created-Ended r.lost r.opened _
  opened_or_next-Ended p none = elim (Bool-cases r.woken) [
    | inl woken ↦ rw woken (later _)
    | inr late ↦ rw late (_, refl)
  ]

  after_check-Ended : (x : Pool × Option ℕ) → Ended (after_check auth address r next x)
  unfolding after_check
  after_check-Ended (p, some c) = re_authed-Ended r.re_auth.outcome c _
  after_check-Ended (p, none) = opened_or_next-Ended _ _

-- `_acquire` returns or raises at the latest in the first round that begins after the deadline.
pub acquire-Ended :
    (auth : Bool) (address : ℕ) (rs : List Round) (p : Pool)
    → HasExpired rs
    → Ended (acquire auth address rs p)
unfolding acquire
acquire-Ended auth address [] p h = absurd h
acquire-Ended auth address (r ∷ rs) p (inl (h, k)) = expired_round auth address r _ p h k
acquire-Ended auth address (r ∷ rs) p (inr h) =
    after_check-Ended auth address r _ (λ q. acquire-Ended auth address rs q h) _
