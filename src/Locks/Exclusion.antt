-- ===== src/Locks/Exclusion.antt =====
-- That one task at most holds a lock, and that it is free once it has been released as often as acquired.
use neo4j_python_driver.Base.{
  ℕ, suc, ◌-◌, ◌<◌, ◌≡◌, ◌≢◌, refl, sym, ap, ◌∙◌, Bool, true, false, ◌==◌, if◌then◌else◌,
  Bool-cases, Option, none, some, List, [], ◌∷◌, Result, ok, err, inl, inr, arith,
}
use neo4j_python_driver.Locks.{
  RuntimeError, CooperativeRLock, new_lock, acquire_from, acquire, release_from, release, Action,
  acquiring, releasing, act,
}

-- How often a task has the lock, by what its calls have returned.
abbrev pub tally : Action → Result RuntimeError (Unit {0}) → (ℕ → ℕ) → ℕ → ℕ
tally a (err e) held t = held t
tally (acquiring u) (ok x) held t = if u == t then suc (held t) else held t
tally (releasing u) (ok x) held t = if u == t then held t - 1 else held t

-- The lock and the tallies after some actions.
unfoldable pub history : List Action → CooperativeRLock → (ℕ → ℕ) → CooperativeRLock × (ℕ → ℕ)
history [] l held = (l, held)
history (a ∷ actions) l held = let (k, r) = act a l in history actions k (tally a r held)

-- The lock knows who has it, and how often.
unfoldable pub Known : Option ℕ → ℕ → (ℕ → ℕ) → Type 0
Known none n held = (n ≡ 0) × ((t : ℕ) → held t ≡ 0)
Known (some o) n held = (0 < n) × (held o ≡ n) × ((t : ℕ) → t ≢ o → held t ≡ 0)

After : Action → CooperativeRLock × Result RuntimeError (Unit {0}) → (ℕ → ℕ) → Type 0
After a p held = Known p.0.owner p.0.count (tally a p.1 held)

if-After :
    (a : Action) (c : Bool) (p q : CooperativeRLock × Result RuntimeError (Unit {0})) (held : ℕ → ℕ)
    → (c ≡ true → After a p held)
    → (c ≡ false → After a q held)
    → After a (if c then p else q) held
if-After a true p q held h k = h refl
if-After a false p q held h k = k refl

acquire-After :
    (u n : ℕ) (o : Option ℕ) (held : ℕ → ℕ)
    → Known o n held
    → After (acquiring u) (acquire_from o u (record { owner = o; count = n })) held
unfolding After Known
acquire-After u n none held v = (omega arith, ground (arith, v.1 u), λ t d. ground (arith, v.1 t))
acquire-After u n (some o) held v =
    if-After (acquiring u) (o == u) _ _ held
      (λ e. (omega arith, ground (arith, v.1), λ t d. ground (arith, v.2 t d))) (λ e. v)

release-After :
    (u n : ℕ) (o : Option ℕ) (held : ℕ → ℕ)
    → Known o n held
    → After (releasing u) (release_from o u (record { owner = o; count = n })) held
unfolding After Known
release-After u n none held v = v
release-After u n (some o) held v =
    if-After (releasing u) (o == u) _ _ held
      (λ e.
        if-After (releasing u) (n - 1 == 0) _ _ held
          (λ z. (
            ground arith,
            λ t. elim (Bool-cases (u == t)) [
              | inl x ↦ ground (arith, v.1)
              | inr x ↦ ground (arith, v.2 t)
            ],
          ))
          (λ z. (ground arith, ground (arith, v.1), λ t d. ground (arith, v.2 t d))))
      (λ e. v)

act-After :
    (a : Action) (l : CooperativeRLock) (held : ℕ → ℕ)
    → Known l.owner l.count held
    → After a (act a l) held
unfolding act acquire release
act-After (acquiring u) l held v = acquire-After u l.count l.owner held v
act-After (releasing u) l held v = release-After u l.count l.owner held v

history-Known :
    (actions : List Action) (l : CooperativeRLock) (held : ℕ → ℕ)
    → Known l.owner l.count held
    → (let (k, h) = history actions l held in Known k.owner k.count h)
unfolding history After
history-Known [] l held v = v
history-Known (a ∷ actions) l held v =
    history-Known actions (act a l).0 (tally a (act a l).1 held) (act-After a l held v)

abbrev pub no_one : ℕ → ℕ
no_one t = 0

new_lock-Known : Known none 0 no_one
unfolding Known
new_lock-Known = (refl, λ t. refl)

-- The lock after some actions on a new one, and how often each task has it.
abbrev pub outcome : List Action → CooperativeRLock × (ℕ → ℕ)
outcome actions = history actions new_lock no_one

holder :
    (o : Option ℕ) (n t : ℕ) (held : ℕ → ℕ)
    → Known o n held
    → 0 < held t
    → (o ≡ some t) × (n ≡ held t)
unfolding Known
holder none n t held v h = absurd (omega (arith, v.1 t))
holder (some o) n t held v h = elim (Bool-cases (o == t)) [
  | inl e ↦ let same : o ≡ t = ground arith in (ap some same, sym v.1 ∙ ap held same)
  | inr e ↦ absurd (ground (arith, v.2 t))
]

-- Whatever tasks do with a new lock, in whatever order, and also if they release it without having it:
-- two different tasks never have it at once, and a task that has it is its owner, and has it as often
-- as its count says.
pub history_exclusive :
    (actions : List Action) (t u : ℕ)
    → 0 < (outcome actions).1 t
    → 0 < (outcome actions).1 u
    → (t ≡ u)
      × ((outcome actions).0.owner ≡ some t)
      × ((outcome actions).0.count ≡ (outcome actions).1 t)
history_exclusive actions t u h k =
    let v = history-Known actions new_lock no_one new_lock-Known in
    let (e, f) = holder _ _ t _ v h in
    let (g, _) = holder _ _ u _ v k in
    let both : some t ≡ some u = sym e ∙ g in (ground arith, e, f)
