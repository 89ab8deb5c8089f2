-- ===== src/Pool/Use.antt =====
-- Which operations change whether a connection is in use.
use neo4j_python_driver.Base.{
  ℕ, ◌≡◌, refl, ◌∙◌, List, [], ◌∷◌, Bool, true, false, some, ◌==◌, if◌then◌else◌, arith, Bool-cases,
  inl, inr, ==_refl,
}
use neo4j_python_driver.Pool.State.{Connection, Pool, update, modify, modify_all, close, set_stale}
use neo4j_python_driver.Pool.Rules.{clean_up-induct, checked-induct}
use neo4j_python_driver.Pool.Ops.{
  find_idle, acquire_from_pool, remove_connection, acquire_from_pool_checked, idle_of, deactivate,
  Reset, after_reset, clean_up, kill, mark_all_stale, close_all,
}

-- Every connection that was in use still is.
abbrev pub KeepsUse : Pool → Pool → Type 0
KeepsUse p q = (c : ℕ) → (p.store c).in_use ≡ true → (q.store c).in_use ≡ true

chain_use : (p q r : Pool) → KeepsUse p q → KeepsUse q r → KeepsUse p r
chain_use p q r h k c e = k c (h c e)

-- Attributes other than `in_use` may change.
abbrev pub Leaves : (Connection → Connection) → Type 0
Leaves f = (c : Connection) → (f c).in_use ≡ c.in_use

pub in_use-modify :
    (f : Connection → Connection) (c d : ℕ) (p : Pool)
    → ((modify f c p).store d).in_use
      ≡ (if d == c then (f (p.store c)).in_use else (p.store d).in_use)
unfolding modify update
in_use-modify f c d p = ground arith

pub modify-KeepsUse :
    (f : Connection → Connection) → Leaves f → (c : ℕ) (p : Pool) → KeepsUse p (modify f c p)
unfolding modify update
modify-KeepsUse f keep c p d h = elim (Bool-cases (d == c)) [
  | inl same ↦ let here : d ≡ c = ground arith in rw same (keep (p.store c) ∙ rw (← here) h)
  | inr other ↦ rw other h
]

pub modify_all-KeepsUse :
    (f : Connection → Connection)
    → Leaves f
    → (cs : List ℕ) (p : Pool) → KeepsUse p (modify_all f cs p)
unfolding modify_all
modify_all-KeepsUse f keep [] p d h = h
modify_all-KeepsUse f keep (c ∷ cs) p d h =
    modify_all-KeepsUse f keep cs (modify f c p) d (modify-KeepsUse f keep c p d h)

pub acquire_from_pool-KeepsUse : (a : ℕ) (p : Pool) → KeepsUse p (acquire_from_pool a p).0
unfolding acquire_from_pool modify update
acquire_from_pool-KeepsUse a p d h = ground arith

pub acquire_from_pool_checked-KeepsUse :
    (alive : ℕ → Bool) (a rounds : ℕ) (p : Pool)
    → KeepsUse p (acquire_from_pool_checked alive a rounds p).0
acquire_from_pool_checked-KeepsUse =
    checked-induct KeepsUse (λ p c h. h) chain_use acquire_from_pool-KeepsUse
      (λ c p. unfold remove_connection in modify-KeepsUse close (λ x. refl) c p)

pub clean_up-KeepsUse :
    (reset : ℕ → Reset) (cs : List ℕ) (b : Bool) (p : Pool) → KeepsUse p (clean_up reset b cs p).0
clean_up-KeepsUse =
    clean_up-induct KeepsUse (λ p c h. h) chain_use
      (λ r c p. modify-KeepsUse (after_reset r) (λ x. refl) c p)
      (λ c p. modify-KeepsUse close (λ x. refl) c p)

find_idle_lem :
    (store : ℕ → Connection) (cs : List ℕ) (c : ℕ)
    → find_idle store cs ≡ some c
    → (store c).in_use ≡ false
unfolding find_idle
find_idle_lem store [] c e = cc
find_idle_lem store (d ∷ cs) c e = ground (arith, find_idle_lem store cs c)

-- What is handed out was free, is in use now, and passed the health check.
pub acquire_from_pool_lem :
    (a c : ℕ) (p : Pool)
    → (acquire_from_pool a p).1 ≡ some c
    → ((p.store c).in_use ≡ false) × (((acquire_from_pool a p).0.store c).in_use ≡ true)
unfolding acquire_from_pool modify update
acquire_from_pool_lem a c p e = ground (arith, find_idle_lem p.store (p.connections a) c, ==_refl c)

pub kill-Leaves : Leaves kill
unfolding kill
kill-Leaves c = ground arith

pub deactivate-KeepsUse : (a : ℕ) (p : Pool) → KeepsUse p (deactivate a p)
unfolding deactivate
deactivate-KeepsUse a p =
    modify_all-KeepsUse close (λ c. refl) (idle_of p.store (p.connections a)) _

pub mark_all_stale-KeepsUse : (as' : List ℕ) (p : Pool) → KeepsUse p (mark_all_stale as' p)
unfolding mark_all_stale
mark_all_stale-KeepsUse [] p c h = h
mark_all_stale-KeepsUse (a ∷ as') p c h =
    mark_all_stale-KeepsUse as' _ c
      (modify_all-KeepsUse set_stale (λ d. refl) (p.connections a) p c h)

pub close_all-KeepsUse : (as' : List ℕ) (p : Pool) → KeepsUse p (close_all as' p)
unfolding close_all
close_all-KeepsUse [] p c h = h
close_all-KeepsUse (a ∷ as') p c h =
    close_all-KeepsUse as' _ c (modify_all-KeepsUse close (λ d. refl) (p.connections a) _ c h)
