-- ===== src/Work/Retries/Explained.antt =====
-- What has happened when the retry loop returns.
use neo4j_python_driver.Base.{
  ◌≡◌, refl, sym, ap, subst, ◌∙◌, Bool, true, false, if◌then◌else◌, Option, none, some, List, [],
  ◌∷◌, Result, ok, err, ◌⊎◌, inl, inr, arith,
}
use neo4j_python_driver.Work.Results.{Text}
use neo4j_python_driver.Work.Transactions.{
  CallFailure, handled, unhandled, Raised, driver_error, new_transaction, Session, Returned,
  updated, update_bookmark, disconnect, transaction_closed_handler, transaction_error_handler,
  error_handler, call, if_active, close_flag, Commit, results_fail, commit_fails, committed,
  committing, commit, close, connect, open_transaction, run_query,
}
use neo4j_python_driver.Work.Retries.{
  Step, query, read_result, Attempt, read_if, step, work, if_closed, if_committed, finish_work,
  if_opened,
}

-- No call of the transaction function has failed with an error that the transaction notes.
unfoldable pub Clean : List Step → Type 0
Clean [] = Unit {0}
Clean (query none ∷ xs) = Clean xs
Clean (query (some (handled e)) ∷ xs) = ⊥
Clean (query (some (unhandled x)) ∷ xs) = Clean xs
Clean (read_result none ∷ xs) = Clean xs
Clean (read_result (some (handled e)) ∷ xs) = ⊥
Clean (read_result (some (unhandled x)) ∷ xs) = Clean xs

-- A transaction that is neither closed nor has failed.
record Sound (s : Session) : Type 0 where
  unclosed : s.transaction.closed ≡ false
  unfailed : s.transaction.last_error ≡ none

if_active-Sound :
    (s : Session) (r : Returned)
    → Sound s
    → if_active s.transaction.closed s.transaction.last_error s r ≡ r
if_active-Sound s r v =
    ap (λ c. if_active c s.transaction.last_error s r) v.unclosed
    ∙ ap (λ e. if_active false e s r) v.unfailed

-- Once it has failed, nothing changes any more.
record Broken (s : Session) : Type 0 where
  unclosed : s.transaction.closed ≡ false
  failed : (e : Raised) × (s.transaction.last_error ≡ some e)

step-Broken : (x : Step) (s : Session) → Broken s → step x s ≡ s
unfolding step run_query
step-Broken (query answer) s v =
    let (e, f) = v.failed in
    ap (λ c. (if_active c s.transaction.last_error s (call answer s)).1) v.unclosed
    ∙ ap (λ e. (if_active false e s (call answer s)).1) f
step-Broken (read_result answer) s v = let (e, f) = v.failed in ap (λ e. read_if e answer s) f

work-Broken : (xs : List Step) (s : Session) → Broken s → work xs s ≡ s
unfolding work
work-Broken [] s v = refl
work-Broken (x ∷ xs) s v = ap (work xs) (step-Broken x s v) ∙ work-Broken xs s v

if_same :
    {X : Type 0} (f : Session → X) (c : Bool) (x y : Session) (z : X)
    → f x ≡ z
    → f y ≡ z
    → f (if c then x else y) ≡ z
if_same f true x y z h k = h
if_same f false x y z h k = k

error_handler-Broken : (e : Raised) (s : Session) → Sound s → Broken (error_handler e s)
unfolding error_handler transaction_error_handler disconnect
error_handler-Broken e s v = record {
  unclosed = if_same (λ t. t.transaction.closed) s.opened _ _ false v.unclosed v.unclosed;
  failed = (e, if_same (λ t. t.transaction.last_error) s.opened _ _ (some e) refl refl);
}

after-Broken : (xs : List Step) (t u : Session) → t ≡ u → Broken u → Broken (work xs t)
after-Broken xs t u e v = rw e (subst Broken (sym (work-Broken xs u v)) v)

-- If the transaction has not failed at the end, no call has failed, and nothing has changed.
work-Clean :
    (xs : List Step) (s : Session) → Sound s → (Clean xs × (work xs s ≡ s)) ⊎ Broken (work xs s)
unfolding work step run_query Clean
work-Clean [] s v = inl (tt, refl)
work-Clean (query none ∷ xs) s v =
    rw (ap (λ (r : Returned). r.1) (if_active-Sound s (call none s) v)) (work-Clean xs s v)
work-Clean (read_result none ∷ xs) s v =
    rw (ap (λ e. read_if e none s) v.unfailed) (work-Clean xs s v)
work-Clean (query (some (unhandled x)) ∷ xs) s v =
    rw (ap (λ (r : Returned). r.1) (if_active-Sound s (call (some (unhandled x)) s) v))
      (work-Clean xs s v)
work-Clean (read_result (some (unhandled x)) ∷ xs) s v =
    rw (ap (λ e. read_if e (some (unhandled x)) s) v.unfailed) (work-Clean xs s v)
work-Clean (query (some (handled e)) ∷ xs) s v = inr (
    after-Broken xs _ _
      (ap (λ (r : Returned). r.1) (if_active-Sound s (call (some (handled e)) s) v))
      (error_handler-Broken (driver_error e) s v))
work-Clean (read_result (some (handled e)) ∷ xs) s v = inr (
    after-Broken xs _ _ (ap (λ f. read_if f (some (handled e)) s) v.unfailed)
      (error_handler-Broken (driver_error e) s v))

-- With its transaction open.
Ready : Session → Type 0
Ready s = Sound s × (s.opened ≡ true)

closed_bookmarks :
    (s : Session)
    → s.opened ≡ true
    → (transaction_closed_handler s).bookmarks ≡ updated s.transaction.bookmark s.bookmarks
unfolding transaction_closed_handler update_bookmark disconnect
closed_bookmarks s o = rw o refl

ok_inj :
    {X Y : Type 0} (x a : X) (s u : Y)
    → (let p : Result Raised X × Y = (ok x, s) in p) ≡ (ok a, u)
    → (x ≡ a) × (s ≡ u)
ok_inj x a s u h = ground arith

Ready-Broken : (s : Session) → Ready s → Broken s → ⊥
unfolding Ready
Ready-Broken s v w = ground (arith, v.0.unfailed, w.failed.1)

module _ {A : Type 0} where
  -- The last attempt, if a value is returned: it has committed, with the bookmark that the session then
  -- has, after a function that returned the value, in which no call failed with an error that the
  -- transaction notes.
  pub record Succeeded (t : Attempt A) (a : A) (u : Session) : Type 0 where
    pub taken : t.acquire ≡ none
    pub begun : t.begin ≡ none
    pub clean : Clean t.steps
    pub returned : t.outcome ≡ ok a
    pub commit_result :
        (b : Option Text) × (old : List Text) × (t.commit ≡ committed b)
        × (u.bookmarks ≡ updated b old)

  committing_ok :
      (c : Commit) (s u : Session) (a x : A)
      → Ready s
      → if_committed x (committing c s) ≡ (ok a, u)
      → (x ≡ a)
        × ((b : Option Text) × (old : List Text) × (c ≡ committed b)
            × (u.bookmarks ≡ updated b old))
  unfolding Ready committing close_flag
  committing_ok (results_fail (handled e)) s u a x v h = absurd (ground arith)
  committing_ok (results_fail (unhandled e)) s u a x v h = absurd (ground arith)
  committing_ok (commit_fails e) s u a x v h = absurd (ground arith)
  committing_ok (committed b) s u a x v h =
      let t = record s { transaction = record s.transaction { bookmark = b; closed = true } } in
      let (e, f) = ok_inj x a (transaction_closed_handler t) u h in
      (
        e,
        (b, s.bookmarks, refl, ap (λ (w : Session). w.bookmarks) (sym f) ∙ closed_bookmarks t v.1),
      )

  commit_ok :
      (c : Commit) (s u : Session) (a x : A)
      → (Ready s ⊎ Broken s)
      → if_committed x (commit c s) ≡ (ok a, u)
      → Ready s
        × (x ≡ a)
        × ((b : Option Text) × (old : List Text) × (c ≡ committed b)
            × (u.bookmarks ≡ updated b old))
  unfolding Ready commit
  commit_ok c s u a x (inl v) h =
      let e = if_active-Sound s (committing c s) v.0 in
      let (f, r) = committing_ok c s u a x v (ap (if_committed x) (sym e) ∙ h) in (v, f, r)
  commit_ok c s u a x (inr v) h =
      let (e, f) = v.failed in
      let failing =
        ap (λ c1. if_active c1 s.transaction.last_error s (committing c s)) v.unclosed
        ∙ ap (λ e. if_active false e s (committing c s)) f in
      absurd (ground (arith, ap (if_committed x) (sym failing) ∙ h))

  if_closed_err : (e : Raised) (r : Returned) (a : A) (u : Session) → if_closed e r ≡ (ok a, u) → ⊥
  if_closed_err e (err f, s) a u h = ground arith
  if_closed_err e (ok x, s) a u h = ground arith

  finish_ok :
      (t : Attempt A) (r : Result Raised A) (s u : Session) (a : A)
      → (Ready s ⊎ Broken s)
      → finish_work t r s ≡ (ok a, u)
      → Ready s
        × (r ≡ ok a)
        × ((b : Option Text) × (old : List Text) × (t.commit ≡ committed b)
            × (u.bookmarks ≡ updated b old))
  unfolding finish_work
  finish_ok t (err e) s u a v h = absurd (if_closed_err e (close t.rollback s) a u h)
  finish_ok t (ok x) s u a v h = let (w, f, r) = commit_ok t.commit s u a x v h in (w, ap ok f, r)

  pub if_opened_ok :
      (t : Attempt A) (acquire : Option Raised) (begin : Option CallFailure) (s u : Session) (a : A)
      → t.acquire ≡ acquire
      → t.begin ≡ begin
      → if_opened t (open_transaction acquire begin s) ≡ (ok a, u)
      → Succeeded t a u
  unfolding open_transaction connect Ready
  if_opened_ok t (some e) begin s u a p q h = absurd (ground arith)
  if_opened_ok t none (some (handled e)) s u a p q h = absurd (ground arith)
  if_opened_ok t none (some (unhandled e)) s u a p q h = absurd (ground arith)
  if_opened_ok t none none s u a p q h =
      let before = record (connect none s).1 { opened = true; transaction = new_transaction } in
      let v : Ready before = (record { unclosed = refl; unfailed = refl }, refl) in
      let done = work t.steps before in
      elim (work-Clean t.steps before v.0) [
        | inl (c, same) ↦
            let (w, f, r) = finish_ok t t.outcome done u a (inl (subst Ready (sym same) v)) h in
            record { taken = p; begun = q; clean = c; returned = f; commit_result = r }
        | inr b ↦
            let (w, f, r) = finish_ok t t.outcome done u a (inr b) h in
            absurd (Ready-Broken done w b)
      ]
