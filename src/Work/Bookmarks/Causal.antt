-- ===== src/Work/Bookmarks/Causal.antt =====
-- That what a session begins with follows all that was committed before.
use neo4j_python_driver.Base.{
  ℕ, ◌≡◌, refl, ap, subst, ◌∙◌, true, false, ◌==◌, Bool-cases, List, [], ◌∷◌, ◌++◌, ◌⊎◌, inl, inr,
  arith,
}
use neo4j_python_driver.Work.Bookmarks.{
  contains, difference_update, manager_update, manager_get, Sessions, got, get_bookmarks,
  update_bookmark,
}

-- What sessions do: they begin with bookmarks supplied from outside, and end with a new bookmark.
pub data Turn : Type 0 where
  begins : List ℕ → ℕ → Turn
  ends : ℕ → ℕ → Turn

-- A bookmark with those that its transaction had begun with.
pub record Marked : Type 0 where
  pub bookmark : ℕ
  pub previous : List ℕ

unfoldable pub Logged : Marked → List Marked → Type 0
Logged c [] = ⊥
Logged c (d ∷ log) = (d ≡ c) ⊎ Logged c log

-- A bookmark stands for itself and for what its transaction has seen.
pub data Covers (log : List Marked) : ℕ → ℕ → Type 0 where
  same : {b : ℕ} → Covers log b b
  seen :
      {a : ℕ}
      → (c : Marked) (d : ℕ) → Logged c log
      → contains d c.previous ≡ true
      → Covers log d a
      → Covers log c.bookmark a

pub record History : Type 0 where
  pub sessions : Sessions
  pub log : List Marked

unfoldable pub happen : Turn → History → History
happen (begins supplied i) h = record h { sessions = (get_bookmarks supplied i h.sessions).0 }
happen (ends i b) h = record {
  sessions = update_bookmark i b h.sessions;
  log =
      record { bookmark = b; previous = (h.sessions.session i).last_from_bookmark_manager } ∷ h.log;
}

unfoldable pub history : List Turn → History → History
history [] h = h
history (e ∷ es) h = history es (happen e h)

-- All that was committed is covered by some of these bookmarks.
abbrev pub Covered : List Marked → List ℕ → Type 0
Covered log bs =
    (c : Marked) → Logged c log → (d : ℕ) × (contains d bs ≡ true) × Covers log d c.bookmark

contains-append_left :
    (d : ℕ) (bs cs : List ℕ) → contains d bs ≡ true → contains d (bs ++ cs) ≡ true
contains-append_left d [] cs h = absurd (ground arith)
contains-append_left d (b ∷ bs) cs h = elim (Bool-cases (b == d)) [
  | inl e ↦ rw e refl
  | inr e ↦ rw e (contains-append_left d bs cs (rw e at h))
]

Covers-more : (log : List Marked) (x : Marked) (d a : ℕ) → Covers log d a → Covers (x ∷ log) d a
unfolding Logged
Covers-more log x d a same = same
Covers-more log x _ a (seen c e l k r) = seen c e (inr l) k (Covers-more log x e a r)

contains-append_right :
    (d : ℕ) (bs cs : List ℕ) → contains d cs ≡ true → contains d (bs ++ cs) ≡ true
contains-append_right d [] cs h = h
contains-append_right d (b ∷ bs) cs h = ground (arith, contains-append_right d bs cs h)

contains_self : (b : ℕ) → contains b (b ∷ []) ≡ true
contains_self b = ground arith

contains-difference_update :
    (d : ℕ) (bs out : List ℕ)
    → contains d bs ≡ true
    → contains d out ≡ false
    → contains d (difference_update bs out) ≡ true
contains-difference_update d [] out h k = absurd (ground arith)
contains-difference_update d (b ∷ bs) out h k = elim (Bool-cases (b == d)) [
  | inl e ↦
      let same : b ≡ d = ground arith in
      let kept : contains b out ≡ false = ap (λ x. contains x out) same ∙ k in rw (kept, e) refl
  | inr e ↦
      let more = contains-difference_update d bs out (rw e at h) k in
      elim (Bool-cases (contains b out)) [ inl x ↦ rw x more | inr x ↦ rw (x, e) more ]
]

ends-Covered :
    (log : List Marked) (bs previous : List ℕ) (b : ℕ)
    → Covered log bs
    → Covered
        (record { bookmark = b; previous = previous } ∷ log)
        (manager_update previous (b ∷ []) (record { bookmarks = bs })).bookmarks
unfolding manager_update Logged
ends-Covered log bs previous b v c (inl e) = (
  b,
  contains-append_right b (difference_update bs previous) (b ∷ []) (contains_self b),
  subst (λ (x : Marked). Covers (record { bookmark = b; previous = previous } ∷ log) b x.bookmark) e
      same,
)
ends-Covered log bs previous b v c (inr l) =
    let (d, k, r) = v c l in
    let new : Marked = record { bookmark = b; previous = previous } in
    elim (Bool-cases (contains d previous)) [
      | inl p ↦ (
        b,
        contains-append_right b (difference_update bs previous) (b ∷ []) (contains_self b),
        seen new d (inl refl) p (Covers-more log new d c.bookmark r),
      )
      | inr p ↦ (
        d,
        contains-append_left d (difference_update bs previous) (b ∷ [])
            (contains-difference_update d bs previous k p),
        Covers-more log new d c.bookmark r,
      )
    ]

happen-Covered :
    (e : Turn) (h : History)
    → Covered h.log h.sessions.manager.bookmarks
    → Covered (happen e h).log (happen e h).sessions.manager.bookmarks
unfolding happen get_bookmarks update_bookmark
happen-Covered (begins supplied i) h v = v
happen-Covered (ends i b) h v =
    ends-Covered h.log h.sessions.manager.bookmarks
      (h.sessions.session i).last_from_bookmark_manager b v

nothing : (s : Sessions) → Covered [] s.manager.bookmarks
unfolding Logged
nothing s c l = absurd l

history-Covered :
    (es : List Turn) (h : History)
    → Covered h.log h.sessions.manager.bookmarks
    → Covered (history es h).log (history es h).sessions.manager.bookmarks
unfolding history
history-Covered [] h v = v
history-Covered (e ∷ es) h v = history-Covered es (happen e h) (happen-Covered e h v)

-- All that has happened since sessions began to share a manager.
abbrev pub since : Sessions → List Turn → History
since s es = history es (record { sessions = s; log = [] })

-- However sessions that share a manager begin and end, one by one or at the same time: the bookmarks that
-- a session then begins with cover each bookmark with which a session has ended, that is, contain
-- it, or a bookmark of a transaction that has begun with bookmarks that cover it.
pub get_bookmarks-Covers :
    (s : Sessions) (es : List Turn) (supplied : List ℕ) (i : ℕ) (c : Marked)
    → Logged c (since s es).log
    → (d : ℕ) × (contains d (get_bookmarks supplied i (since s es).sessions).1 ≡ true)
      × Covers (since s es).log d c.bookmark
unfolding get_bookmarks got manager_get
get_bookmarks-Covers s es supplied i c l =
    let (d, k, r) = history-Covered es (record { sessions = s; log = [] }) (nothing s) c l in
    let m = (since s es).sessions.manager.bookmarks in
    (d, contains-append_left d (m ++ supplied) _ (contains-append_left d m supplied k), r)
