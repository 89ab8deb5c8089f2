-- ===== src/Work/Results/Reading.antt =====
-- What a result has still to give, and that reading gives it in order.
use neo4j_python_driver.Base.{
  ◌≡◌, refl, true, false, ◌||◌, ◌&&◌, not, if◌then◌else◌, Option, none, some, List, [], ◌∷◌, ◌++◌,
  drop, ok, ◌⊎◌, inl, inr,
}
use neo4j_python_driver.Work.Results.{
  Text, Message, row, success, failure, ignored, QueryResult, Outcome,
}

module _ {A : Type 0} where
  pub List-cases : (xs : List A) → (xs ≡ []) ⊎ ((x : A) × (rest : List A) × (xs ≡ x ∷ rest))
  List-cases [] = inl refl
  List-cases (x ∷ rest) = inr (x, rest, refl)

module _ {A E : Type 0} where
  -- The records that the server sends up to its last summary.
  unfoldable pub rows_of : List (Message A E) → List A
  rows_of [] = []
  rows_of (row r ∷ ms) = r ∷ rows_of ms
  rows_of (success true b ∷ ms) = rows_of ms
  rows_of (success false b ∷ ms) = []
  rows_of (failure e ∷ ms) = []
  rows_of (ignored ∷ ms) = []

  -- The answers end with a SUCCESS that has no more records, but a bookmark.
  unfoldable pub Finishes : Option Text → List (Message A E) → Type 0
  Finishes b [] = ⊥
  Finishes b (row r ∷ ms) = Finishes b ms
  Finishes b (success true c ∷ ms) = Finishes b ms
  Finishes b (success false c ∷ ms) = c ≡ b
  Finishes b (failure e ∷ ms) = ⊥
  Finishes b (ignored ∷ ms) = ⊥

  unfoldable pub to_come : QueryResult A E → List A
  to_come s = if s.attached && not s.discarding then rows_of s.incoming else []

  -- The records that a result has still to give.
  unfoldable pub left : QueryResult A E → List A
  left s = s.buffer ++ to_come s

  -- Where the rest of the records comes from.
  unfoldable pub Source : Option Text → QueryResult A E → Type 0
  Source b s =
      ((s.attached ≡ true)
        × ((s.streaming || s.discarding || s.has_more) ≡ true)
        × (s.awaited ≡ s.streaming)
        × Finishes b s.incoming)
      ⊎ ((s.attached ≡ false) × (s.bookmark ≡ b))

  -- A result that can be read to its end, at which it gets the bookmark.
  pub record Reading (b : Option Text) (s : QueryResult A E) : Type 0 where
    pub no_exception : s.exception ≡ none
    pub in_scope : s.out_of_scope ≡ false
    pub not_consumed : s.consumed ≡ false
    pub source : Source b s
    pub drained : s.exhausted ≡ true → (s.attached ≡ false) × (s.buffer ≡ [])

  -- What a step returns when these records are left, given the buffer before it.
  abbrev pub Given : Option Text → List A → Outcome A E (Option A) → List A → Type 0
  Given b before o [] =
      (t : QueryResult A E) × (o ≡ some (ok none, t))
      × Reading b t
      × (t.attached ≡ false)
      × (t.buffer ≡ [])
      × (t.exhausted ≡ true)
  Given b before o (r ∷ rest) =
      (t : QueryResult A E) × (o ≡ some (ok (some r), t))
      × Reading b t
      × (left t ≡ rest)
      × (t.buffer ≡ drop 1 before)
