-- ===== src/Records/Items.antt =====
-- A record gives back what it was made of.
use neo4j_python_driver.Base.{
  ℕ, zero, suc, List, [], ◌∷◌, ◌++◌, ◌+◌, Option, Option-cases, some, ◌≡◌, refl, ap, ◌∙◌, length,
  get_elem?, map, ◌==◌, if◌then◌else◌, ok, err, Result, Bool-cases, inl, inr, false, arith,
}
use neo4j_python_driver.Records.{
  Cell, value, broken, named, RecordError, broken_record_error, key_error, Record, find_key,
  and_value, new_record, checked_cell, single_item, index, get_item, iterate_cells, items_from,
  items,
}

module _ {V E : Type 0} where
  abbrev with_value : ℕ × V → ℕ × Cell V E
  with_value (k, v) = (k, value v)

  made : List (ℕ × V) → Record V E
  made ps = new_record (map with_value ps)

  checked_cell_any :
      (a b i : ℕ) (ps : List (ℕ × V))
      → checked_cell a (get_elem? (made ps).cells i) ≡ checked_cell b (get_elem? (made ps).cells i)
  unfolding made new_record
  checked_cell_any a b i [] = refl
  checked_cell_any a b zero ((k, v) ∷ ps) = refl
  checked_cell_any a b (suc i) ((k, v) ∷ ps) = checked_cell_any a b i ps

  items_from_tail :
      (k : ℕ) (v : V) (ps : List (ℕ × V)) (i n : ℕ)
      → items_from (made ((k, v) ∷ ps)) (suc i) n ≡ items_from (made ps) i n
  unfolding items_from single_item made new_record
  items_from_tail k v ps i zero = refl
  items_from_tail k v ps i (suc n) =
      rw (items_from_tail k v ps (suc i) n, checked_cell_any (suc i) i i ps) refl

  -- The fields of a record without broken values are the pairs of which it was made.
  items-new_record : (ps : List (ℕ × V)) → items (made ps) ≡ ok ps
  unfolding items made new_record items_from single_item
  items-new_record [] = refl
  items-new_record ((k, v) ∷ ps) =
      ap (and_value (k, v))
        (items_from_tail k v ps 0 (length (made ps).cells) ∙ items-new_record ps)

  -- The first field with a name, if there is one.
  first_named : ℕ → List (ℕ × V) → Result (RecordError E) (Option V)
  first_named k [] = err key_error
  first_named k ((j, v) ∷ ps) = if j == k then ok (some v) else first_named k ps

  named_tail :
      (j k : ℕ) (v : V) (ps : List (ℕ × V))
      → (j == k) ≡ false
      → get_item (made ((j, v) ∷ ps)) (named k) ≡ get_item (made ps) (named k)
  unfolding get_item index single_item made new_record find_key
  named_tail j k v ps h = elim (Option-cases (find_key k (made ps).keys)) [
    | inl absent ↦ rw (h, absent) refl
    | inr (i, found) ↦ rw (h, found, checked_cell_any (suc i) i i ps) refl
  ]

  -- A name gives the value of the first field of that name, or a `KeyError`.
  get_item-new_record :
      (k : ℕ) (ps : List (ℕ × V)) → get_item (made ps) (named k) ≡ first_named k ps
  unfolding first_named
  get_item-new_record k [] = unfold get_item index made new_record find_key in refl
  get_item-new_record k ((j, v) ∷ ps) = elim (Bool-cases (j == k)) [
    | inl here ↦
        rw here (unfold get_item index single_item made new_record find_key in rw here refl)
    | inr there ↦ rw there (named_tail j k v ps there ∙ get_item-new_record k ps)
  ]

  -- The iteration ends at the first broken value.
  iterate_cells-broken :
      (i : ℕ) (vs : List V) (e : E) (cs : List (Cell V E))
      → iterate_cells i (map value vs ++ (broken e ∷ cs))
        ≡ err (broken_record_error (i + length vs) e)
  unfolding iterate_cells
  iterate_cells-broken i [] e cs = ap (λ n. err (broken_record_error n e)) (omega arith)
  iterate_cells-broken i (v ∷ vs) e cs =
      ap (and_value v) (iterate_cells-broken (suc i) vs e cs)
      ∙ ap (λ n. err (broken_record_error n e)) (omega arith)
