-- ===== src/Records.antt =====
-- `Record` (neo4j/_data.py): an immutable row with names. A name is known by a number, `V` is the type of
-- values, and `E` the type of the exceptions with which a value failed to be hydrated.
pub mod Items
mod Tests
use neo4j_python_driver.Base.{
  ℕ, zero, suc, List, [], ◌∷◌, Option, none, some, ltb, ◌==◌, if◌then◌else◌, length, get_elem?,
  take, drop, Result, ok, err,
}
use neo4j_python_driver.Base.Int.{ℤ, pos, negsuc}

-- A value, or a `BrokenHydrationObject`.
pub data Cell (V E : Type 0) : Type 0 where
  value : V → Cell V E
  broken : E → Cell V E

-- `_K`: an index or a name.
pub data Key : Type 0 where
  at_index : ℤ → Key
  named : ℕ → Key

-- `BrokenRecordError` has the index and the exception.
pub data RecordError (E : Type 0) : Type 0 where
  index_error key_error : RecordError E
  broken_record_error : ℕ → E → RecordError E

pub record Record (V E : Type 0) : Type 0 where
  pub keys : List ℕ
  pub cells : List (Cell V E)

-- `tuple.index`, and `none` for its `ValueError`.
unfoldable pub find_key : ℕ → List ℕ → Option ℕ
find_key k [] = none
find_key k (j ∷ js) =
    let rest = find_key k js in
    if j == k then some 0 else elim rest [ none ↦ none | some i ↦ some (suc i) ]

abbrev pub or_key_error : {E : Type 0} → Option ℕ → Result (RecordError E) ℕ
or_key_error none = err key_error
or_key_error (some i) = ok i

abbrev pub zip : {A B : Type 0} → List A → List B → List (A × B)
zip [] ys = []
zip (x ∷ xs) [] = []
zip (x ∷ xs) (y ∷ ys) = (x, y) ∷ zip xs ys

-- `list.append`, unless something is raised.
abbrev pub and_value :
    {E A : Type 0} → A → Result (RecordError E) (List A) → Result (RecordError E) (List A)
and_value v (err e) = err e
and_value v (ok vs) = ok (v ∷ vs)

abbrev pub then_value :
    {E A : Type 0}
    → Result (RecordError E) A
    → Result (RecordError E) (List A)
    → Result (RecordError E) (List A)
then_value (err e) rest = err e
then_value (ok v) rest = and_value v rest

module _ {V E : Type 0} where
  -- `Record(iterable)` of pairs.
  unfoldable pub new_record : List (ℕ × Cell V E) → Record V E
  new_record [] = record { keys = []; cells = [] }
  new_record ((k, c) ∷ ps) =
      let r = new_record ps in record { keys = k ∷ r.keys; cells = c ∷ r.cells }

  -- `_super_getitem_single`
  abbrev pub checked_cell : ℕ → Option (Cell V E) → Result (RecordError E) V
  checked_cell i none = err index_error
  checked_cell i (some (broken e)) = err (broken_record_error i e)
  checked_cell i (some (value v)) = ok v

  unfoldable pub single_item : Record V E → ℕ → Result (RecordError E) V
  single_item r i = checked_cell i (get_elem? r.cells i)

  -- `index`
  unfoldable pub index : Record V E → Key → Result (RecordError E) ℕ
  index r (at_index (pos n)) = if ltb n (length r.keys) then ok n else err index_error
  index r (at_index (negsuc n)) = err index_error
  index r (named k) = or_key_error (find_key k r.keys)

  abbrev pub some_of : Result (RecordError E) V → Result (RecordError E) (Option V)
  some_of (err e) = err e
  some_of (ok v) = ok (some v)

  -- `record[key]`: an index that is out of range gives `None`, a name that is missing a `KeyError`.
  abbrev pub item_at : Record V E → Result (RecordError E) ℕ → Result (RecordError E) (Option V)
  item_at r (ok i) = some_of (single_item r i)
  item_at r (err index_error) = ok none
  item_at r (err key_error) = err key_error
  item_at r (err (broken_record_error i e)) = err (broken_record_error i e)

  unfoldable pub get_item : Record V E → Key → Result (RecordError E) (Option V)
  get_item r key = item_at r (index r key)

  -- `record[start:stop]` of two numbers from 0 on.
  unfoldable pub get_slice : Record V E → ℕ → ℕ → Record V E
  get_slice r start stop =
      new_record (zip (drop start (take stop r.keys)) (drop start (take stop r.cells)))

  -- `get` of a name: without it, or its value, there is the default.
  abbrev pub get_at : Record V E → Option V → Option ℕ → Result (RecordError E) (Option V)
  get_at r default none = ok default
  get_at r default (some i) =
      if ltb i (length r.cells) then some_of (single_item r i) else ok default

  unfoldable pub get_or : Record V E → ℕ → Option V → Result (RecordError E) (Option V)
  get_or r k default = get_at r default (find_key k r.keys)

  -- `value`
  abbrev pub value_at :
      Record V E → Option V → Result (RecordError E) ℕ → Result (RecordError E) (Option V)
  value_at r default (err e) = ok default
  value_at r default (ok i) = get_item r (at_index (pos i))

  unfoldable pub value_of : Record V E → Key → Option V → Result (RecordError E) (Option V)
  value_of r key default = value_at r default (index r key)

  -- `values` of all fields, which is also the iteration, and of some keys.
  unfoldable pub iterate_cells : ℕ → List (Cell V E) → Result (RecordError E) (List V)
  iterate_cells i [] = ok []
  iterate_cells i (value v ∷ cs) = and_value v (iterate_cells (suc i) cs)
  iterate_cells i (broken e ∷ cs) = err (broken_record_error i e)

  unfoldable pub values : Record V E → Result (RecordError E) (List V)
  values r = iterate_cells 0 r.cells

  abbrev pub or_missing : Record V E → Result (RecordError E) ℕ → Result (RecordError E) (Option V)
  or_missing r (ok i) = get_item r (at_index (pos i))
  or_missing r (err index_error) = err index_error
  or_missing r (err key_error) = ok none
  or_missing r (err (broken_record_error i e)) = err (broken_record_error i e)

  unfoldable pub values_of : Record V E → List Key → Result (RecordError E) (List (Option V))
  values_of r [] = ok []
  values_of r (k ∷ ks) = then_value (or_missing r (index r k)) (values_of r ks)

  -- `items` of all fields, from a field on.
  abbrev pub pair_with : Option ℕ → Result (RecordError E) V → Result (RecordError E) (ℕ × V)
  pair_with none v = err index_error
  pair_with (some k) (err e) = err e
  pair_with (some k) (ok v) = ok (k, v)

  unfoldable pub items_from : Record V E → ℕ → ℕ → Result (RecordError E) (List (ℕ × V))
  items_from r i zero = ok []
  items_from r i (suc n) =
      then_value (pair_with (get_elem? r.keys i) (single_item r i)) (items_from r (suc i) n)

  unfoldable pub items : Record V E → Result (RecordError E) (List (ℕ × V))
  items r = items_from r 0 (length r.cells)
