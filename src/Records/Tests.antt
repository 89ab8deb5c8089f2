-- ===== src/Records/Tests.antt =====
-- A record with two fields, of which one is broken.
use neo4j_python_driver.Base.{ℕ, [], ◌∷◌, none, some, ◌≡◌, refl, ok, err}
use neo4j_python_driver.Base.Int.{pos, negsuc}
use neo4j_python_driver.Records.{
  value, broken, named, at_index, broken_record_error, index_error, Record, find_key, new_record,
  single_item, index, get_item, get_slice, get_or, value_of, iterate_cells, values, values_of,
}

abbrev row : Record ℕ ℕ
row = record { keys = 1 ∷ 2 ∷ []; cells = value 10 ∷ broken 99 ∷ [] }

by_index : get_item row (at_index (pos 0)) ≡ ok (some 10)
unfolding get_item index single_item
by_index = refl

-- Unlike in a tuple, a number from the end names no field.
from_end : get_item row (at_index (negsuc 0)) ≡ ok none
unfolding get_item index
from_end = refl

broken_field : get_or row 2 none ≡ err (broken_record_error 1 99)
unfolding get_or find_key single_item
broken_field = refl

sliced : values (get_slice row 0 1) ≡ ok (10 ∷ [])
unfolding values get_slice new_record iterate_cells
sliced = refl

default_value : value_of row (named 7) (some 0) ≡ ok (some 0)
unfolding value_of index find_key
default_value = refl

-- A name that is missing is null, an index that is out of range is an error.
some_values : values_of row (at_index (pos 0) ∷ named 7 ∷ []) ≡ ok (some 10 ∷ none ∷ [])
unfolding values_of get_item index single_item find_key
some_values = refl

out_of_range : values_of row (at_index (pos 2) ∷ []) ≡ err index_error
unfolding values_of index
out_of_range = refl
