-- ===== src/Routing/Elements.antt =====
-- `OrderedSet` (neo4j/_routing.py): the keys of a dict, in the order in which they were added.
use neo4j_python_driver.Base.{
  ℕ, List, [], ◌∷◌, ◌++◌, Bool, true, false, Option, none, some, ◌==◌, if◌then◌else◌, ◌≡◌, refl,
  arith,
}

unfoldable pub contains : ℕ → List ℕ → Bool
contains e [] = false
contains e (x ∷ xs) = if x == e then true else contains e xs

-- `add`: a key that is present keeps its place.
unfoldable pub add : List ℕ → ℕ → List ℕ
add xs e = if contains e xs then xs else xs ++ (e ∷ [])

-- `update`, which adds each element of `dict.fromkeys(elements)`.
unfoldable pub add_each : List ℕ → List ℕ → List ℕ
add_each xs [] = xs
add_each xs (e ∷ es) = add_each (add xs e) es

-- `OrderedSet(elements)`, and what `replace` leaves.
unfoldable pub ordered_set : List ℕ → List ℕ
ordered_set es = add_each [] es

-- `discard`. A key stands at most once in a dict.
unfoldable pub discard : ℕ → List ℕ → List ℕ
discard e [] = []
discard e (x ∷ xs) = let rest = discard e xs in if x == e then rest else x ∷ rest

-- `remove`, and `none` for the `ValueError` on an element that is absent.
unfoldable pub remove_element : ℕ → List ℕ → Option (List ℕ)
remove_element e xs = if contains e xs then some (discard e xs) else none

abbrev pub is_empty : List ℕ → Bool
is_empty [] = true
is_empty (x ∷ xs) = false

pub contains-discard : (e : ℕ) (xs : List ℕ) → contains e (discard e xs) ≡ false
unfolding contains discard
contains-discard e [] = refl
contains-discard e (x ∷ xs) = grind (arith, contains-discard e xs)

-- The other elements stay.
pub contains-discard_other :
    (d e : ℕ) (xs : List ℕ) → (d == e) ≡ false → contains d (discard e xs) ≡ contains d xs
unfolding contains discard
contains-discard_other d e [] h = refl
contains-discard_other d e (x ∷ xs) h = grind (arith, contains-discard_other d e xs h)
