-- ===== src/Packstream/Keys.antt =====
-- What a Python dict does with its keys: `hash`, `==` and `d[k] = v`.
use neo4j_python_driver.Base.{
  ℕ, ◌+◌, ◌*◌, ◌/◌, ◌%◌, ◌^◌, List, [], ◌∷◌, Bool, true, false, not, ◌&&◌, ◌||◌, Option, none, some,
  ◌==◌, if◌then◌else◌,
}
use neo4j_python_driver.Base.Int.{ℤ, pos, pos_part, neg_part}
use neo4j_python_driver.Packstream.Value.{
  Value, null, bool, float, int, str, bytes, list, dict, structure, other, Entries, empty, entry,
}

-- Lists, dicts and `Structure`s cannot be keys.
unfoldable pub hashable : Value → Bool
hashable (list xs) = false
hashable (dict es) = false
hashable (structure tag fields) = false
hashable _ = true

unfoldable pub eq_codes : List ℕ → List ℕ → Bool
eq_codes [] [] = true
eq_codes [] (b ∷ bs) = false
eq_codes (a ∷ as') [] = false
eq_codes (a ∷ as') (b ∷ bs) = a == b && eq_codes as' bs

eq_ints : ℤ → ℤ → Bool
eq_ints a b = pos_part a == pos_part b && neg_part a == neg_part b

is_nan : ℕ → Bool
is_nan bits = bits / 2 ^ 52 % 2048 == 2047 && not (bits % 2 ^ 52 == 0)

eq_floats : ℕ → ℕ → Bool
unfolding is_nan
eq_floats a b = not (is_nan a) && not (is_nan b) && (a == b || (a % 2 ^ 63 == 0 && b % 2 ^ 63 == 0))

-- The float is `mantissa * 2 ^ exponent / 2 ^ 1075`, with its sign.
eq_float_int : ℕ → ℤ → Bool
eq_float_int bits v =
    let exponent = bits / 2 ^ 52 % 2048 in
    let mantissa = if exponent == 0 then bits % 2 ^ 52 * 2 else bits % 2 ^ 52 + 2 ^ 52 in
    let scaled = mantissa * 2 ^ exponent in
    let negative = bits / 2 ^ 63 == 1 in
    not (exponent == 2047)
    && (if negative
        then (pos_part v == 0 && scaled == neg_part v * 2 ^ 1075)
        else (neg_part v == 0 && scaled == pos_part v * 2 ^ 1075))

-- `True == 1` and `False == 0`.
as_int : Value → Option ℤ
as_int (int v) = some v
as_int (bool true) = some (pos 1)
as_int (bool false) = some (pos 0)
as_int _ = none

eq_numbers : Value → Value → Bool
unfolding as_int eq_ints
eq_numbers a b = elim (as_int a) [
  | none ↦ false
  | some v ↦ elim (as_int b) [ none ↦ false | some w ↦ eq_ints v w ]
]

eq_float_number : ℕ → Value → Bool
unfolding as_int eq_float_int
eq_float_number bits v = elim (as_int v) [ none ↦ false | some w ↦ eq_float_int bits w ]

-- `==` on hashable values.
unfoldable pub eq_key : Value → Value → Bool
unfolding eq_numbers eq_floats eq_float_number eq_codes
eq_key (str a) (str b) = eq_codes a b
eq_key (str a) w = false
eq_key null null = true
eq_key null w = false
eq_key (bytes a) (bytes b) = eq_codes a b
eq_key (bytes a) w = false
eq_key (other a) (other b) = a == b
eq_key (other a) w = false
eq_key (float a) (float b) = eq_floats a b
eq_key (float a) w = eq_float_number a w
eq_key v (float b) = eq_float_number b v
eq_key v w = eq_numbers v w

unfoldable pub has_key : Value → Entries → Bool
has_key k empty = false
has_key k (entry j w es) = eq_key j k || has_key k es

unfoldable pub snoc : Entries → Value → Value → Entries
snoc empty k v = entry k v empty
snoc (entry j w es) k v = entry j w (snoc es k v)

-- `d[k] = v`: an old key keeps its place.
unfoldable pub dict_set : Entries → Value → Value → Entries
dict_set empty k v = entry k v empty
dict_set (entry j w es) k v = if eq_key j k then entry j v es else entry j w (dict_set es k v)
