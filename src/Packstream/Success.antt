-- ===== src/Packstream/Success.antt =====
-- When packing succeeds: every value within the limits of the format is packed.
use neo4j_python_driver.Base.{
  ℕ, zero, suc, ◌^◌, ◌≤◌, ◌<◌, ◌≡◌, refl, List, true, false, Option, none, some, length, max, arith,
}
use neo4j_python_driver.Base.Int.{ℤ, pos, negsuc}
use neo4j_python_driver.Packstream.Value.{
  Value, null, bool, float, int, str, bytes, list, dict, structure, other, Items, nil, cons,
  Entries, empty, entry, size_items, size_entries, IsSigned,
}
use neo4j_python_driver.Packstream.Utf8.{encode}
use neo4j_python_driver.Packstream.Pack.{
  Written, ◌then_do◌, write, Hooks, inject_hooks, pack_int, pack_str, pack_items, pack_entries,
  is_str, pack_struct_with, pack_value, pack_bytes_header, pack_string_header, pack_list_header,
  pack_map_header,
}

-- The limits: integers of 64 bits, sizes of 32 bits (of encoded texts too), keys that are strings,
-- structures of at most 15 fields with a tag of one byte, and nothing that needs a hook.
unfoldable mutual
  pub Fits : Value → Type 0
  Fits (int v) = IsSigned (2 ^ 64) v
  Fits (str s) = (bs : List ℕ) × (encode s ≡ some bs) × (length bs < 2 ^ 32)
  Fits (bytes bs) = length bs < 2 ^ 32
  Fits (list xs) = (size_items xs < 2 ^ 32) × FitsItems xs
  Fits (dict es) = (size_entries es < 2 ^ 32) × FitsEntries es
  Fits (structure tag fields) = (length tag ≡ 1) × (size_items fields < 16) × FitsItems fields
  Fits (other n) = ⊥
  Fits v = Unit {0}

  pub FitsItems : Items → Type 0
  FitsItems nil = Unit {0}
  FitsItems (cons v vs) = Fits v × FitsItems vs

  pub FitsEntries : Entries → Type 0
  FitsEntries empty = Unit {0}
  FitsEntries (entry k v es) = (is_str k ≡ true) × Fits k × Fits v × FitsEntries es

-- How deep the calls of `_pack` nest.
unfoldable mutual
  pub depth : Value → ℕ
  depth (list xs) = suc (depth_items xs)
  depth (dict es) = suc (depth_entries es)
  depth (structure tag fields) = suc (depth_items fields)
  depth v = 1

  pub depth_items : Items → ℕ
  depth_items nil = 0
  depth_items (cons v vs) = max (depth v) (depth_items vs)

  pub depth_entries : Entries → ℕ
  depth_entries empty = 0
  depth_entries (entry k v es) = max (max (depth k) (depth v)) (depth_entries es)

then_do-ok : (a b : Written) → a.failed ≡ none → b.failed ≡ none → (a then_do b).failed ≡ none
then_do-ok a b h k = ground arith

pack_int-ok : (v : ℤ) → IsSigned (2 ^ 64) v → (pack_int v).failed ≡ none
unfolding pack_int
pack_int-ok (pos n) h = ground arith
pack_int-ok (negsuc n) h = ground arith

string_header-ok : (n : ℕ) → n < 2 ^ 32 → (pack_string_header n).failed ≡ none
unfolding pack_string_header
string_header-ok n h = ground arith

pack_str-ok : (s bs : List ℕ) → encode s ≡ some bs → length bs < 2 ^ 32 → (pack_str s).failed ≡ none
unfolding pack_str
pack_str-ok s bs e h = ground (arith, string_header-ok (length bs))

bytes_header-ok : (n : ℕ) → n < 2 ^ 32 → (pack_bytes_header n).failed ≡ none
unfolding pack_bytes_header
bytes_header-ok n h = ground arith

list_header-ok : (n : ℕ) → n < 2 ^ 32 → (pack_list_header n).failed ≡ none
unfolding pack_list_header
list_header-ok n h = ground arith

map_header-ok : (n : ℕ) → n < 2 ^ 32 → (pack_map_header n).failed ≡ none
unfolding pack_map_header
map_header-ok n h = ground arith

-- The packer `pack` manages the values up to a depth.
abbrev Manages : (Value → Written) → ℕ → Type 0
Manages pack fuel = (v : Value) → Fits v → depth v ≤ fuel → (pack v).failed ≡ none

pack_items-ok :
    (pack : Value → Written) (fuel : ℕ)
    → Manages pack fuel
    → (xs : Items) → FitsItems xs
    → depth_items xs ≤ fuel
    → (pack_items pack xs).failed ≡ none
unfolding pack_items Fits FitsItems FitsEntries depth depth_items depth_entries
pack_items-ok pack fuel each nil fits deep = refl
pack_items-ok pack fuel each (cons v vs) (f, fs) deep =
    then_do-ok (pack v) (pack_items pack vs) (each v f (omega arith))
      (pack_items-ok pack fuel each vs fs (omega arith))

pack_entries-ok :
    (pack : Value → Written) (fuel : ℕ)
    → Manages pack fuel
    → (es : Entries) → FitsEntries es
    → depth_entries es ≤ fuel
    → (pack_entries pack es).failed ≡ none
unfolding pack_entries Fits FitsItems FitsEntries depth depth_items depth_entries
pack_entries-ok pack fuel each empty fits deep = refl
pack_entries-ok pack fuel each (entry k v es) (s, fk, fv, fs) deep = ground (
  arith,
  each k fk (omega arith),
  each v fv (omega arith),
  pack_entries-ok pack fuel each es fs (omega arith),
)

struct-ok :
    (pack : Value → Written) (tag : List ℕ) (fields : Items)
    → length tag ≡ 1
    → size_items fields < 16
    → (pack_items pack fields).failed ≡ none
    → (pack_struct_with pack tag fields).failed ≡ none
unfolding pack_struct_with
struct-ok pack tag fields one small h = ground arith

module _ (tuple_items : ℕ → Option Items) where
  -- A value within the limits is packed, given a recursion limit above the depth of its nesting.
  pub pack_value-succeeds :
      (hooks : Hooks) (fuel : ℕ) (v : Value)
      → Fits v
      → depth v ≤ fuel
      → (pack_value tuple_items hooks fuel v).failed ≡ none
  unfolding pack_value Fits FitsItems FitsEntries depth depth_items depth_entries
  pack_value-succeeds hooks zero null fits deep = absurd (omega arith)
  pack_value-succeeds hooks zero v fits deep = absurd (omega arith)
  pack_value-succeeds hooks (suc fuel) null fits deep = refl
  pack_value-succeeds hooks (suc fuel) (bool true) fits deep = refl
  pack_value-succeeds hooks (suc fuel) (bool false) fits deep = refl
  pack_value-succeeds hooks (suc fuel) (float bits) fits deep = refl
  pack_value-succeeds hooks (suc fuel) (int v) fits deep = pack_int-ok v fits
  pack_value-succeeds hooks (suc fuel) (str s) (bs, e, h) deep = pack_str-ok s bs e h
  pack_value-succeeds hooks (suc fuel) (bytes bs) fits deep =
      then_do-ok (pack_bytes_header (length bs)) (write bs) (bytes_header-ok (length bs) fits) refl
  pack_value-succeeds hooks (suc fuel) (list xs) (size, fits) deep =
      then_do-ok (pack_list_header (size_items xs)) _ (list_header-ok (size_items xs) size) (
        pack_items-ok (pack_value tuple_items hooks fuel) fuel (pack_value-succeeds hooks fuel) xs
          fits (omega arith))
  pack_value-succeeds hooks (suc fuel) (dict es) (size, fits) deep =
      then_do-ok (pack_map_header (size_entries es)) _ (map_header-ok (size_entries es) size) (
        pack_entries-ok (pack_value tuple_items hooks fuel) fuel (pack_value-succeeds hooks fuel) es
          fits (omega arith))
  pack_value-succeeds hooks (suc fuel) (structure tag fields) (one, small, fits) deep =
      let inner = inject_hooks tuple_items (λ n. none) in
      struct-ok (pack_value tuple_items inner fuel) tag fields one small (
        pack_items-ok (pack_value tuple_items inner fuel) fuel (pack_value-succeeds inner fuel)
          fields fits (omega arith))
  pack_value-succeeds hooks (suc fuel) (other n) fits deep = absurd fits
