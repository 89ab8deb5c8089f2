-- ===== src/Packstream/Pack.antt =====
-- `Packer` and `PackableBuffer` (neo4j/_codec/packstream/v1/__init__.py).
use neo4j_python_driver.Base.{
  ℕ, zero, suc, ◌+◌, List, [], ◌∷◌, ◌++◌, Bool, true, false, not, ◌&&◌, Option, none, some, ltb,
  leb, ◌==◌, if◌then◌else◌, length, take,
}
use neo4j_python_driver.Base.Int.{ℤ, pos, negsuc, ltb_ℤ}
use neo4j_python_driver.Packstream.Value.{
  Value, null, bool, float, int, str, bytes, list, dict, structure, other, Items, nil, cons,
  Entries, empty, entry, size_items, size_entries, be, mod_ℤ,
}
use neo4j_python_driver.Packstream.Utf8.{encode}

-- The exceptions of the packer. `recursion_error` is raised when the nesting exceeds the fuel, which
-- stands for the interpreter's recursion limit.
pub data PackError : Type 0 where
  overflow_error type_error value_error unicode_error recursion_error : PackError

-- What a call has appended to the stream, and how it ended. The bytes stay also if it failed.
pub record Written : Type 0 where
  pub out : List ℕ
  pub failed : Option PackError

abbrev pub write : List ℕ → Written
write bs = record { out = bs; failed = none }

abbrev pub raise : PackError → Written
raise e = record { out = []; failed = some e }

infixl 5 ◌then_do◌
abbrev pub ◌then_do◌ : Written → Written → Written
a then_do b = elim a.failed [
  | none ↦ record { out = a.out ++ b.out; failed = b.failed }
  | some e ↦ a
]

unfoldable pub pack_bytes_header : ℕ → Written
pack_bytes_header size =
    if ltb size 0x100
    then write (0xcc ∷ be 1 size)
    else if ltb size 0x10000
    then write (0xcd ∷ be 2 size)
    else if ltb size 0x1_0000_0000
    then write (0xce ∷ be 4 size)
    else raise overflow_error

-- `0x80 | size` is a sum, since `size` has no bit of the marker.
unfoldable pub pack_string_header : ℕ → Written
pack_string_header size =
    if leb size 0x0f
    then write ((0x80 + size) ∷ [])
    else if ltb size 0x100
    then write (0xd0 ∷ be 1 size)
    else if ltb size 0x10000
    then write (0xd1 ∷ be 2 size)
    else if ltb size 0x1_0000_0000
    then write (0xd2 ∷ be 4 size)
    else raise overflow_error

unfoldable pub pack_list_header : ℕ → Written
pack_list_header size =
    if leb size 0x0f
    then write ((0x90 + size) ∷ [])
    else if ltb size 0x100
    then write (0xd4 ∷ be 1 size)
    else if ltb size 0x10000
    then write (0xd5 ∷ be 2 size)
    else if ltb size 0x1_0000_0000
    then write (0xd6 ∷ be 4 size)
    else raise overflow_error

unfoldable pub pack_map_header : ℕ → Written
pack_map_header size =
    if leb size 0x0f
    then write ((0xa0 + size) ∷ [])
    else if ltb size 0x100
    then write (0xd8 ∷ be 1 size)
    else if ltb size 0x10000
    then write (0xd9 ∷ be 2 size)
    else if ltb size 0x1_0000_0000
    then write (0xda ∷ be 4 size)
    else raise overflow_error

-- `lo <= v < hi`
abbrev pub in_range : ℤ → ℤ → ℤ → Bool
in_range lo hi v = not (ltb_ℤ v lo) && ltb_ℤ v hi

unfoldable pub pack_int : ℤ → Written
pack_int v =
    if in_range (negsuc 0xf) (pos 0x80) v
    then write (be 1 (mod_ℤ v 0x100))
    else if in_range (negsuc 0x7f) (negsuc 0xf) v
    then write (0xc8 ∷ be 1 (mod_ℤ v 0x100))
    else if in_range (negsuc 0x7fff) (pos 0x8000) v
    then write (0xc9 ∷ be 2 (mod_ℤ v 0x10000))
    else if in_range (negsuc 0x7fff_ffff) (pos 0x8000_0000) v
    then write (0xca ∷ be 4 (mod_ℤ v 0x1_0000_0000))
    else if in_range (negsuc 0x7fff_ffff_ffff_ffff) (pos 0x8000_0000_0000_0000) v
    then write (0xcb ∷ be 8 (mod_ℤ v 0x1_0000_0000_0000_0000))
    else raise overflow_error

unfoldable pub pack_str : List ℕ → Written
pack_str s = elim (encode s) [
  | none ↦ raise unicode_error
  | some encoded ↦ pack_string_header (length encoded) then_do write encoded
]

unfoldable pub pack_items : (Value → Written) → Items → Written
pack_items pack nil = write []
pack_items pack (cons v vs) = pack v then_do pack_items pack vs

unfoldable pub is_str : Value → Bool
is_str (str s) = true
is_str _ = false

unfoldable pub pack_entries : (Value → Written) → Entries → Written
pack_entries pack empty = write []
pack_entries pack (entry k v es) =
    (if is_str k then pack k then_do pack v else raise type_error) then_do pack_entries pack es

-- `_pack_struct`, given `_pack` under the hooks that `pack_struct` has injected.
unfoldable pub pack_struct_with : (Value → Written) → List ℕ → Items → Written
unfolding pack_items
pack_struct_with pack signature fields =
    if length signature == 1
    then (if leb (size_items fields) 0x0f
        then write ((0xb0 + size_items fields) ∷ [])
        else raise overflow_error)
      then_do write signature
      then_do pack_items pack fields
    else raise value_error

-- A transformer for each object that the packer has no branch for, if there is one.
abbrev pub Hooks : Type 0
Hooks = ℕ → Option Value

-- `tuple_items n` is the content of the object `n` if it is a tuple.
module _ (tuple_items : ℕ → Option Items) where
  -- `_inject_hooks`: the transformer of tuples takes precedence.
  unfoldable pub inject_hooks : Hooks → Hooks
  inject_hooks hooks n = elim (tuple_items n) [ some xs ↦ some (list xs) | none ↦ hooks n ]

  -- `_pack`. A structure is packed by `pack_struct` without the caller's hooks.
  unfoldable pub pack_value : Hooks → ℕ → Value → Written
  pack_value hooks zero v = raise recursion_error
  pack_value hooks (suc fuel) null = write (0xc0 ∷ [])
  pack_value hooks (suc fuel) (bool true) = write (0xc3 ∷ [])
  pack_value hooks (suc fuel) (bool false) = write (0xc2 ∷ [])
  pack_value hooks (suc fuel) (float bits) = write (0xc1 ∷ be 8 bits)
  pack_value hooks (suc fuel) (int v) = pack_int v
  pack_value hooks (suc fuel) (str s) = pack_str s
  pack_value hooks (suc fuel) (bytes bs) = pack_bytes_header (length bs) then_do write bs
  pack_value hooks (suc fuel) (list xs) =
      pack_list_header (size_items xs) then_do pack_items (pack_value hooks fuel) xs
  pack_value hooks (suc fuel) (dict es) =
      pack_map_header (size_entries es) then_do pack_entries (pack_value hooks fuel) es
  pack_value hooks (suc fuel) (structure tag fields) =
      pack_struct_with (pack_value (inject_hooks (λ n. none)) fuel) tag fields
  pack_value hooks (suc fuel) (other n) = elim (hooks n) [
    | none ↦ raise value_error
    | some v ↦ pack_value hooks fuel v
  ]

  -- `Packer.pack` and `Packer.pack_struct`.
  unfoldable pub pack : Hooks → ℕ → Value → Written
  pack hooks fuel v = pack_value (inject_hooks hooks) fuel v

  unfoldable pub pack_struct : Hooks → ℕ → List ℕ → Items → Written
  pack_struct hooks fuel signature fields =
      pack_struct_with (pack_value (inject_hooks hooks) fuel) signature fields

-- `PackableBuffer`.
pub record PackableBuffer : Type 0 where
  pub content : List ℕ
  pub tmp_buffering : ℕ

unfoldable pub is_tmp_buffering : PackableBuffer → Bool
is_tmp_buffering b = if b.tmp_buffering == 0 then false else true

-- `with buffer.tmp_buffer(): body`. The count is raised for the body and lowered after it.
unfoldable pub tmp_buffer : PackableBuffer → Written → PackableBuffer × Option PackError
tmp_buffer b body = (record b { content = kept }, body.failed)
  where
    written : List ℕ
    written = b.content ++ body.out

    kept : List ℕ
    kept = elim body.failed [ none ↦ written | some e ↦ take (length b.content) written ]
