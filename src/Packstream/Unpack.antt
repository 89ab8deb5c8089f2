-- ===== src/Packstream/Unpack.antt =====
-- `Unpacker` and `UnpackableBuffer` (neo4j/_codec/packstream/v1/__init__.py).
use neo4j_python_driver.Base.{
  ℕ, zero, suc, ◌+◌, ◌-◌, ◌*◌, ◌/◌, ◌%◌, ◌^◌, List, true, false, ◌&&◌, Option, none, some, leb,
  ◌==◌, if◌then◌else◌, length, take, drop, get_elem?, Result, ok, err,
}
use neo4j_python_driver.Base.Int.{pos, negsuc}
use neo4j_python_driver.Packstream.Value.{
  Value, null, bool, float, int, str, bytes, list, dict, structure, Items, nil, cons, Entries,
  empty, from_be, to_signed,
}
use neo4j_python_driver.Packstream.Utf8.{decode}
use neo4j_python_driver.Packstream.Keys.{hashable, dict_set}

pub data UnpackError : Type 0 where
  value_error index_error struct_error unicode_error type_error recursion_error : UnpackError

-- `data`, `used` and `p` of `UnpackableBuffer`.
pub record UnpackableBuffer : Type 0 where
  pub content : List ℕ
  pub used : ℕ
  pub p : ℕ

-- `UnpackableBuffer(data)`.
abbrev pub buffer_of : List ℕ → UnpackableBuffer
buffer_of bs = record { content = bs; used = length bs; p = 0 }

-- An operation on the buffer. After an exception the buffer is reset, so none is returned.
abbrev pub Reader : Type 0 → Type 0
Reader A = UnpackableBuffer → Result UnpackError (A × UnpackableBuffer)

infixl 5 ◌>>=◌ ◌>>◌
abbrev pub ◌>>=◌ : {A B : Type 0} → Reader A → (A → Reader B) → Reader B
◌>>=◌ m f b = elim (m b) [ ok (a, b') ↦ f a b' | err e ↦ err e ]

abbrev pub ◌>>◌ : {B : Type 0} → Reader (Unit {0}) → Reader B → Reader B
m >> k = m >>= λ _. k

abbrev pub ret : {A : Type 0} → A → Reader A
ret a b = ok (a, b)

abbrev pub fail : {A : Type 0} → UnpackError → Reader A
fail e b = err e

unfoldable pub reset : UnpackableBuffer → UnpackableBuffer
reset b = record b { used = 0; p = 0 }

abbrev pub advance : UnpackableBuffer → ℕ → UnpackableBuffer
advance b n = record b { p = b.p + n }

-- The slice of a `memoryview` is cut at the end of the data, without an error.
unfoldable pub read : ℕ → Reader (List ℕ)
read n b = ok (take n (drop b.p b.content), advance b n)

-- `none` stands for the result -1.
unfoldable pub read_u8 : Reader (Option ℕ)
read_u8 b =
    if leb (b.p + 1) b.used
    then elim (get_elem? b.content b.p) [
      | none ↦ err index_error
      | some value ↦ ok (some value, advance b 1)
    ]
    else ok (none, b)

unfoldable pub pop_u16 : Reader (Option ℕ)
pop_u16 b =
    if leb 2 b.used
    then elim (get_elem? b.content (b.used - 2)) [
      | none ↦ err index_error
      | some high ↦ elim (get_elem? b.content (b.used - 1)) [
        | none ↦ err index_error
        | some low ↦ ok (some (0x100 * high + low), record b { used = b.used - 2 })
      ]
    ]
    else ok (none, b)

-- `struct_unpack` of one unsigned integer of `k` bytes.
unfoldable pub read_uint : ℕ → Reader ℕ
read_uint k = do bs ← read k; if length bs == k then ret (from_be bs) else fail struct_error

-- Where the size of a value stands: in the marker, or in the next bytes.
pub data Size : Type 0 where
  inline : ℕ → Size
  sized : ℕ → Size

-- What a marker byte announces.
pub data Kind : Type 0 where
  constant : Value → Kind
  float_64 : Kind
  integer : ℕ → Kind
  byte_array : Size → Kind
  text : Size → Kind
  sequence : Size → Kind
  mapping : Size → Kind
  struct : ℕ → Kind
  unknown : Kind

-- The markers from 0xf0 up are the negative tiny integers `marker - 0x100`.
unfoldable pub marker_kind : ℕ → Kind
marker_kind m =
    if leb m 0x7f
    then constant (int (pos m))
    else if leb 0xf0 m && leb m 0xff
    then constant (int (negsuc (0xff - m)))
    else if m == 0xc0
    then constant null
    else if m == 0xc1
    then float_64
    else if m == 0xc2
    then constant (bool false)
    else if m == 0xc3
    then constant (bool true)
    else if m == 0xc8
    then integer 1
    else if m == 0xc9
    then integer 2
    else if m == 0xca
    then integer 4
    else if m == 0xcb
    then integer 8
    else if m == 0xcc
    then byte_array (sized 1)
    else if m == 0xcd
    then byte_array (sized 2)
    else if m == 0xce
    then byte_array (sized 4)
    else sized_kind
  where
    sized_kind : Kind
    sized_kind =
        if m / 16 * 16 == 0x80
        then text (inline (m % 16))
        else if m == 0xd0
        then text (sized 1)
        else if m == 0xd1
        then text (sized 2)
        else if m == 0xd2
        then text (sized 4)
        else if m / 16 * 16 == 0x90
        then sequence (inline (m % 16))
        else if m == 0xd4
        then sequence (sized 1)
        else if m == 0xd5
        then sequence (sized 2)
        else if m == 0xd6
        then sequence (sized 4)
        else if m / 16 * 16 == 0xa0
        then mapping (inline (m % 16))
        else if m == 0xd8
        then mapping (sized 1)
        else if m == 0xd9
        then mapping (sized 2)
        else if m == 0xda
        then mapping (sized 4)
        else if m / 16 * 16 == 0xb0
        then struct (m % 16)
        else unknown

unfoldable pub read_size : Size → Reader ℕ
read_size (inline n) = ret n
read_size (sized k) = read_uint k

-- `size` times `self.unpack()`.
unfoldable pub unpack_items : Reader Value → ℕ → Reader Items
unpack_items unpack zero = ret nil
unpack_items unpack (suc n) = do v ← unpack; vs ← unpack_items unpack n; ret (cons v vs)

-- `size` times `key = self.unpack(); value[key] = self.unpack()`.
unfoldable pub unpack_entries : Reader Value → ℕ → Entries → Reader Entries
unpack_entries unpack zero es = ret es
unpack_entries unpack (suc n) es = do
  k ← unpack
  v ← unpack
  if hashable k then unpack_entries unpack n (dict_set es k v) else fail type_error

unfoldable pub decode_text : List ℕ → Reader Value
decode_text bs = elim (decode bs) [ none ↦ fail unicode_error | some s ↦ ret (str s) ]

unfoldable pub unpack_kind : Reader Value → Kind → Reader Value
unpack_kind unpack (constant v) = ret v
unpack_kind unpack float_64 = do bits ← read_uint 8; ret (float bits)
unpack_kind unpack (integer k) = do n ← read_uint k; ret (int (to_signed n (256 ^ k)))
unpack_kind unpack (byte_array s) = do size ← read_size s; bs ← read size; ret (bytes bs)
unpack_kind unpack (text s) = do size ← read_size s; bs ← read size; decode_text bs
unpack_kind unpack (sequence s) = do
  size ← read_size s
  vs ← unpack_items unpack size
  ret (list vs)
unpack_kind unpack (mapping s) = do
  size ← read_size s
  es ← unpack_entries unpack size empty
  ret (dict es)
unpack_kind unpack (struct size) = do
  tag ← read 1
  fields ← unpack_items unpack size
  ret (structure tag fields)
unpack_kind unpack unknown = fail value_error

unfoldable pub unpack_marked : Reader Value → Option ℕ → Reader Value
unpack_marked unpack none = fail value_error
unpack_marked unpack (some m) = unpack_kind unpack (marker_kind m)

-- `Unpacker.unpack`: `hydrate` is the hydration hook for the type of the value that was read, and the
-- identity for a type that has none.
unfoldable pub unpack : (Value → Value) → ℕ → Reader Value
unpack hydrate zero b = err recursion_error
unpack hydrate (suc fuel) b =
    (do marker ← read_u8; v ← unpack_marked (unpack hydrate fuel) marker; ret (hydrate v)) b

-- `_unpack_structure_header`, and `none` at the end of the data.
unfoldable pub structure_header : Option ℕ → Reader (Option (ℕ × List ℕ))
structure_header none = ret none
structure_header (some marker) =
    if marker / 16 * 16 == 0xb0
    then (do signature ← read 1; ret (some (marker % 16, signature)))
    else fail value_error

-- `unpack_structure_header`: the number of fields and the tag of a message.
unfoldable pub unpack_structure_header : Reader (Option (ℕ × List ℕ))
unpack_structure_header = read_u8 >>= structure_header
