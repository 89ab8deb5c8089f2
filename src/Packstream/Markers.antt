-- ===== src/Packstream/Markers.antt =====
-- Every header that the packer writes announces to the unpacker what was packed.
use neo4j_python_driver.Base.{
  ℕ, ◌+◌, ◌-◌, ◌^◌, ◌<◌, ◌≡◌, refl, ◌⊎◌, inl, inr, List, [], ◌∷◌, none, dec_lt, arith,
}
use neo4j_python_driver.Base.Int.{ℤ, pos, negsuc}
use neo4j_python_driver.Packstream.Value.{
  int, be, mod_ℤ, to_signed, IsSigned, to_signed-mod_ℤ, mod_ℤ-lt,
}
use neo4j_python_driver.Packstream.Pack.{
  pack_int, pack_bytes_header, pack_string_header, pack_list_header, pack_map_header,
}
use neo4j_python_driver.Packstream.Unpack.{
  Size, inline, sized, Kind, constant, integer, byte_array, text, sequence, mapping, struct,
  marker_kind, read_size,
}
use neo4j_python_driver.Packstream.Reads.{Reads, Reads-ret, Reads-read_uint}

-- The header consists of a marker of the right kind and the size.
abbrev pub Announces : List ℕ → (Size → Kind) → ℕ → Type 0
Announces out kind size =
    (m : ℕ) × (s : Size) × (zs : List ℕ) × (out ≡ m ∷ zs)
    × (marker_kind m ≡ kind s)
    × Reads (read_size s) zs size

inline_text : (n : ℕ) → n < 16 → marker_kind (0x80 + n) ≡ text (inline n)
unfolding marker_kind
inline_text n h = ground arith

inline_sequence : (n : ℕ) → n < 16 → marker_kind (0x90 + n) ≡ sequence (inline n)
unfolding marker_kind
inline_sequence n h = ground arith

inline_mapping : (n : ℕ) → n < 16 → marker_kind (0xa0 + n) ≡ mapping (inline n)
unfolding marker_kind
inline_mapping n h = ground arith

pub inline_struct : (n : ℕ) → n < 16 → marker_kind (0xb0 + n) ≡ struct n
unfolding marker_kind
inline_struct n h = ground arith

sized-Announces :
    (out : List ℕ) (kind : Size → Kind) (m k size : ℕ)
    → out ≡ m ∷ be k size
    → marker_kind m ≡ kind (sized k)
    → size < 256 ^ k
    → Announces out kind size
unfolding read_size
sized-Announces out kind m k size e a h = (m, sized k, be k size, e, a, Reads-read_uint k size h)

inline-Announces :
    (out : List ℕ) (kind : Size → Kind) (m size : ℕ)
    → out ≡ m ∷ []
    → marker_kind m ≡ kind (inline size)
    → Announces out kind size
unfolding read_size
inline-Announces out kind m size e a = (m, inline size, [], e, a, Reads-ret size)

pub pack_bytes_header-Announces :
    (size : ℕ)
    → (pack_bytes_header size).failed ≡ none
    → Announces (pack_bytes_header size).out byte_array size
unfolding pack_bytes_header marker_kind
pack_bytes_header-Announces size h = elim (dec_lt size 0x100) [
  | yes a ↦ sized-Announces _ byte_array 0xcc 1 size (ground arith) refl (omega arith)
  | no na ↦ elim (dec_lt size 0x10000) [
    | yes b ↦ sized-Announces _ byte_array 0xcd 2 size (ground arith) refl (omega arith)
    | no nb ↦ sized-Announces _ byte_array 0xce 4 size (ground arith) refl (ground arith)
  ]
]

pub pack_string_header-Announces :
    (size : ℕ)
    → (pack_string_header size).failed ≡ none
    → Announces (pack_string_header size).out text size
unfolding pack_string_header marker_kind
pack_string_header-Announces size h = elim (dec_lt size 0x10) [
  | yes i ↦ inline-Announces _ text (0x80 + size) size (ground arith) (inline_text size i)
  | no ni ↦ elim (dec_lt size 0x100) [
    | yes a ↦ sized-Announces _ text 0xd0 1 size (ground arith) refl (omega arith)
    | no na ↦ elim (dec_lt size 0x10000) [
      | yes b ↦ sized-Announces _ text 0xd1 2 size (ground arith) refl (omega arith)
      | no nb ↦ sized-Announces _ text 0xd2 4 size (ground arith) refl (ground arith)
    ]
  ]
]

pub pack_list_header-Announces :
    (size : ℕ)
    → (pack_list_header size).failed ≡ none
    → Announces (pack_list_header size).out sequence size
unfolding pack_list_header marker_kind
pack_list_header-Announces size h = elim (dec_lt size 0x10) [
  | yes i ↦ inline-Announces _ sequence (0x90 + size) size (ground arith) (inline_sequence size i)
  | no ni ↦ elim (dec_lt size 0x100) [
    | yes a ↦ sized-Announces _ sequence 0xd4 1 size (ground arith) refl (omega arith)
    | no na ↦ elim (dec_lt size 0x10000) [
      | yes b ↦ sized-Announces _ sequence 0xd5 2 size (ground arith) refl (omega arith)
      | no nb ↦ sized-Announces _ sequence 0xd6 4 size (ground arith) refl (ground arith)
    ]
  ]
]

pub pack_map_header-Announces :
    (size : ℕ)
    → (pack_map_header size).failed ≡ none
    → Announces (pack_map_header size).out mapping size
unfolding pack_map_header marker_kind
pack_map_header-Announces size h = elim (dec_lt size 0x10) [
  | yes i ↦ inline-Announces _ mapping (0xa0 + size) size (ground arith) (inline_mapping size i)
  | no ni ↦ elim (dec_lt size 0x100) [
    | yes a ↦ sized-Announces _ mapping 0xd8 1 size (ground arith) refl (omega arith)
    | no na ↦ elim (dec_lt size 0x10000) [
      | yes b ↦ sized-Announces _ mapping 0xd9 2 size (ground arith) refl (omega arith)
      | no nb ↦ sized-Announces _ mapping 0xda 4 size (ground arith) refl (ground arith)
    ]
  ]
]

-- An integer is its own marker, or two's complement behind a marker that tells its width.
abbrev pub IntForm : ℤ → Type 0
IntForm v =
    ((m : ℕ) × ((pack_int v).out ≡ m ∷ []) × (marker_kind m ≡ constant (int v)))
    ⊎ ((k : ℕ) × (m : ℕ) × ((pack_int v).out ≡ m ∷ be k (mod_ℤ v (256 ^ k)))
        × (marker_kind m ≡ integer k)
        × (to_signed (mod_ℤ v (256 ^ k)) (256 ^ k) ≡ v)
        × (mod_ℤ v (256 ^ k) < 256 ^ k))

wide_int :
    (v : ℤ) (k m : ℕ)
    → (pack_int v).out ≡ m ∷ be k (mod_ℤ v (256 ^ k))
    → marker_kind m ≡ integer k
    → IsSigned (256 ^ k) v
    → IntForm v
wide_int v k m e a fits =
    inr (k, m, e, a, to_signed-mod_ℤ v (256 ^ k) fits, mod_ℤ-lt v (256 ^ k) fits)

tiny_negative : (n : ℕ) → n < 16 → marker_kind (255 - n) ≡ constant (int (negsuc n))
unfolding marker_kind
tiny_negative n h = ground arith

pack_int-IntForm_pos : (n : ℕ) → (pack_int (pos n)).failed ≡ none → IntForm (pos n)
unfolding pack_int marker_kind be mod_ℤ
pack_int-IntForm_pos n h = elim (dec_lt n 0x80) [
  | yes a ↦ inl (n, ground arith, ground arith)
  | no na ↦ elim (dec_lt n 0x8000) [
    | yes b ↦ wide_int (pos n) 2 0xc9 (ground arith) refl (omega arith)
    | no nb ↦ elim (dec_lt n 0x8000_0000) [
      | yes c ↦ wide_int (pos n) 4 0xca (ground arith) refl (omega arith)
      | no nc ↦ wide_int (pos n) 8 0xcb (ground arith) refl (ground arith)
    ]
  ]
]

pack_int-IntForm_negsuc : (n : ℕ) → (pack_int (negsuc n)).failed ≡ none → IntForm (negsuc n)
unfolding pack_int marker_kind be mod_ℤ
pack_int-IntForm_negsuc n h = elim (dec_lt n 0x10) [
  | yes t ↦ inl (255 - n, ground arith, tiny_negative n t)
  | no nt ↦ elim (dec_lt n 0x80) [
    | yes a ↦ wide_int (negsuc n) 1 0xc8 (ground arith) refl (omega arith)
    | no na ↦ elim (dec_lt n 0x8000) [
      | yes b ↦ wide_int (negsuc n) 2 0xc9 (ground arith) refl (omega arith)
      | no nb ↦ elim (dec_lt n 0x8000_0000) [
        | yes c ↦ wide_int (negsuc n) 4 0xca (ground arith) refl (omega arith)
        | no nc ↦ wide_int (negsuc n) 8 0xcb (ground arith) refl (ground arith)
      ]
    ]
  ]
]

pub pack_int-IntForm : (v : ℤ) → (pack_int v).failed ≡ none → IntForm v
pack_int-IntForm (pos n) h = pack_int-IntForm_pos n h
pack_int-IntForm (negsuc n) h = pack_int-IntForm_negsuc n h
