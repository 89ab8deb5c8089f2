-- ===== src/Packstream/Tests.antt =====
-- Runs of the codec, and its theorems at concrete inputs.
use neo4j_python_driver.Base.{
  ℕ, ◌≡◌, refl, [], ◌∷◌, ◌++◌, Option, none, some, ok, err, length, arith,
}
use neo4j_python_driver.Base.Int.{pos, negsuc}
use neo4j_python_driver.Packstream.Value.{
  Value, int, str, list, dict, Items, nil, cons, empty, entry, be, mod_ℤ,
}
use neo4j_python_driver.Packstream.Utf8.{encode, encode_char}
use neo4j_python_driver.Packstream.Keys.{has_key}
use neo4j_python_driver.Packstream.Pack.{
  pack, pack_value, inject_hooks, pack_int, pack_str, pack_string_header, pack_list_header,
  pack_map_header, pack_items, pack_entries, is_str, Hooks, overflow_error,
}
use neo4j_python_driver.Packstream.Composite.{Plain, PlainItems, PlainEntries}
use neo4j_python_driver.Packstream.Unpack.{
  unpack, buffer_of, advance, read_u8, unpack_marked, value_error,
}
use neo4j_python_driver.Packstream.RoundTrip.{unpack-pack}
use neo4j_python_driver.Packstream.Success.{
  Fits, FitsItems, FitsEntries, depth, depth_items, depth_entries, pack_value-succeeds,
}

abbrev no_tuples : ℕ → Option Items
no_tuples n = none

abbrev no_hooks : Hooks
no_hooks n = none

-- {"a": [1, -17]}
abbrev sample : Value
sample = dict (entry (str (97 ∷ [])) (list (cons (int (pos 1)) (cons (int (negsuc 16)) nil))) empty)

sample_bytes :
    (pack no_tuples no_hooks 4 sample).out ≡ 0xa1 ∷ 0x81 ∷ 97 ∷ 0x92 ∷ 1 ∷ 0xc8 ∷ 0xef ∷ []
unfolding pack pack_value inject_hooks pack_int pack_str encode encode_char pack_string_header
    pack_list_header pack_map_header pack_items pack_entries is_str be mod_ℤ
sample_bytes = refl

too_large :
    (pack no_tuples no_hooks 1 (int (pos 0x8000_0000_0000_0000))).failed ≡ some overflow_error
unfolding pack pack_value pack_int
too_large = refl

nothing_to_unpack : unpack (λ v. v) 1 (buffer_of []) ≡ err value_error
unfolding unpack read_u8 unpack_marked
nothing_to_unpack = refl

sample-Plain : Plain sample
unfolding Plain PlainItems PlainEntries has_key
sample-Plain = ((tt, (tt, (tt, tt)), tt), (refl, tt))

sample-Fits : Fits sample
unfolding Fits FitsItems FitsEntries is_str encode encode_char
sample-Fits = (
  omega arith,
  (refl, (97 ∷ [], refl, omega arith), (omega arith, (omega arith, (omega arith, tt))), tt),
)

sample_packed : (pack no_tuples no_hooks 4 sample).failed ≡ none
unfolding pack pack_value inject_hooks pack_int pack_str encode encode_char pack_string_header
    pack_list_header pack_map_header pack_items pack_entries is_str
sample_packed = refl

unpack-pack_example :
    let b = buffer_of ((1 ∷ 2 ∷ []) ++ ((pack no_tuples no_hooks 4 sample).out ++ (3 ∷ []))) in
    unpack (λ v. v) 4 (advance b 2)
    ≡ ok (sample, advance b (length ((1 ∷ 2 ∷ []) ++ (pack no_tuples no_hooks 4 sample).out)))
unpack-pack_example =
    unpack-pack no_tuples no_hooks 4 sample (1 ∷ 2 ∷ []) (3 ∷ []) sample-Plain sample_packed

pack_value-succeeds_example : (pack_value no_tuples no_hooks 4 sample).failed ≡ none
unfolding depth depth_items depth_entries
pack_value-succeeds_example =
    pack_value-succeeds no_tuples no_hooks 4 sample sample-Fits (omega arith)
