-- ===== src/Packstream/RoundTrip.antt =====
-- What the packer writes, the unpacker reads back.
use neo4j_python_driver.Base.{
  ℕ, zero, suc, ◌^◌, ◌≡◌, refl, ap, subst, ◌∙◌, inl, inr, List, [], ◌++◌, true, false, Option, none,
  some, length, Option-cases, arith, append-nil, length-append, drop-append, ok,
}
use native.Mathlib.Nat.{zero-add}
use neo4j_python_driver.Base.Int.{ℤ}
use neo4j_python_driver.Packstream.Value.{
  Value, null, bool, float, int, str, bytes, list, dict, structure, other, Items, empty, size_items,
  size_entries, be, mod_ℤ, to_signed,
}
use neo4j_python_driver.Packstream.Utf8.{encode, decode-encode}
use neo4j_python_driver.Packstream.Pack.{
  write, pack_int, pack_str, pack_items, pack_entries, inject_hooks, pack_value, pack, Hooks,
  pack_bytes_header, pack_string_header, pack_list_header, pack_map_header,
}
use neo4j_python_driver.Packstream.Unpack.{
  byte_array, text, sequence, mapping, ret, ◌>>=◌, read, read_uint, marker_kind, unpack_items,
  unpack_entries, unpack_kind, unpack, decode_text, advance, buffer_of,
}
use neo4j_python_driver.Packstream.Reads.{
  Reads, Reads-ret, Reads-bind, Reads-map, Reads-read, Reads-read_uint,
}
use neo4j_python_driver.Packstream.Composite.{
  Plain, PlainItems, PlainEntries, then_do-inv, Reads-unpack, Reads-announced, items-Reads,
  dict-Reads, struct-Reads,
}
use neo4j_python_driver.Packstream.Markers.{
  pack_int-IntForm, pack_bytes_header-Announces, pack_string_header-Announces,
  pack_list_header-Announces, pack_map_header-Announces,
}

int-Reads :
    (fuel : ℕ) (v : ℤ)
    → (pack_int v).failed ≡ none
    → Reads (unpack (λ w. w) (suc fuel)) (pack_int v).out (int v)
unfolding unpack_kind
int-Reads fuel v h = elim (pack_int-IntForm v h) [
  | inl (m, e, k) ↦ rw e (Reads-unpack fuel m [] (int v) (rw k (Reads-ret (int v))))
  | inr (k, m, e, kind, signed, lt) ↦
      let x : ℕ = mod_ℤ v (256 ^ k) in
      let number = λ (n : ℕ). int (to_signed n (256 ^ k)) in
      rw e (
        Reads-unpack fuel m (be k x) (int v) (
          rw kind (
            subst (λ w. Reads (read_uint k >>= λ n. ret (number n)) (be k x) (int w)) signed
              (Reads-map (read_uint k) number (be k x) x (Reads-read_uint k x lt)))))
]

-- Reading an encoded text decodes it.
Reads-decoded :
    (bs s : List ℕ) → encode s ≡ some bs → Reads (read (length bs) >>= decode_text) bs (str s)
unfolding decode_text
Reads-decoded bs s e = rw (append-nil bs) at (
    Reads-bind (read (length bs)) decode_text bs [] bs (str s) (Reads-read bs)
      (rw (decode-encode s bs e, decode_text) (Reads-ret (str s))))

str-Reads :
    (fuel : ℕ) (s : List ℕ)
    → (pack_str s).failed ≡ none
    → Reads (unpack (λ w. w) (suc fuel)) (pack_str s).out (str s)
unfolding unpack_kind decode_text pack_str
str-Reads fuel s h = elim (Option-cases (encode s)) [
  | inl e ↦ absurd (ground arith)
  | inr (bs, e) ↦
      let (ok_head, _, whole) =
        then_do-inv (pack_string_header (length bs)) (write bs) (rw (e, pack_str) at h) in
      rw (e, pack_str)
        (rw whole (
          Reads-announced text (pack_string_header (length bs)).out bs (length bs) fuel
            (λ size. read size >>= decode_text) (str s) (λ t. refl)
            (pack_string_header-Announces (length bs) ok_head) (Reads-decoded bs s e)))
]

module _ (tuple_items : ℕ → Option Items) where
  -- For every value that needs no hook: if packing it succeeds, then unpacking takes exactly the
  -- bytes that were written, wherever they stand in the buffer, and returns the value.
  pub unpack-pack_value :
      (hooks : Hooks) (fuel : ℕ) (v : Value)
      → Plain v
      → (pack_value tuple_items hooks fuel v).failed ≡ none
      → Reads (unpack (λ w. w) fuel) (pack_value tuple_items hooks fuel v).out v
  unfolding pack_value Plain PlainItems PlainEntries
  unpack-pack_value hooks zero v plain h = absurd (ground arith)
  unpack-pack_value hooks (suc fuel) null plain h =
      unfold unpack_kind marker_kind in Reads-unpack fuel 0xc0 [] null (Reads-ret null)
  unpack-pack_value hooks (suc fuel) (bool true) plain h =
      unfold unpack_kind marker_kind in
      Reads-unpack fuel 0xc3 [] (bool true) (Reads-ret (bool true))
  unpack-pack_value hooks (suc fuel) (bool false) plain h =
      unfold unpack_kind marker_kind in
      Reads-unpack fuel 0xc2 [] (bool false) (Reads-ret (bool false))
  unpack-pack_value hooks (suc fuel) (float bits) plain h =
      unfold unpack_kind marker_kind in
      Reads-unpack fuel 0xc1 (be 8 bits) (float bits)
        (Reads-map (read_uint 8) float (be 8 bits) bits (Reads-read_uint 8 bits plain))
  unpack-pack_value hooks (suc fuel) (int v) plain h = int-Reads fuel v h
  unpack-pack_value hooks (suc fuel) (str s) plain h = str-Reads fuel s h
  unpack-pack_value hooks (suc fuel) (bytes bs) plain h =
      let (ok_head, _, whole) = then_do-inv (pack_bytes_header (length bs)) (write bs) h in
      rw whole (
        Reads-announced byte_array (pack_bytes_header (length bs)).out bs (length bs) fuel
          (λ size. read size >>= λ cs. ret (bytes cs)) (bytes bs) (λ s. unfold unpack_kind in refl)
          (pack_bytes_header-Announces (length bs) ok_head)
          (Reads-map (read (length bs)) bytes bs bs (Reads-read bs)))
  unpack-pack_value hooks (suc fuel) (list xs) plain h =
      let (ok_head, ok_items, whole) =
        then_do-inv (pack_list_header (size_items xs))
          (pack_items (pack_value tuple_items hooks fuel) xs) h in
      rw whole (
        Reads-announced sequence (pack_list_header (size_items xs)).out _ (size_items xs) fuel
          (λ size. unpack_items (unpack (λ w. w) fuel) size >>= λ ws. ret (list ws)) (list xs)
          (λ s. unfold unpack_kind in refl) (pack_list_header-Announces (size_items xs) ok_head)
          (Reads-map (unpack_items (unpack (λ w. w) fuel) (size_items xs)) list _ xs (
            items-Reads (pack_value tuple_items hooks fuel) (unpack (λ w. w) fuel)
              (unpack-pack_value hooks fuel) xs plain ok_items)))
  unpack-pack_value hooks (suc fuel) (dict es) plain h =
      let (ok_head, ok_items, whole) =
        then_do-inv (pack_map_header (size_entries es))
          (pack_entries (pack_value tuple_items hooks fuel) es) h in
      rw whole (
        Reads-announced mapping (pack_map_header (size_entries es)).out _ (size_entries es) fuel
          (λ size. unpack_entries (unpack (λ w. w) fuel) size empty >>= λ ws. ret (dict ws))
          (dict es) (λ s. unfold unpack_kind in refl)
          (pack_map_header-Announces (size_entries es) ok_head)
          (Reads-map (unpack_entries (unpack (λ w. w) fuel) (size_entries es) empty) dict _ es (
            dict-Reads (pack_value tuple_items hooks fuel) (unpack (λ w. w) fuel)
              (unpack-pack_value hooks fuel) es plain.0 plain.1 ok_items)))
  unpack-pack_value hooks (suc fuel) (structure tag fields) plain h =
      struct-Reads (pack_value tuple_items (inject_hooks tuple_items (λ n. none)) fuel) fuel
        (unpack-pack_value (inject_hooks tuple_items (λ n. none)) fuel) tag fields plain h
  unpack-pack_value hooks (suc fuel) (other n) plain h = absurd plain

  -- The statement over buffers: packing a plain value succeeded, and the bytes that it wrote stand in
  -- a buffer between any others. Then unpacking from where they begin returns the value and leaves
  -- the position at their end.
  pub unpack-pack :
      (hooks : Hooks) (fuel : ℕ) (v : Value) (before after : List ℕ)
      → Plain v
      → (pack tuple_items hooks fuel v).failed ≡ none
      → let bs = (pack tuple_items hooks fuel v).out in
        let b = buffer_of (before ++ (bs ++ after)) in
        unpack (λ w. w) fuel (advance b (length before)) ≡ ok (v, advance b (length (before ++ bs)))
  unfolding pack
  unpack-pack hooks fuel v before after plain h =
      let bs : List ℕ = (pack_value tuple_items (inject_hooks tuple_items hooks) fuel v).out in
      unpack-pack_value (inject_hooks tuple_items hooks) fuel v plain h
        (advance (buffer_of (before ++ (bs ++ after))) (length before)) after
        (
          rw zero-add (drop-append before (bs ++ after)),
          omega (arith, length-append before (bs ++ after), length-append bs after),
        )
      ∙ ap
          (λ (n : ℕ). ok (
            v,
            record {
              content = before ++ (bs ++ after);
              used = length (before ++ (bs ++ after));
              p = n;
            },
          ))
          (omega (arith, length-append before bs))
