-- ===== src/Chunking/Messages.antt =====
-- A message from the outbox of one connection to the inbox of another.
use neo4j_python_driver.Base.{
  ℕ, ◌+◌, ◌*◌, ◌/◌, ◌%◌, ◌≤◌, ◌<◌, ◌≡◌, refl, ap, ◌∙◌, List, [], ◌∷◌, ◌++◌, Option, none, some,
  length, All, arith, take-append, append_assoc,
}
use neo4j_python_driver.Packstream.Value.{Items}
use neo4j_python_driver.Packstream.Pack.{PackError, Hooks, tmp_buffer, pack_struct}
use neo4j_python_driver.Packstream.Unpack.{read, read_u8, unpack_structure_header, structure_header}
use neo4j_python_driver.Packstream.Reads.{
  Reads, Reads-bind, Reads-read_exact, Reads-map, Reads-read_u8,
}
use neo4j_python_driver.Chunking.Outbox.{
  Outbox, chunk_data, num_chunks, wrap_message, append_message,
}
use neo4j_python_driver.Chunking.Framing.{IsChunk, concat, framed}
use neo4j_python_driver.Chunking.Pieces.{
  pieces, num_chunks_lem, chunk_loop-framed, pieces-IsChunk, concat-pieces,
}

-- An outbox between two messages, with chunks of a size that the two header bytes can hold.
pub record IsReady (o : Outbox) : Type 0 where
  pub positive : 1 ≤ o.max_chunk_size
  pub small : o.max_chunk_size < 65536
  pub clear : o.buffer.content ≡ []

-- If packing fails, the outbox is exactly as before: no part of the message is kept.
append_message_failed :
    (tuple_items : ℕ → Option Items) (o : Outbox) (fuel : ℕ) (tag : List ℕ) (fields : Items)
    (hooks : Hooks) (e : PackError)
    → (append_message tuple_items o fuel tag fields hooks).1 ≡ some e
    → (append_message tuple_items o fuel tag fields hooks).0 ≡ o
unfolding append_message tmp_buffer
append_message_failed tuple_items o fuel tag fields hooks e h =
    ground (arith, take-append o.buffer.content (pack_struct tuple_items hooks fuel tag fields).out)

append_message_wraps :
    (tuple_items : ℕ → Option Items) (o : Outbox) (fuel : ℕ) (tag : List ℕ) (fields : Items)
    (hooks : Hooks)
    → IsReady o
    → (pack_struct tuple_items hooks fuel tag fields).failed ≡ none
    → (append_message tuple_items o fuel tag fields hooks).0
      ≡ wrap_message (record o {
        buffer = record (o.buffer) {
          content = (pack_struct tuple_items hooks fuel tag fields).out;
        };
      })
unfolding append_message tmp_buffer
append_message_wraps tuple_items o fuel tag fields hooks ready h =
    let bs : List ℕ = (pack_struct tuple_items hooks fuel tag fields).out in
    ground (arith, ap (λ (l : List ℕ). l ++ bs) ready.clear)

wrap_message_lem :
    (o : Outbox)
    → IsReady o
    → (bs : List ℕ)
    → let o' = wrap_message (record o { buffer = record (o.buffer) { content = bs } }) in
      (cs : List (List ℕ)) × (o'.chunked_data ≡ o.chunked_data ++ framed cs)
      × (concat cs ≡ bs)
      × All IsChunk cs
      × IsReady o'
unfolding wrap_message chunk_data
wrap_message_lem o ready bs =
    let n : ℕ = num_chunks (length bs) o.max_chunk_size in
    let (enough, tight) = num_chunks_lem (length bs) o.max_chunk_size ready.positive in
    (
      pieces n 0 o.max_chunk_size bs,
      append_assoc o.chunked_data _ (0 ∷ 0 ∷ [])
          ∙ ap (λ (l : List ℕ). o.chunked_data ++ l)
              (chunk_loop-framed o.max_chunk_size bs ready.positive ready.small n 0),
      concat-pieces o.max_chunk_size bs ready.positive ready.small n 0 (omega arith),
      pieces-IsChunk o.max_chunk_size bs ready.positive ready.small n 0 (omega arith),
      record { positive = ready.positive; small = ready.small; clear = refl },
    )

-- If packing succeeds, the message is appended in the wire format: chunks that hold what was packed.
pub append_message_ok :
    (tuple_items : ℕ → Option Items) (o : Outbox) (fuel : ℕ) (tag : List ℕ) (fields : Items)
    (hooks : Hooks)
    → IsReady o
    → (pack_struct tuple_items hooks fuel tag fields).failed ≡ none
    → let bs = (pack_struct tuple_items hooks fuel tag fields).out in
      let o' = (append_message tuple_items o fuel tag fields hooks).0 in
      (cs : List (List ℕ)) × (o'.chunked_data ≡ o.chunked_data ++ framed cs)
      × (concat cs ≡ bs)
      × All IsChunk cs
      × IsReady o'
append_message_ok tuple_items o fuel tag fields hooks ready h =
    rw (append_message_wraps tuple_items o fuel tag fields hooks ready h)
      (wrap_message_lem o ready (pack_struct tuple_items hooks fuel tag fields).out)

-- The header of a structure, read from what the packer wrote.
pub Reads-structure_header :
    (n : ℕ) (tag : List ℕ)
    → n < 16
    → length tag ≡ 1
    → Reads unpack_structure_header ((0xb0 + n) ∷ tag) (some (n, tag))
unfolding unpack_structure_header structure_header
Reads-structure_header n tag small one =
    let high : (0xb0 + n) / 16 * 16 ≡ 0xb0 = omega arith in
    let low : (0xb0 + n) % 16 ≡ n = omega arith in
    let mark : List ℕ → Option (ℕ × List ℕ) = λ s. some (n, s) in
    Reads-bind read_u8 structure_header ((0xb0 + n) ∷ []) tag (some (0xb0 + n)) (some (n, tag))
      (Reads-read_u8 (0xb0 + n))
      (rw (high, low) (Reads-map (read 1) mark tag tag (Reads-read_exact 1 tag one)))
