-- ===== src/Chunking/Outbox.antt =====
-- `Outbox`: messages are packed, cut into chunks and collected until they are flushed.
use neo4j_python_driver.Base.{
  ℕ, zero, suc, ◌+◌, ◌-◌, ◌/◌, ◌%◌, Bool, true, false, List, [], ◌∷◌, ◌++◌, Option, none, some,
  ◌==◌, if◌then◌else◌, length, take, drop, min,
}
use neo4j_python_driver.Packstream.Value.{Items, be}
use neo4j_python_driver.Packstream.Pack.{PackError, PackableBuffer, Hooks, tmp_buffer, pack_struct}

pub record Outbox : Type 0 where
  pub max_chunk_size : ℕ
  pub chunked_data : List ℕ
  pub buffer : PackableBuffer

-- `Outbox.__init__`
unfoldable pub new_outbox : ℕ → Outbox
new_outbox size = record {
  max_chunk_size = size;
  chunked_data = [];
  buffer = record { content = []; tmp_buffering = 0 };
}

-- The loop of `_chunk_data`, over the rounds left and `raw_data_start`: what it appends. The size is
-- written by `struct_pack(">H", ...)`, which holds every `max_chunk_size` below 65536.
unfoldable pub chunk_loop : ℕ → ℕ → ℕ → List ℕ → List ℕ
chunk_loop zero raw_start max_size content = []
chunk_loop (suc n) raw_start max_size content =
    let size = min (length content - raw_start) max_size in
    be 2 size
    ++ (take size (drop raw_start content) ++ chunk_loop n (raw_start + size) max_size content)

-- `num_full_chunks + bool(chunk_rest)`
unfoldable pub num_chunks : ℕ → ℕ → ℕ
num_chunks data_len max_size = data_len / max_size + (if data_len % max_size == 0 then 0 else 1)

unfoldable pub chunk_data : Outbox → Outbox
chunk_data o = record o {
  chunked_data =
      o.chunked_data
      ++ chunk_loop (num_chunks (length o.buffer.content) o.max_chunk_size) 0 o.max_chunk_size
          o.buffer.content;
  buffer = record (o.buffer) { content = [] };
}

unfoldable pub wrap_message : Outbox → Outbox
wrap_message o =
    let chunked = chunk_data o in
    record chunked { chunked_data = chunked.chunked_data ++ (0 ∷ 0 ∷ []) }

module _ (tuple_items : ℕ → Option Items) where
  -- `append_message`: if packing fails, the temporary buffer is taken back and nothing is wrapped.
  unfoldable pub append_message : Outbox → ℕ → List ℕ → Items → Hooks → Outbox × Option PackError
  append_message o fuel tag fields hooks =
      let (b, failed) = tmp_buffer o.buffer (pack_struct tuple_items hooks fuel tag fields) in
      elim failed [
        | some e ↦ (record o { buffer = b }, some e)
        | none ↦ (wrap_message (record o { buffer = b }), none)
      ]

-- `flush`, given whether `sendall(chunked_data)` succeeds. Nothing is sent if there is nothing.
unfoldable pub flush : Outbox → Bool → Outbox × Bool
flush o sent = elim o.chunked_data [
  | [] ↦ (o, false)
  | x ∷ xs ↦ elim sent [
    | true ↦ (record o { chunked_data = []; buffer = record (o.buffer) { content = [] } }, true)
    | false ↦ (o, false)
  ]
]
