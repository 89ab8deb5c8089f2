-- ===== src/Chunking/Inbox.antt =====
-- `Inbox`: messages are read from chunks.
use neo4j_python_driver.Base.{
  ℕ, zero, suc, ◌+◌, Bool, true, false, List, Option, none, some, Result, ok, err, length,
}
use neo4j_python_driver.Packstream.Value.{Value, Items}
use neo4j_python_driver.Packstream.Unpack.{
  UnpackableBuffer, UnpackError, pop_u16, reset, unpack, unpack_items, unpack_structure_header,
}
use neo4j_python_driver.Chunking.Socket.{
  Socket, stream, ReceiveError, closed, endless, receive_into_buffer,
}

-- `os_error` is also raised for a deadline that passes. `bad_size` would be a size of -1, `stuck` a
-- loop that ran out of fuel, and `broken_inbox` is the failed assertion.
pub data InboxError : Type 0 where
  os_error bad_size stuck broken_inbox : InboxError

pub record Inbox : Type 0 where
  pub socket : Socket
  pub buffer : UnpackableBuffer
  pub broken : Bool

abbrev pub receive_error : ReceiveError → InboxError
receive_error closed = os_error
receive_error endless = stuck

-- `receive_into_buffer(...)` and `chunk_size = self._buffer.pop_u16()`.
unfoldable pub receive_and_pop :
    ℕ → Socket → UnpackableBuffer → Result InboxError (ℕ × UnpackableBuffer × Socket)
receive_and_pop n sock b = elim (receive_into_buffer sock b n) [
  | err e ↦ err (receive_error e)
  | ok (b', sock') ↦ elim (pop_u16 b') [
    | err e ↦ err bad_size
    | ok (none, b'') ↦ err bad_size
    | ok (some size, b'') ↦ ok (size, b'', sock')
  ]
]

-- Both loops of `_buffer_one_chunk`, which have `chunk_size` between their rounds: while it is 0 the
-- next size is read (a NOOP is skipped); otherwise the chunk and the size behind it are read, and a
-- size of 0 ends the message. Each round takes two bytes at least.
unfoldable pub read_chunks :
    ℕ → ℕ → Socket → UnpackableBuffer → Result InboxError (UnpackableBuffer × Socket)
read_chunks zero size sock b = err stuck
read_chunks (suc fuel) zero sock b = elim (receive_and_pop 2 sock b) [
  | err e ↦ err e
  | ok (size, b', sock') ↦ read_chunks fuel size sock' b'
]
read_chunks (suc fuel) (suc n) sock b = elim (receive_and_pop (suc n + 2) sock b) [
  | err e ↦ err e
  | ok (zero, b', sock') ↦ ok (b', sock')
  | ok (suc size, b', sock') ↦ read_chunks fuel (suc size) sock' b'
]

abbrev pub chunk_fuel : Socket → ℕ
chunk_fuel sock = suc (length (stream sock))

-- After an error the inbox is broken and nothing more is read from it.
unfoldable pub buffer_one_chunk : Inbox → Inbox × Option InboxError
buffer_one_chunk inbox = elim inbox.broken [
  | true ↦ (inbox, some broken_inbox)
  | false ↦ elim (read_chunks (chunk_fuel inbox.socket) 0 inbox.socket inbox.buffer) [
    | err e ↦ (record inbox { broken = true }, some e)
    | ok (b, sock) ↦ (record inbox { socket = sock; buffer = b }, none)
  ]
]

pub data PopError : Type 0 where
  inbox_error : InboxError → PopError
  unpack_error : UnpackError → PopError
  no_message : PopError

-- The tag and the fields of the message in the buffer. (`no_message`: `range(None)` fails.)
unfoldable pub unpack_message :
    (Value → Value) → ℕ → UnpackableBuffer → Result PopError (List ℕ × Items)
unpack_message hydrate fuel b = elim (unpack_structure_header b) [
  | err e ↦ err (unpack_error e)
  | ok (none, b') ↦ err no_message
  | ok (some (size, tag), b') ↦ elim (unpack_items (unpack hydrate fuel) size b') [
    | err e ↦ err (unpack_error e)
    | ok (fields, b'') ↦ ok (tag, fields)
  ]
]

-- `pop`: the buffer is reset whether unpacking succeeds or not.
unfoldable pub pop : (Value → Value) → ℕ → Inbox → Inbox × Result PopError (List ℕ × Items)
pop hydrate fuel inbox =
    let (inbox', failed) = buffer_one_chunk inbox in
    elim failed [
      | some e ↦ (inbox', err (inbox_error e))
      | none ↦ (
        record inbox' { buffer = reset inbox'.buffer },
        unpack_message hydrate fuel inbox'.buffer,
      )
    ]
