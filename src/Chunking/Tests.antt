-- ===== src/Chunking/Tests.antt =====
-- Runs of the message layer, and its theorems at concrete inputs.
use neo4j_python_driver.Base.{
  ℕ, ◌≡◌, ◌≢◌, refl, List, [], ◌∷◌, ◌++◌, false, Option, none, some, ok, take, drop, arith,
}
use neo4j_python_driver.Base.Int.{pos}
use neo4j_python_driver.Packstream.Value.{null, int, other, Items, nil, cons, be, mod_ℤ}
use neo4j_python_driver.Packstream.Pack.{
  Hooks, value_error, pack_struct, pack_struct_with, pack_value, pack_items, pack_int, inject_hooks,
  tmp_buffer,
}
use neo4j_python_driver.Packstream.Composite.{Plain, PlainItems}
use neo4j_python_driver.Packstream.Unpack.{buffer_of}
use neo4j_python_driver.Chunking.Socket.{Socket, stream, IsOpen, receive_loop, receive_loop_lem}
use neo4j_python_driver.Chunking.Inbox.{Inbox, pop, buffer_one_chunk, stuck}
use neo4j_python_driver.Chunking.Outbox.{
  Outbox, append_message, wrap_message, chunk_data, chunk_loop, num_chunks,
}
use neo4j_python_driver.Chunking.Messages.{IsReady}
use neo4j_python_driver.Chunking.Delivery.{IsIdle, pop-append_message}
use neo4j_python_driver.Chunking.Termination.{buffer_one_chunk-ne-stuck}

abbrev no_tuples : ℕ → Option Items
no_tuples n = none

abbrev no_hooks : Hooks
no_hooks n = none

abbrev tag : List ℕ
tag = 0x71 ∷ []

abbrev fields : Items
fields = cons (int (pos 5)) (cons null nil)

-- Chunks of two bytes.
abbrev small_outbox : Outbox
small_outbox = record {
  max_chunk_size = 2;
  chunked_data = 9 ∷ [];
  buffer = record { content = []; tmp_buffering = 0 };
}

-- A NOOP, the message in two chunks, and the start of the next message, in three pieces.
abbrev pieces_on_wire : Socket
pieces_on_wire =
    (0 ∷ 0 ∷ 0 ∷ []) ∷ (2 ∷ 0xb2 ∷ 0x71 ∷ 0 ∷ 2 ∷ 5 ∷ []) ∷ (0xc0 ∷ 0 ∷ 0 ∷ 0 ∷ 1 ∷ []) ∷ []

abbrev idle_inbox : Inbox
idle_inbox = record { socket = pieces_on_wire; buffer = buffer_of []; broken = false }

sent :
    (append_message no_tuples small_outbox 2 tag fields no_hooks).0.chunked_data
    ≡ 9 ∷ 0 ∷ 2 ∷ 0xb2 ∷ 0x71 ∷ 0 ∷ 2 ∷ 5 ∷ 0xc0 ∷ 0 ∷ 0 ∷ []
unfolding append_message tmp_buffer wrap_message chunk_data chunk_loop num_chunks pack_struct
    pack_struct_with pack_value pack_items pack_int inject_hooks be mod_ℤ
sent = refl

packed : (pack_struct no_tuples no_hooks 2 tag fields).failed ≡ none
unfolding pack_struct pack_struct_with pack_value pack_items pack_int inject_hooks
packed = refl

fields-PlainItems : PlainItems fields
unfolding PlainItems Plain
fields-PlainItems = (tt, (tt, tt))

on_wire :
    stream pieces_on_wire
    ≡ (0 ∷ 0 ∷ [])
      ++ (drop 1 (append_message no_tuples small_outbox 2 tag fields no_hooks).0.chunked_data
          ++ (0 ∷ 1 ∷ []))
unfolding append_message tmp_buffer wrap_message chunk_data chunk_loop num_chunks pack_struct
    pack_struct_with pack_value pack_items pack_int inject_hooks be mod_ℤ
on_wire = refl

small_outbox-IsReady : IsReady small_outbox
small_outbox-IsReady = record { positive = omega arith; small = omega arith; clear = refl }

idle_inbox-IsIdle : IsIdle idle_inbox
idle_inbox-IsIdle = record { working = refl; unused = refl; at_start = refl }

pop-append_message_example :
    let o' = (append_message no_tuples small_outbox 2 tag fields no_hooks).0 in
    let (inbox', popped) = pop (λ v. v) 2 idle_inbox in
    (popped ≡ ok (tag, fields))
    × (stream inbox'.socket ≡ 0 ∷ 1 ∷ [])
    × IsOpen inbox'.socket
    × IsIdle inbox'
    × (take 1 o'.chunked_data ≡ 9 ∷ [])
    × IsReady o'
unfolding be
pop-append_message_example =
    pop-append_message no_tuples no_hooks 2 tag fields fields-PlainItems packed small_outbox 1
      (0 ∷ 1 ∷ []) idle_inbox small_outbox-IsReady idle_inbox-IsIdle (omega arith) on_wire

-- The second field cannot be packed.
abbrev bad_fields : Items
bad_fields = cons (int (pos 5)) (cons (other 0) nil)

not_packed : (append_message no_tuples small_outbox 2 tag bad_fields no_hooks).1 ≡ some value_error
unfolding append_message tmp_buffer pack_struct pack_struct_with pack_value pack_items pack_int
    inject_hooks
not_packed = refl

-- The connection is closed in the middle of a chunk.
abbrev cut_inbox : Inbox
cut_inbox = record { socket = (0 ∷ 9 ∷ []) ∷ (1 ∷ []) ∷ []; buffer = buffer_of []; broken = false }

buffer_one_chunk-ne-stuck_example : (buffer_one_chunk cut_inbox).1 ≢ some stuck
buffer_one_chunk-ne-stuck_example = buffer_one_chunk-ne-stuck cut_inbox

receive_loop_lem_example :
    (sock' : Socket) × (receive_loop 4 4 pieces_on_wire
      ≡ ok (take 4 (stream pieces_on_wire), sock'))
    × (stream sock' ≡ drop 4 (stream pieces_on_wire))
    × IsOpen sock'
receive_loop_lem_example =
    receive_loop_lem 4 4 pieces_on_wire (omega arith) (omega arith) (omega arith)
