-- ===== src/Chunking/Delivery.antt =====
-- A message that one side's outbox wrote is what the other side's inbox pops.
use neo4j_python_driver.Base.{
  ℕ, zero, suc, ◌+◌, ◌<◌, ◌≡◌, refl, sym, ap, ◌∙◌, List, [], ◌∷◌, ◌++◌, false, Option, none, ok,
  length, take, drop, All, arith, length-append, take-append, drop-append, take-append-drop,
  length-take,
}
use neo4j_python_driver.Packstream.Value.{Value, Items, size_items, be, length-be}
use neo4j_python_driver.Packstream.Pack.{Hooks, pack_struct, pack_value, pack_items, inject_hooks}
use neo4j_python_driver.Packstream.Composite.{PlainItems, struct-inv, items-Reads}
use neo4j_python_driver.Packstream.RoundTrip.{unpack-pack_value}
use neo4j_python_driver.Packstream.Unpack.{UnpackableBuffer, unpack, advance, reset}
use neo4j_python_driver.Packstream.Reads.{Ahead, Ahead-left, Ahead-right}
use neo4j_python_driver.Chunking.Socket.{Socket, stream, IsOpen}
use neo4j_python_driver.Chunking.Buffer.{payload, IsSound}
use neo4j_python_driver.Chunking.Inbox.{
  Inbox, read_chunks, buffer_one_chunk, chunk_fuel, unpack_message, pop,
}
use neo4j_python_driver.Chunking.Outbox.{Outbox, append_message}
use neo4j_python_driver.Chunking.Framing.{IsChunk, concat, framed, noops, read_chunks-noops, Taken}
use neo4j_python_driver.Chunking.Messages.{IsReady, append_message_ok, Reads-structure_header}

-- An inbox between two messages: not broken, and nothing in its buffer.
pub record IsIdle (inbox : Inbox) : Type 0 where
  pub working : inbox.broken ≡ false
  pub unused : inbox.buffer.used ≡ 0
  pub at_start : inbox.buffer.p ≡ 0

payload-Ahead :
    (b : UnpackableBuffer) (xs : List ℕ)
    → payload b ≡ xs
    → b.p ≡ 0
    → IsSound b
    → Ahead b xs (drop b.used b.content)
payload-Ahead b xs e start sound = (
  ap (λ (n : ℕ). drop n b.content) start
      ∙ sym (take-append-drop b.used b.content)
      ∙ ap (λ (l : List ℕ). l ++ drop b.used b.content) e,
  omega (arith, start, ap length e, length-take b.used b.content),
)

length-concat-framed : (cs : List (List ℕ)) → All IsChunk cs → length cs + 1 < length (framed cs)
length-concat-framed [] h = unfold be in omega arith
length-concat-framed (c ∷ cs) (ch, chs) = omega (
  arith,
  length-concat-framed cs chs,
  length-append (be 2 (length c)) (c ++ framed cs),
  length-append c (framed cs),
  length-be 2 (length c),
)

length-noops : (k : ℕ) → length (noops k) ≡ k + k
unfolding be
length-noops zero = omega arith
length-noops (suc k) = omega (arith, length-noops k)

buffer_one_chunk_ok :
    (inbox : Inbox) (b : UnpackableBuffer) (sock : Socket)
    → inbox.broken ≡ false
    → read_chunks (chunk_fuel inbox.socket) 0 inbox.socket inbox.buffer ≡ ok (b, sock)
    → buffer_one_chunk inbox ≡ (record { socket = sock; buffer = b; broken = false }, none)
unfolding buffer_one_chunk
buffer_one_chunk_ok inbox b sock working r = ground arith

pop-eq :
    (hydrate : Value → Value) (fuel : ℕ) (inbox inbox' : Inbox)
    → buffer_one_chunk inbox ≡ (inbox', none)
    → pop hydrate fuel inbox
      ≡ (record inbox' { buffer = reset inbox'.buffer }, unpack_message hydrate fuel inbox'.buffer)
unfolding pop
pop-eq hydrate fuel inbox inbox' e = ground arith

-- One message is taken in whole, behind any number of NOOPs.
buffer_one_chunk_lem :
    (inbox : Inbox) (k : ℕ) (c : List ℕ) (cs : List (List ℕ)) (rest : List ℕ)
    → IsIdle inbox
    → All IsChunk (c ∷ cs)
    → stream inbox.socket ≡ noops k ++ (framed (c ∷ cs) ++ rest)
    → IsOpen inbox.socket
    → IsSound inbox.buffer
    → (b : UnpackableBuffer) × (sock : Socket) × (buffer_one_chunk inbox
        ≡ (record { socket = sock; buffer = b; broken = false }, none))
      × Taken inbox.buffer b sock (concat (c ∷ cs)) rest
unfolding buffer_one_chunk
buffer_one_chunk_lem inbox k c cs rest idle (ch, chs) e op sound =
    let (b, sock, r, taken) =
      read_chunks-noops k c cs (chunk_fuel inbox.socket) inbox.socket inbox.buffer rest
        (omega (
          arith,
          ap length e,
          length-append (noops k) (framed (c ∷ cs) ++ rest),
          length-append (framed (c ∷ cs)) rest,
          length-noops k,
          length-concat-framed (c ∷ cs) (ch, chs),
        ))
        ch chs e op sound in
    (b, sock, buffer_one_chunk_ok inbox b sock idle.working r, taken)

module _ (tuple_items : ℕ → Option Items) (hooks : Hooks) (fuel : ℕ) (tag : List ℕ) (fields : Items)
    (plain : PlainItems fields)
    (packed : (pack_struct tuple_items hooks fuel tag fields).failed ≡ none) where
  unpack_message_lem :
      (b : UnpackableBuffer)
      → payload b ≡ (pack_struct tuple_items hooks fuel tag fields).out
      → b.p ≡ 0
      → IsSound b
      → unpack_message (λ v. v) fuel b ≡ ok (tag, fields)
  unfolding unpack_message pack_struct
  unpack_message_lem b e start sound =
      let pack = pack_value tuple_items (inject_hooks tuple_items hooks) fuel in
      let (one, small, ok_fields, whole) = struct-inv pack tag fields packed in
      let head : List ℕ = (0xb0 + size_items fields) ∷ tag in
      let body : List ℕ = (pack_items pack fields).out in
      let rest : List ℕ = drop b.used b.content in
      let ahead : Ahead b (head ++ body) rest =
        payload-Ahead b (head ++ body) (e ∙ whole) start sound in
      let h =
        Reads-structure_header (size_items fields) tag small one b (body ++ rest)
          (Ahead-left b head body rest ahead) in
      let i =
        items-Reads pack (unpack (λ v. v) fuel)
          (unpack-pack_value tuple_items (inject_hooks tuple_items hooks) fuel) fields plain
          ok_fields (advance b (length head)) rest (Ahead-right b head body rest ahead) in
      rw (h, unpack_message) (rw i)

  -- The wire format of the packed message is popped as the tag and the fields.
  pop-framed :
      (k : ℕ) (cs : List (List ℕ)) (rest : List ℕ) (inbox : Inbox)
      → concat cs ≡ (pack_struct tuple_items hooks fuel tag fields).out
      → All IsChunk cs
      → IsIdle inbox
      → stream inbox.socket ≡ noops k ++ (framed cs ++ rest)
      → IsOpen inbox.socket
      → let (inbox', popped) = pop (λ v. v) fuel inbox in
        (popped ≡ ok (tag, fields))
        × (stream inbox'.socket ≡ rest)
        × IsOpen inbox'.socket
        × IsIdle inbox'
  unfolding reset pack_struct
  pop-framed k [] rest inbox e chs idle st op = absurd (
      cc
        (struct-inv (pack_value tuple_items (inject_hooks tuple_items hooks) fuel) tag fields
          packed).3)
  pop-framed k (c ∷ cs) rest inbox e chs idle st op =
      let (b, sock, r, (whole, start, sound, st', op')) =
        buffer_one_chunk_lem inbox k c cs rest idle chs st op (omega (arith, idle.unused)) in
      let content : payload b ≡ (pack_struct tuple_items hooks fuel tag fields).out =
        whole ∙ ap (λ (n : ℕ). take n inbox.buffer.content ++ concat (c ∷ cs)) idle.unused ∙ e in
      let inbox' : Inbox = record { socket = sock; buffer = b; broken = false } in
      rw (pop-eq (λ v. v) fuel inbox inbox' r) (
        unpack_message_lem b content (start ∙ idle.at_start) sound,
        st',
        op',
        record { working = refl; unused = refl; at_start = refl },
      )

  -- The message layer delivers. An outbox between two messages takes a message whose fields are plain
  -- and whose packing succeeds. It keeps the data that it had, and is ready for the next message. What
  -- it appends to that data, sent behind any number of NOOPs and in front of any other bytes, and cut
  -- into pieces in any way by a network that does not close the connection, makes an idle inbox return
  -- the tag and the fields; the other bytes stay in the socket, and the inbox is idle again.
  pub pop-append_message :
      (o : Outbox) (k : ℕ) (rest : List ℕ) (inbox : Inbox)
      → IsReady o
      → IsIdle inbox
      → IsOpen inbox.socket
      → stream inbox.socket
        ≡ noops k
          ++ (drop
                (length o.chunked_data)
                (append_message tuple_items o fuel tag fields hooks).0.chunked_data
              ++ rest)
      → let o' = (append_message tuple_items o fuel tag fields hooks).0 in
        let (inbox', popped) = pop (λ v. v) fuel inbox in
        (popped ≡ ok (tag, fields))
        × (stream inbox'.socket ≡ rest)
        × IsOpen inbox'.socket
        × IsIdle inbox'
        × (take (length o.chunked_data) o'.chunked_data ≡ o.chunked_data)
        × IsReady o'
  pop-append_message o k rest inbox ready idle op st =
      let (cs, appended, content, chunks, ready') =
        append_message_ok tuple_items o fuel tag fields hooks ready packed in
      let wire =
        ap (drop (length o.chunked_data)) appended ∙ drop-append o.chunked_data (framed cs) in
      let (popped, left, op', idle') =
        pop-framed k cs rest inbox content chunks idle
          (st ∙ ap (λ (l : List ℕ). noops k ++ (l ++ rest)) wire) op in
      (
        popped,
        left,
        op',
        idle',
        ap (take (length o.chunked_data)) appended ∙ take-append o.chunked_data (framed cs),
        ready',
      )
