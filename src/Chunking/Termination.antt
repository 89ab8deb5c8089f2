-- ===== src/Chunking/Termination.antt =====
-- The loops of the inbox end on every input: the fuel that they are given is always enough.
use neo4j_python_driver.Base.{
  ℕ, zero, suc, ◌+◌, ◌-◌, ◌≤◌, ◌<◌, ◌≡◌, ◌≢◌, refl, ap, List, [], ◌∷◌, some, Result, ok, err,
  length, drop, length-append, length-take, length-drop, arith, ◌⊎◌, inl, inr,
}
use neo4j_python_driver.Packstream.Unpack.{UnpackableBuffer}
use neo4j_python_driver.Chunking.Socket.{
  Socket, stream, recv, receive_loop, receive_into_buffer, put_back-stream, add_received,
  ReceiveError, endless,
}
use neo4j_python_driver.Chunking.Inbox.{
  Inbox, InboxError, stuck, receive_and_pop, read_chunks, chunk_fuel, buffer_one_chunk,
}

-- A call of `recv` takes what it returns off the stream.
recv_lem :
    (n : ℕ) (sock : Socket)
    → length (stream sock) ≡ length (recv n sock).0 + length (stream (recv n sock).1)
unfolding recv
recv_lem n [] = omega arith
recv_lem n (s ∷ ss) = omega (
  arith,
  length-append s (stream ss),
  ap length (put_back-stream (drop n s) ss),
  length-append (drop n s) (stream ss),
  length-take n s,
  length-drop n s,
)

length-recv : (n : ℕ) (sock : Socket) → length (recv n sock).0 ≤ n
unfolding recv
length-recv n [] = omega arith
length-recv n (s ∷ ss) = omega (arith, length-take n s)

add_received-ok :
    (got : List ℕ) (rest : Result ReceiveError (List ℕ × Socket)) (bs : List ℕ) (sock : Socket)
    → add_received got rest ≡ ok (bs, sock)
    → (more : List ℕ) × (rest ≡ ok (more, sock))
unfolding add_received
add_received-ok [] rest bs sock e = absurd (ground arith)
add_received-ok (b ∷ got) (err f) bs sock e = absurd (ground arith)
add_received-ok (b ∷ got) (ok (more, s)) bs sock e = (more, ground arith)

add_received-ne-endless :
    (got : List ℕ) (rest : Result ReceiveError (List ℕ × Socket))
    → (1 ≤ length got → rest ≢ err endless)
    → add_received got rest ≢ err endless
unfolding add_received
add_received-ne-endless [] rest h e = ground arith
add_received-ne-endless (b ∷ got) (err f) h e = h (omega arith) (ground arith)
add_received-ne-endless (b ∷ got) (ok (more, s)) h e = ground arith

-- Each round takes a byte or raises.
receive_loop-ne-endless :
    (fuel need : ℕ) (sock : Socket) → need ≤ fuel → receive_loop fuel need sock ≢ err endless
unfolding receive_loop
receive_loop-ne-endless zero zero sock h e = ground arith
receive_loop-ne-endless (suc fuel) zero sock h e = ground arith
receive_loop-ne-endless zero (suc need) sock h e = absurd (omega arith)
receive_loop-ne-endless (suc fuel) (suc need) sock h e =
    let got : List ℕ = (recv (suc need) sock).0 in
    add_received-ne-endless got _
      (λ some_bytes.
        receive_loop-ne-endless fuel (suc need - length got) (recv (suc need) sock).1 (omega arith))
      e

-- The loop that succeeds has taken as many bytes as were needed.
receive_loop-length :
    (fuel need : ℕ) (sock sock' : Socket) (bs : List ℕ)
    → receive_loop fuel need sock ≡ ok (bs, sock')
    → length (stream sock) ≡ need + length (stream sock')
unfolding receive_loop
receive_loop-length zero zero sock sock' bs e = ground arith
receive_loop-length (suc fuel) zero sock sock' bs e = ground arith
receive_loop-length zero (suc need) sock sock' bs e = absurd (ground arith)
receive_loop-length (suc fuel) (suc need) sock sock' bs e =
    let got : List ℕ = (recv (suc need) sock).0 in
    let (more, r) = add_received-ok got _ bs sock' e in
    omega (
      arith,
      recv_lem (suc need) sock,
      length-recv (suc need) sock,
      receive_loop-length fuel (suc need - length got) (recv (suc need) sock).1 sock' more r,
    )

Received-cases :
    {A : Type 0} (r : Result ReceiveError A)
    → ((e : ReceiveError) × (r ≡ err e)) ⊎ ((a : A) × (r ≡ ok a))
Received-cases (err e) = inl (e, refl)
Received-cases (ok a) = inr (a, refl)

receive_and_pop-length :
    (n : ℕ) (sock sock' : Socket) (b b' : UnpackableBuffer) (size : ℕ)
    → receive_and_pop n sock b ≡ ok (size, b', sock')
    → length (stream sock) ≡ n + length (stream sock')
unfolding receive_and_pop receive_into_buffer
receive_and_pop-length n sock sock' b b' size e = elim (Received-cases (receive_loop n n sock)) [
  | inl (f, r) ↦ absurd (ground arith)
  | inr ((bs, s), r) ↦
      let same : s ≡ sock' = ground arith in
      omega
        (arith, receive_loop-length n n sock s bs r, ap (λ (t : Socket). length (stream t)) same)
]

receive_and_pop-ne-stuck :
    (n : ℕ) (sock : Socket) (b : UnpackableBuffer) → receive_and_pop n sock b ≢ err stuck
unfolding receive_and_pop receive_into_buffer
receive_and_pop-ne-stuck n sock b e = ground (arith, receive_loop-ne-endless n n sock (omega arith))

Result-cases :
    (r : Result InboxError (ℕ × UnpackableBuffer × Socket))
    → ((e : InboxError) × (r ≡ err e))
      ⊎ ((size : ℕ) × (b : UnpackableBuffer) × (s : Socket) × (r ≡ ok (size, b, s)))
Result-cases (err e) = inl (e, refl)
Result-cases (ok (size, b, s)) = inr (size, b, s, refl)

-- The same error under another result type.
rewrap :
    {A B : Type 0} {r : Result InboxError A} {e f : InboxError}
    → r ≡ err e
    → ◌≡◌ {A = Result InboxError B} (err e) (err f)
    → r ≡ err f
rewrap p q = cc

read_chunks-ne-stuck :
    (fuel size : ℕ) (sock : Socket) (b : UnpackableBuffer)
    → length (stream sock) < fuel
    → read_chunks fuel size sock b ≢ err stuck
unfolding read_chunks
read_chunks-ne-stuck zero size sock b h = absurd (omega arith)
read_chunks-ne-stuck (suc fuel) zero sock b h = elim (Result-cases (receive_and_pop 2 sock b)) [
  | inl (e, r) ↦ rw (r, read_chunks) (λ x. receive_and_pop-ne-stuck 2 sock b (rewrap r x))
  | inr (size, b', s, r) ↦
      rw (r, read_chunks)
        (read_chunks-ne-stuck fuel size s b'
          (omega (arith, receive_and_pop-length 2 sock s b b' size r)))
]
read_chunks-ne-stuck (suc fuel) (suc n) sock b h =
    elim (Result-cases (receive_and_pop (suc n + 2) sock b)) [
      | inl (e, r) ↦
          rw (r, read_chunks) (λ x. receive_and_pop-ne-stuck (suc n + 2) sock b (rewrap r x))
      | inr (zero, b', s, r) ↦ rw (r, read_chunks) (λ x. cc)
      | inr (suc size, b', s, r) ↦
          rw (r, read_chunks)
            (read_chunks-ne-stuck fuel (suc size) s b'
              (omega (arith, receive_and_pop-length (suc n + 2) sock s b b' (suc size) r)))
    ]

-- Whatever bytes arrive, in whatever pieces, and also if the connection is closed in the middle of
-- a chunk: reading a message ends, with a message or with an error of the source.
pub buffer_one_chunk-ne-stuck : (inbox : Inbox) → (buffer_one_chunk inbox).1 ≢ some stuck
unfolding buffer_one_chunk
buffer_one_chunk-ne-stuck inbox e = ground (
  arith,
  read_chunks-ne-stuck (chunk_fuel inbox.socket) 0 inbox.socket inbox.buffer (omega arith),
)
