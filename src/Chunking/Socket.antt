-- ===== src/Chunking/Socket.antt =====
-- The receiving side of a socket, and `receive_into_buffer`.
use neo4j_python_driver.Base.{
  ℕ, zero, suc, ◌+◌, ◌-◌, ◌≤◌, ◌≡◌, refl, sym, ap, ◌∙◌, List, [], ◌∷◌, ◌++◌, Result, ok, err, ltb,
  if◌then◌else◌, length, take, drop, replicate, length-append, arith, take-past, drop-past,
  take-append-drop, append_assoc, length-take,
}
use neo4j_python_driver.Packstream.Unpack.{UnpackableBuffer}

-- What is still to arrive, in the pieces in which the network delivers it. An empty piece, or no
-- piece, is the end of the stream.
abbrev pub Socket : Type 0
Socket = List (List ℕ)

abbrev pub stream : Socket → List ℕ
stream [] = []
stream (s ∷ ss) = s ++ stream ss

unfoldable pub put_back : List ℕ → Socket → Socket
put_back [] ss = ss
put_back (x ∷ xs) ss = (x ∷ xs) ∷ ss

-- `recv_into` with room for `n` bytes.
unfoldable pub recv : ℕ → Socket → List ℕ × Socket
unfolding put_back
recv n [] = ([], [])
recv n (s ∷ ss) = (take n s, put_back (drop n s) ss)

-- The `OSError` of a connection that has been closed, and a loop that goes on for longer than its fuel.
pub data ReceiveError : Type 0 where
  closed endless : ReceiveError

-- What the loop does once `recv` has returned, and what follows it.
unfoldable pub add_received :
    List ℕ → Result ReceiveError (List ℕ × Socket) → Result ReceiveError (List ℕ × Socket)
add_received [] rest = err closed
add_received (b ∷ bs) (err e) = err e
add_received (b ∷ bs) (ok (more, sock)) = ok ((b ∷ bs) ++ more, sock)

-- `while buffer.used < end`: the bytes that were received. Each round takes a byte at least, so `need`
-- rounds are enough.
unfoldable pub receive_loop : ℕ → ℕ → Socket → Result ReceiveError (List ℕ × Socket)
unfolding add_received
receive_loop fuel zero sock = ok ([], sock)
receive_loop zero (suc need) sock = err endless
receive_loop (suc fuel) (suc need) sock =
    let (got, sock') = recv (suc need) sock in
    let rest = receive_loop fuel (suc need - length got) sock' in add_received got rest

-- `buffer.data` grows by zeros if it is too short.
unfoldable pub grow : ℕ → List ℕ → List ℕ
grow end content =
    if ltb (length content) end then content ++ replicate (end - length content) 0 else content

-- The bytes are written behind the used part.
unfoldable pub store : UnpackableBuffer → List ℕ → UnpackableBuffer
store b bs = record b {
  content = take b.used b.content ++ (bs ++ drop (b.used + length bs) b.content);
  used = b.used + length bs;
}

unfoldable pub receive_into_buffer :
    Socket → UnpackableBuffer → ℕ → Result ReceiveError (UnpackableBuffer × Socket)
receive_into_buffer sock b n = elim (receive_loop n n sock) [
  | err e ↦ err e
  | ok (bs, sock') ↦ ok (store (record b { content = grow (b.used + n) b.content }) bs, sock')
]

-- No piece is empty: the connection has not been closed.
abbrev pub IsOpen : Socket → Type 0
IsOpen [] = Unit {0}
IsOpen (s ∷ ss) = (1 ≤ length s) × IsOpen ss

pub put_back-stream : (xs : List ℕ) (ss : Socket) → stream (put_back xs ss) ≡ xs ++ stream ss
unfolding put_back
put_back-stream [] ss = refl
put_back-stream (x ∷ xs) ss = refl

put_back-IsOpen : (xs : List ℕ) (ss : Socket) → IsOpen ss → IsOpen (put_back xs ss)
unfolding put_back
put_back-IsOpen [] ss h = h
put_back-IsOpen (x ∷ xs) ss h = (omega arith, h)

pieces : (x need : ℕ) (s t : List ℕ) → (x ∷ s) ++ t ≡ (x ∷ take need s) ++ (drop need s ++ t)
pieces x need s t =
    ap (λ (l : List ℕ). x ∷ (l ++ t)) (sym (take-append-drop need s))
    ∙ ap (◌∷◌ x) (append_assoc (take need s) (drop need s) t)

-- However the stream is cut into pieces, the loop receives its first `need` bytes.
pub receive_loop_lem :
    (fuel need : ℕ) (sock : Socket)
    → need ≤ fuel
    → need ≤ length (stream sock)
    → IsOpen sock
    → (sock' : Socket) × (receive_loop fuel need sock ≡ ok (take need (stream sock), sock'))
      × (stream sock' ≡ drop need (stream sock))
      × IsOpen sock'
unfolding receive_loop recv
receive_loop_lem zero zero sock f len op = (sock, refl, refl, op)
receive_loop_lem (suc fuel) zero sock f len op = (sock, refl, refl, op)
receive_loop_lem zero (suc need) sock f len op = absurd (omega arith)
receive_loop_lem (suc fuel) (suc need) [] f len op = absurd (omega arith)
receive_loop_lem (suc fuel) (suc need) ([] ∷ ss) f len op = absurd (omega arith)
receive_loop_lem (suc fuel) (suc need) ((x ∷ s) ∷ ss) f len op =
    let got : List ℕ = x ∷ take need s in
    let rest : List ℕ = drop need s ++ stream ss in
    let later : Socket = put_back (drop need s) ss in
    let fits : length got ≤ suc need = omega (arith, length-take need s) in
    let split : (x ∷ s) ++ stream ss ≡ got ++ rest = pieces x need s (stream ss) in
    let after : stream later ≡ rest = put_back-stream (drop need s) ss in
    let (sock', e, st, op') =
      receive_loop_lem fuel (suc need - length got) later (omega arith)
        (omega (arith, ap length split, length-append got rest, ap length after))
        (put_back-IsOpen (drop need s) ss op.1) in
    (
      sock',
      rw (e, add_received)
          (ap (λ (l : List ℕ). ok (l, sock'))
            (sym (
              ap (take (suc need)) split
              ∙ take-past (suc need) got rest fits
              ∙ ap (λ (l : List ℕ). got ++ take (suc need - length got) l) (sym after)))),
      st
          ∙ ap (drop (suc need - length got)) after
          ∙ sym (ap (drop (suc need)) split ∙ drop-past (suc need) got rest fits),
      op',
    )
