-- ===== src/Chunking/Buffer.antt =====
-- The buffer of an inbox while a message arrives: its used part is the payload so far.
use neo4j_python_driver.Base.{
  ℕ, ◌+◌, ◌-◌, ◌/◌, ◌%◌, ◌≤◌, ◌<◌, ◌≡◌, refl, sym, ap, ◌∙◌, List, [], ◌∷◌, ◌++◌, some, ok, length,
  take, drop, replicate, get_elem?, arith, length-append, length-take, length-replicate,
  take-append, drop-append, take-append-drop, take-within, take-past, get_elem?-take,
  get_elem?-append, append_assoc,
}
use neo4j_python_driver.Packstream.Value.{be}
use neo4j_python_driver.Packstream.Unpack.{UnpackableBuffer, pop_u16}
use neo4j_python_driver.Chunking.Socket.{
  Socket, stream, IsOpen, grow, store, receive_loop, receive_into_buffer, receive_loop_lem,
}

abbrev pub payload : UnpackableBuffer → List ℕ
payload b = take b.used b.content

abbrev pub IsSound : UnpackableBuffer → Type 0
IsSound b = b.used ≤ length b.content

grow_lem :
    (end : ℕ) (content : List ℕ) (n : ℕ)
    → n ≤ length content
    → (take n (grow end content) ≡ take n content)
      × (n ≤ length (grow end content))
      × (end ≤ length (grow end content))
unfolding grow
grow_lem end content n h = ground (
  arith,
  take-within n content (replicate (end - length content) 0) h,
  length-append content (replicate (end - length content) 0),
  length-replicate {A = ℕ} (end - length content) 0,
)

store_lem :
    (b : UnpackableBuffer) (bs : List ℕ)
    → IsSound b
    → (payload (store b bs) ≡ payload b ++ bs) × IsSound (store b bs)
unfolding store
store_lem b bs h =
    let front : List ℕ = take b.used b.content in
    let back : List ℕ = drop (b.used + length bs) b.content in
    let size : length front ≡ b.used = omega (arith, length-take b.used b.content) in
    (
      take-past (b.used + length bs) front (bs ++ back) (omega arith)
          ∙ ap (λ (n : ℕ). front ++ take n (bs ++ back)) (omega arith)
          ∙ ap (λ (l : List ℕ). front ++ l) (take-append bs back),
      omega (arith, length-append front (bs ++ back), length-append bs back),
    )

-- Receiving appends the next bytes of the stream to the payload.
pub receive_into_buffer_lem :
    (sock : Socket) (b : UnpackableBuffer) (bs rest : List ℕ)
    → stream sock ≡ bs ++ rest
    → IsOpen sock
    → IsSound b
    → (b' : UnpackableBuffer) × (sock' : Socket) × (receive_into_buffer sock b (length bs)
        ≡ ok (b', sock'))
      × (payload b' ≡ payload b ++ bs)
      × (b'.used ≡ b.used + length bs)
      × (b'.p ≡ b.p)
      × IsSound b'
      × (stream sock' ≡ rest)
      × IsOpen sock'
unfolding receive_into_buffer store
receive_into_buffer_lem sock b bs rest e op sound =
    let (sock', r, st, op') =
      receive_loop_lem (length bs) (length bs) sock (omega arith)
        (omega (arith, ap length e, length-append bs rest)) op in
    let grown : UnpackableBuffer = record b { content = grow (b.used + length bs) b.content } in
    let (same, fits, _) = grow_lem (b.used + length bs) b.content b.used sound in
    let (whole, sound') = store_lem grown bs fits in
    let received : receive_loop (length bs) (length bs) sock ≡ ok (bs, sock') =
      r ∙ ap (λ (l : List ℕ). ok (l, sock')) (ap (take (length bs)) e ∙ take-append bs rest) in
    (
      store grown bs,
      sock',
      rw (received, receive_into_buffer),
      whole ∙ ap (λ (l : List ℕ). l ++ bs) same,
      refl,
      refl,
      sound',
      st ∙ ap (drop (length bs)) e ∙ drop-append bs rest,
      op',
    )

get_elem?-payload :
    (b : UnpackableBuffer) (xs ys : List ℕ) (y : ℕ)
    → IsSound b
    → payload b ≡ xs ++ (y ∷ ys)
    → get_elem? b.content (length xs) ≡ some y
get_elem?-payload b xs ys y sound e =
    let size = ap length e ∙ length-append xs (y ∷ ys) in
    sym (
      get_elem?-take b.used (length xs) b.content
        (omega (arith, size, length-take b.used b.content)))
    ∙ ap (λ (l : List ℕ). get_elem? l (length xs)) e
    ∙ get_elem?-append xs ys y

-- The last two bytes of the payload are taken off as a number.
pub pop_u16_lem :
    (b : UnpackableBuffer) (xs : List ℕ) (n : ℕ)
    → IsSound b
    → n < 65536
    → payload b ≡ xs ++ be 2 n
    → (pop_u16 b ≡ ok (some n, record b { used = length xs }))
      × (payload (record b { used = length xs }) ≡ xs)
      × (b.used ≡ length xs + 2)
unfolding pop_u16 be
pop_u16_lem b xs n sound small e =
    let high : ℕ = n / 256 % 256 in
    let low : ℕ = n % 256 in
    let used : b.used ≡ length xs + 2 =
      omega
        (arith, length-take b.used b.content, ap length e, length-append xs (high ∷ low ∷ [])) in
    let first : get_elem? b.content (length xs) ≡ some high =
      get_elem?-payload b xs (low ∷ []) high sound e in
    let second : get_elem? b.content (length (xs ++ (high ∷ []))) ≡ some low =
      get_elem?-payload b (xs ++ (high ∷ [])) [] low sound
        (e ∙ sym (append_assoc xs (high ∷ []) (low ∷ []))) in
    (
      ground (arith, used, first, second, length-append xs (high ∷ [])),
      ap (take (length xs)) (sym (take-append-drop b.used b.content))
          ∙ ap (λ (l : List ℕ). take (length xs) (l ++ drop b.used b.content)) e
          ∙ ap (take (length xs)) (append_assoc xs (high ∷ low ∷ []) (drop b.used b.content))
          ∙ take-append xs _,
      used,
    )
