-- ===== src/Chunking/Framing.antt =====
-- Messages cut into chunks: what the outbox writes and what the inbox makes of it.
use neo4j_python_driver.Base.{
  ℕ, zero, suc, ◌+◌, ◌≤◌, ◌<◌, ◌≡◌, refl, sym, ap, ◌∙◌, List, [], ◌∷◌, ◌++◌, ok, length, All, arith,
  length-append, append_assoc, append-nil,
}
use neo4j_python_driver.Packstream.Value.{be, length-be}
use neo4j_python_driver.Packstream.Unpack.{UnpackableBuffer}
use neo4j_python_driver.Chunking.Socket.{Socket, stream, IsOpen}
use neo4j_python_driver.Chunking.Buffer.{payload, IsSound, receive_into_buffer_lem, pop_u16_lem}
use neo4j_python_driver.Chunking.Inbox.{receive_and_pop, read_chunks}

abbrev pub IsChunk : List ℕ → Type 0
IsChunk c = (1 ≤ length c) × (length c < 65536)

abbrev pub concat : List (List ℕ) → List ℕ
concat [] = []
concat (c ∷ cs) = c ++ concat cs

-- The size of the first chunk, or the end marker 0; and what follows that size.
abbrev first_size : List (List ℕ) → ℕ
first_size [] = 0
first_size (c ∷ cs) = length c

-- The wire format: each chunk behind its size, and a size of 0 at the end.
abbrev pub framed : List (List ℕ) → List ℕ
framed [] = be 2 0
framed (c ∷ cs) = be 2 (length c) ++ (c ++ framed cs)

abbrev pub noops : ℕ → List ℕ
noops zero = []
noops (suc k) = be 2 0 ++ noops k

-- The buffer has taken `bs` in and the socket is about to deliver `rest`.
abbrev pub Taken : UnpackableBuffer → UnpackableBuffer → Socket → List ℕ → List ℕ → Type 0
Taken b b' sock bs rest =
    (payload b' ≡ payload b ++ bs) × (b'.p ≡ b.p) × IsSound b' × (stream sock ≡ rest) × IsOpen sock

receive_and_pop_lem :
    (sock : Socket) (b : UnpackableBuffer) (bs : List ℕ) (size : ℕ) (rest : List ℕ)
    → stream sock ≡ bs ++ (be 2 size ++ rest)
    → size < 65536
    → IsOpen sock
    → IsSound b
    → (b' : UnpackableBuffer) × (sock' : Socket) × (receive_and_pop (length bs + 2) sock b
        ≡ ok (size, b', sock'))
      × Taken b b' sock' bs rest
unfolding receive_and_pop
receive_and_pop_lem sock b bs size rest e small op sound =
    let got : List ℕ = bs ++ be 2 size in
    let n : length got ≡ length bs + 2 =
      omega (arith, length-append bs (be 2 size), length-be 2 size) in
    let (b', sock', r, whole, used, p, sound', st, op') =
      receive_into_buffer_lem sock b got rest (e ∙ sym (append_assoc bs (be 2 size) rest)) op
        sound in
    let whole' : payload b' ≡ (payload b ++ bs) ++ be 2 size =
      whole ∙ sym (append_assoc (payload b) bs (be 2 size)) in
    let (popped, left, used') = pop_u16_lem b' (payload b ++ bs) size sound' small whole' in
    (
      record b' { used = length (payload b ++ bs) },
      sock',
      rw (← n, r, receive_and_pop) (rw popped),
      (left, p, omega (arith, used'), st, op'),
    )

-- What follows the size of the first chunk.
abbrev behind_size : List (List ℕ) → List ℕ
behind_size [] = []
behind_size (c ∷ cs) = c ++ framed cs

framed_lem : (cs : List (List ℕ)) → framed cs ≡ be 2 (first_size cs) ++ behind_size cs
framed_lem [] = sym (append-nil (be 2 0))
framed_lem (c ∷ cs) = refl

Taken-append :
    (b b' b'' : UnpackableBuffer) (sock sock' : Socket) (bs mid cs rest : List ℕ)
    → Taken b b' sock bs mid
    → Taken b' b'' sock' cs rest
    → Taken b b'' sock' (bs ++ cs) rest
Taken-append b b' b'' sock sock' bs mid cs rest t u = (
  u.0 ∙ ap (λ (l : List ℕ). l ++ cs) t.0 ∙ append_assoc (payload b) bs cs,
  u.1 ∙ t.1,
  u.2,
  u.3,
  u.4,
)

-- In front of a chunk whose size has been read: this chunk and the following are taken in.
read_chunks-framed :
    (cs : List (List ℕ)) (c : List ℕ) (fuel : ℕ) (sock : Socket) (b : UnpackableBuffer)
    (rest : List ℕ)
    → length cs < fuel
    → IsChunk c
    → All IsChunk cs
    → stream sock ≡ c ++ (framed cs ++ rest)
    → IsOpen sock
    → IsSound b
    → (b' : UnpackableBuffer) × (sock' : Socket) × (read_chunks fuel (length c) sock b
        ≡ ok (b', sock'))
      × Taken b b' sock' (c ++ concat cs) rest
unfolding read_chunks
read_chunks-framed cs c zero sock b rest f ch chs e op sound = absurd (omega arith)
read_chunks-framed cs [] (suc fuel) sock b rest f ch chs e op sound = absurd (omega arith)
read_chunks-framed [] (x ∷ c) (suc fuel) sock b rest f ch chs e op sound =
    let (b', sock', r, taken) =
      receive_and_pop_lem sock b (x ∷ c) 0 rest e (omega arith) op sound in
    (b', sock', rw (r, read_chunks), rw append-nil taken)
read_chunks-framed ([] ∷ cs) (x ∷ c) (suc fuel) sock b rest f ch (dch, chs) e op sound =
    absurd (omega arith)
read_chunks-framed ((y ∷ d') ∷ cs) (x ∷ c) (suc fuel) sock b rest f ch (dch, chs) e op sound =
    let d : List ℕ = y ∷ d' in
    let mid : List ℕ = d ++ (framed cs ++ rest) in
    let (b₁, sock₁, r, taken) =
      receive_and_pop_lem sock b (x ∷ c) (length d) mid
        (e
          ∙ ap (λ (l : List ℕ). (x ∷ c) ++ l)
              (append_assoc (be 2 (length d)) (d ++ framed cs) rest
                ∙ ap (λ (l : List ℕ). be 2 (length d) ++ l) (append_assoc d (framed cs) rest)))
        dch.1 op sound in
    let (b₂, sock₂, r', taken') =
      read_chunks-framed cs d fuel sock₁ b₁ rest (omega arith) dch chs taken.3 taken.4 taken.2 in
    (
      b₂,
      sock₂,
      rw (r, read_chunks) r',
      Taken-append b b₁ b₂ sock₁ sock₂ (x ∷ c) mid (d ++ concat cs) rest taken taken',
    )

-- NOOPs in front of a message are skipped, and then the whole message is taken in: at least one
-- chunk, and the end marker behind the last.
pub read_chunks-noops :
    (k : ℕ) (c : List ℕ) (cs : List (List ℕ)) (fuel : ℕ) (sock : Socket) (b : UnpackableBuffer)
    (rest : List ℕ)
    → k + length cs + 1 < fuel
    → IsChunk c
    → All IsChunk cs
    → stream sock ≡ noops k ++ (framed (c ∷ cs) ++ rest)
    → IsOpen sock
    → IsSound b
    → (b' : UnpackableBuffer) × (sock' : Socket) × (read_chunks fuel 0 sock b ≡ ok (b', sock'))
      × Taken b b' sock' (c ++ concat cs) rest
unfolding read_chunks
read_chunks-noops k c cs zero sock b rest f ch chs e op sound = absurd (omega arith)
read_chunks-noops zero c cs (suc fuel) sock b rest f ch chs e op sound =
    let mid : List ℕ = c ++ (framed cs ++ rest) in
    let (b₁, sock₁, r, taken) =
      receive_and_pop_lem sock b [] (length c) mid
        (e
          ∙ append_assoc (be 2 (length c)) (c ++ framed cs) rest
          ∙ ap (λ (l : List ℕ). be 2 (length c) ++ l) (append_assoc c (framed cs) rest))
        ch.1 op sound in
    let (b₂, sock₂, r', taken') =
      read_chunks-framed cs c fuel sock₁ b₁ rest (omega arith) ch chs taken.3 taken.4 taken.2 in
    (
      b₂,
      sock₂,
      rw (r, read_chunks) r',
      Taken-append b b₁ b₂ sock₁ sock₂ [] mid (c ++ concat cs) rest taken taken',
    )
read_chunks-noops (suc k) c cs (suc fuel) sock b rest f ch chs e op sound =
    let mid : List ℕ = noops k ++ (framed (c ∷ cs) ++ rest) in
    let (b₁, sock₁, r, taken) =
      receive_and_pop_lem sock b [] 0 mid
        (e ∙ append_assoc (be 2 0) (noops k) (framed (c ∷ cs) ++ rest)) (omega arith) op sound in
    let (b₂, sock₂, r', taken') =
      read_chunks-noops k c cs fuel sock₁ b₁ rest (omega arith) ch chs taken.3 taken.4 taken.2 in
    (
      b₂,
      sock₂,
      rw (r, read_chunks) r',
      Taken-append b b₁ b₂ sock₁ sock₂ [] mid (c ++ concat cs) rest taken taken',
    )
