-- ===== src/Chunking/Pieces.antt =====
-- `_chunk_data` cuts the packed data into chunks that hold all of it.
use neo4j_python_driver.Base.{
  ℕ, zero, suc, ◌+◌, ◌-◌, ◌*◌, ◌≤◌, ◌<◌, ◌≡◌, refl, sym, ap, ◌∙◌, List, [], ◌∷◌, ◌++◌, length, take,
  drop, min, All, arith, length-take, length-drop, take-append-drop, drop-drop, drop-nil,
  append_assoc,
}
use neo4j_python_driver.Packstream.Value.{be}
use neo4j_python_driver.Chunking.Framing.{IsChunk, concat, framed}
use neo4j_python_driver.Chunking.Outbox.{chunk_loop, num_chunks}
use native.Mathlib.Nat.{div-add-mod, mod-lt}

-- The chunks of the loop.
unfoldable pub pieces : ℕ → ℕ → ℕ → List ℕ → List (List ℕ)
pieces zero raw_start max_size content = []
pieces (suc n) raw_start max_size content =
    let size = min (length content - raw_start) max_size in
    take size (drop raw_start content) ∷ pieces n (raw_start + size) max_size content

-- As many rounds as the data needs, and no more.
pub num_chunks_lem :
    (len max_size : ℕ)
    → 1 ≤ max_size
    → (len ≤ num_chunks len max_size * max_size)
      × (num_chunks len max_size * max_size < len + max_size)
unfolding num_chunks
num_chunks_lem len max_size pos =
    ground (arith, div-add-mod len max_size, mod-lt len {m = max_size})

drop_all : (n : ℕ) (xs : List ℕ) → length xs ≤ n → drop n xs ≡ []
drop_all n [] h = drop-nil n
drop_all zero (x ∷ xs) h = absurd (omega arith)
drop_all (suc n) (x ∷ xs) h = drop_all n xs (omega arith)

module _ (max_size : ℕ) (content : List ℕ) (pos : 1 ≤ max_size) (fits : max_size < 65536) where
  piece_size :
      (raw_start : ℕ)
      → length (take (min (length content - raw_start) max_size) (drop raw_start content))
        ≡ min (length content - raw_start) max_size
  piece_size raw_start = omega (
    arith,
    length-take (min (length content - raw_start) max_size) (drop raw_start content),
    length-drop raw_start content,
  )

  -- The loop writes the wire format of its chunks.
  pub chunk_loop-framed :
      (n raw_start : ℕ)
      → chunk_loop n raw_start max_size content ++ (0 ∷ 0 ∷ [])
        ≡ framed (pieces n raw_start max_size content)
  unfolding chunk_loop pieces be
  chunk_loop-framed zero raw_start = refl
  chunk_loop-framed (suc n) raw_start =
      let size : ℕ = min (length content - raw_start) max_size in
      let piece : List ℕ = take size (drop raw_start content) in
      rw (piece_size raw_start) (
        ap (λ (l : List ℕ). be 2 size ++ l)
          (append_assoc piece (chunk_loop n (raw_start + size) max_size content) (0 ∷ 0 ∷ [])
            ∙ ap (λ (l : List ℕ). piece ++ l) (chunk_loop-framed n (raw_start + size))))

  pub pieces-IsChunk :
      (n raw_start : ℕ)
      → n * max_size < (length content - raw_start) + max_size
      → All IsChunk (pieces n raw_start max_size content)
  unfolding pieces
  pieces-IsChunk zero raw_start h = tt
  pieces-IsChunk (suc n) raw_start h = (
    (omega (arith, piece_size raw_start), omega (arith, piece_size raw_start)),
    pieces-IsChunk n (raw_start + min (length content - raw_start) max_size) (omega arith),
  )

  pub concat-pieces :
      (n raw_start : ℕ)
      → length content - raw_start ≤ n * max_size
      → concat (pieces n raw_start max_size content) ≡ drop raw_start content
  unfolding pieces
  concat-pieces zero raw_start h = sym (drop_all raw_start content (omega arith))
  concat-pieces (suc n) raw_start h =
      let size : ℕ = min (length content - raw_start) max_size in
      ap (λ (l : List ℕ). take size (drop raw_start content) ++ l)
        (concat-pieces n (raw_start + size) (omega arith) ∙ sym (drop-drop raw_start size content))
      ∙ take-append-drop size (drop raw_start content)
