-- ===== src/Packstream/Utf8.antt =====
-- Python's strict UTF-8 codec (`str.encode("utf-8")`, `codecs.decode(b, "utf-8")`), which the
-- packer and the unpacker call. A text is the list of its code points.
use neo4j_python_driver.Base.{
  ℕ, zero, suc, ◌+◌, ◌-◌, ◌*◌, ◌/◌, ◌%◌, ◌≤◌, ◌≡◌, refl, List, [], ◌∷◌, ◌++◌, Bool, not, ◌&&◌,
  Option, none, some, ltb, leb, if◌then◌else◌, length, Option-cases, inl, inr, length-append, arith,
}

is_surrogate : ℕ → Bool
is_surrogate c = leb 0xd800 c && ltb c 0xe000

-- A lone surrogate cannot be encoded.
unfoldable pub encode_char : ℕ → Option (List ℕ)
unfolding is_surrogate
encode_char c =
    if ltb c 0x80
    then some (c ∷ [])
    else if ltb c 0x800
    then some ((0xc0 + c / 64) ∷ (0x80 + c % 64) ∷ [])
    else if is_surrogate c
    then none
    else if ltb c 0x10000
    then some ((0xe0 + c / 4096) ∷ (0x80 + c / 64 % 64) ∷ (0x80 + c % 64) ∷ [])
    else if ltb c 0x110000
    then some
        ((0xf0 + c / 262144) ∷ (0x80 + c / 4096 % 64) ∷ (0x80 + c / 64 % 64) ∷ (0x80 + c % 64) ∷ [])
    else none

unfoldable pub encode : List ℕ → Option (List ℕ)
encode [] = some []
encode (c ∷ cs) = elim (encode_char c) [
  | none ↦ none
  | some front ↦ elim (encode cs) [ none ↦ none | some back ↦ some (front ++ back) ]
]

is_continuation : ℕ → Bool
is_continuation b = leb 0x80 b && ltb b 0xc0

decode_two : ℕ → List ℕ → Option (ℕ × List ℕ)
unfolding is_continuation
decode_two a [] = none
decode_two a (b ∷ r) =
    if leb 0xc2 a && is_continuation b then some ((a - 0xc0) * 64 + (b - 0x80), r) else none

decode_three : ℕ → List ℕ → Option (ℕ × List ℕ)
unfolding is_continuation is_surrogate
decode_three a [] = none
decode_three a (b ∷ []) = none
decode_three a (b ∷ c ∷ r) =
    let v = (a - 0xe0) * 4096 + (b - 0x80) * 64 + (c - 0x80) in
    if is_continuation b && is_continuation c && leb 0x800 v && not (is_surrogate v)
    then some (v, r)
    else none

decode_four : ℕ → List ℕ → Option (ℕ × List ℕ)
unfolding is_continuation
decode_four a [] = none
decode_four a (b ∷ []) = none
decode_four a (b ∷ c ∷ []) = none
decode_four a (b ∷ c ∷ d ∷ r) =
    let v = (a - 0xf0) * 262144 + (b - 0x80) * 4096 + (c - 0x80) * 64 + (d - 0x80) in
    if is_continuation b
      && is_continuation c
      && is_continuation d
      && leb 0x10000 v
      && ltb v 0x110000
    then some (v, r)
    else none

unfoldable pub decode_char : List ℕ → Option (ℕ × List ℕ)
unfolding decode_two decode_three decode_four
decode_char [] = none
decode_char (a ∷ r) =
    if ltb a 0x80
    then some (a, r)
    else if ltb a 0xe0
    then decode_two a r
    else if ltb a 0xf0
    then decode_three a r
    else decode_four a r

-- Each round takes a byte at least, so as many rounds as bytes are enough.
decode_loop : ℕ → List ℕ → Option (List ℕ)
decode_loop fuel [] = some []
decode_loop zero (b ∷ bs) = none
decode_loop (suc fuel) (b ∷ bs) = elim (decode_char (b ∷ bs)) [
  | none ↦ none
  | some (c, rest) ↦ elim (decode_loop fuel rest) [ none ↦ none | some cs ↦ some (c ∷ cs) ]
]

unfoldable pub decode : List ℕ → Option (List ℕ)
unfolding decode_loop decode_char
decode bs = decode_loop (length bs) bs

decode_char-encode_char :
    (c : ℕ) (bs r : List ℕ)
    → encode_char c ≡ some bs
    → (decode_char (bs ++ r) ≡ some (c, r)) × (1 ≤ length bs)
unfolding encode_char decode_char
decode_char-encode_char c bs r h = ground arith

decode_loop_step :
    (fuel c : ℕ) (bs rest cs : List ℕ)
    → 1 ≤ length bs
    → decode_char bs ≡ some (c, rest)
    → decode_loop fuel rest ≡ some cs
    → decode_loop (suc fuel) bs ≡ some (c ∷ cs)
unfolding decode_loop
decode_loop_step fuel c [] rest cs one h k = absurd (omega arith)
decode_loop_step fuel c (b ∷ bs) rest cs one h k = ground arith

decode_loop-append :
    (fuel c : ℕ) (front back cs : List ℕ)
    → encode_char c ≡ some front
    → length (front ++ back) ≤ fuel
    → ((f : ℕ) → length back ≤ f → decode_loop f back ≡ some cs)
    → decode_loop fuel (front ++ back) ≡ some (c ∷ cs)
decode_loop-append zero c front back cs e len ih =
    absurd (omega (arith, length-append front back, decode_char-encode_char c front back e))
decode_loop-append (suc fuel) c front back cs e len ih =
    let (read, one) = decode_char-encode_char c front back e in
    let sizes : length (front ++ back) ≡ length front + length back = length-append front back in
    decode_loop_step fuel c (front ++ back) back cs (omega arith) read (ih fuel (omega arith))

decode_loop-encode :
    (cs bs : List ℕ) (fuel : ℕ)
    → encode cs ≡ some bs
    → length bs ≤ fuel
    → decode_loop fuel bs ≡ some cs
unfolding encode decode_loop
decode_loop-encode [] [] zero h len = refl
decode_loop-encode [] [] (suc fuel) h len = refl
decode_loop-encode [] (b ∷ bs) fuel h len = cc
decode_loop-encode (c ∷ cs) bs fuel h len = elim (Option-cases (encode_char c)) [
  | inl e ↦ ground arith
  | inr (front, e) ↦ elim (Option-cases (encode cs)) [
    | inl e' ↦ ground arith
    | inr (back, e') ↦
        let whole : bs ≡ front ++ back = ground arith in
        rw whole (
          decode_loop-append fuel c front back cs e (rw whole at len)
            (λ f lt. decode_loop-encode cs back f e' lt))
  ]
]

-- What the codec encodes, it decodes.
pub decode-encode : (cs bs : List ℕ) → encode cs ≡ some bs → decode bs ≡ some cs
unfolding decode
decode-encode cs bs h = decode_loop-encode cs bs (length bs) h (omega arith)
