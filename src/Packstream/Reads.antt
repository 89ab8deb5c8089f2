-- ===== src/Packstream/Reads.antt =====
-- A calculus for the unpacker: which bytes a reader takes, and what it returns.
use neo4j_python_driver.Base.{
  ℕ, zero, suc, ◌+◌, ◌≤◌, ◌<◌, ◌^◌, ◌≡◌, sym, ap, subst, ◌∙◌, List, [], ◌∷◌, ◌++◌, append_assoc,
  some, ok, ==_refl, length, drop, get_elem?, length-append, take-append, drop-append, drop-drop,
  arith,
}
use neo4j_python_driver.Packstream.Value.{be, length-be, from_be-be}
use neo4j_python_driver.Packstream.Unpack.{
  UnpackableBuffer, Reader, ◌>>=◌, ret, advance, read, read_u8, read_uint,
}
use native.Mathlib.Nat.{add-zero}

-- The unread bytes are `xs`, then `ys`, and `xs` lies within the used part of the buffer.
abbrev pub Ahead : UnpackableBuffer → List ℕ → List ℕ → Type 0
Ahead b xs ys = (drop b.p b.content ≡ xs ++ ys) × (b.p + length xs ≤ b.used)

-- Wherever `xs` comes next, the reader takes exactly `xs` and returns `a`.
abbrev pub Reads : {A : Type 0} → Reader A → List ℕ → A → Type 0
Reads m xs a =
    (b : UnpackableBuffer) (ys : List ℕ) → Ahead b xs ys → m b ≡ ok (a, advance b (length xs))

pub Ahead-left :
    (b : UnpackableBuffer) (xs zs ys : List ℕ) → Ahead b (xs ++ zs) ys → Ahead b xs (zs ++ ys)
Ahead-left b xs zs ys (e, le) = (e ∙ append_assoc xs zs ys, omega (arith, length-append xs zs))

pub Ahead-right :
    (b : UnpackableBuffer) (xs zs ys : List ℕ)
    → Ahead b (xs ++ zs) ys
    → Ahead (advance b (length xs)) zs ys
Ahead-right b xs zs ys (e, le) = (
  sym (drop-drop b.p (length xs) b.content)
      ∙ ap (drop (length xs)) (e ∙ append_assoc xs zs ys)
      ∙ drop-append xs (zs ++ ys),
  omega (arith, length-append xs zs),
)

pub Reads-ret : {A : Type 0} (a : A) → Reads (ret a) [] a
Reads-ret a b ys h = ap (λ (n : ℕ). ok (a, record b { p = n })) (sym (add-zero b.p))

-- One step of a chain whose first reader has answered.
pub bind_step :
    {A B : Type 0} (m : Reader A) (f : A → Reader B) (b : UnpackableBuffer) (a : A)
    (b' : UnpackableBuffer)
    → m b ≡ ok (a, b')
    → (m >>= f) b ≡ f a b'
bind_step m f b a b' e = rw (e, ◌>>=◌)

pub Reads-bind :
    {A B : Type 0} (m : Reader A) (f : A → Reader B) (xs zs : List ℕ) (a : A) (c : B)
    → Reads m xs a
    → Reads (f a) zs c
    → Reads (m >>= f) (xs ++ zs) c
Reads-bind m f xs zs a c hm hf b ys h =
    bind_step m f b a _ (hm b (zs ++ ys) (Ahead-left b xs zs ys h))
    ∙ hf (advance b (length xs)) ys (Ahead-right b xs zs ys h)
    ∙ ap (λ (n : ℕ). ok (c, record b { p = n })) (omega (arith, length-append xs zs))

-- The last step of a chain returns without reading.
pub Reads-map :
    {A B : Type 0} (m : Reader A) (f : A → B) (xs : List ℕ) (a : A)
    → Reads m xs a
    → Reads (m >>= λ x. ret (f x)) xs (f a)
Reads-map m f xs a h b ys k = bind_step m (λ x. ret (f x)) b a _ (h b ys k)

pub Reads-read : (xs : List ℕ) → Reads (read (length xs)) xs xs
unfolding read
Reads-read xs b ys (e, le) = rw (e, take-append xs ys)

pub Reads-read_exact : (n : ℕ) (xs : List ℕ) → length xs ≡ n → Reads (read n) xs xs
Reads-read_exact n xs e = subst (λ k. Reads (read k) xs xs) e (Reads-read xs)

get_elem?-drop : (p : ℕ) (xs ys : List ℕ) (x : ℕ) → drop p xs ≡ x ∷ ys → get_elem? xs p ≡ some x
get_elem?-drop zero [] ys x e = cc
get_elem?-drop (suc p) [] ys x e = cc
get_elem?-drop zero (z ∷ xs) ys x e = cc
get_elem?-drop (suc p) (z ∷ xs) ys x e = get_elem?-drop p xs ys x e

pub Reads-read_u8 : (x : ℕ) → Reads read_u8 (x ∷ []) (some x)
unfolding read_u8
Reads-read_u8 x b ys (e, le) = ground (arith, get_elem?-drop b.p b.content ys x e)

pub Reads-read_uint : (k n : ℕ) → n < 256 ^ k → Reads (read_uint k) (be k n) n
unfolding read_uint
Reads-read_uint k n h b ys a =
    bind_step (read k) _ b (be k n) _ (rw (length-be k n) at (Reads-read (be k n) b ys a))
    ∙ rw (length-be k n, from_be-be k n h, ==_refl k)
