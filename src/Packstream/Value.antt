-- ===== src/Packstream/Value.antt =====
-- The Python values that PackStream carries, and big-endian integers (`struct.pack`).
use neo4j_python_driver.Base.{
  ℕ, zero, suc, ◌+◌, ◌-◌, ◌*◌, ◌/◌, ◌%◌, ◌^◌, ◌<◌, ◌≡◌, List, [], ◌∷◌, ◌++◌, Bool, ltb,
  if◌then◌else◌, length, length-append, arith, refl, All, All-append,
}
use native.Mathlib.Nat.{pow-suc, mod-eq_of_lt}
use neo4j_python_driver.Base.Int.{ℤ, pos, negsuc}

-- A float is its IEEE 754 bit pattern, a string its code points. `other` is any object of a type
-- that the packer has no branch for; the number identifies the object.
mutual
  pub data Value : Type 0 where
    null : Value
    bool : Bool → Value
    float : ℕ → Value
    int : ℤ → Value
    str : List ℕ → Value
    bytes : List ℕ → Value
    list : Items → Value
    dict : Entries → Value
    structure : List ℕ → Items → Value
    other : ℕ → Value

  pub data Items : Type 0 where
    nil : Items
    cons : Value → Items → Items

  pub data Entries : Type 0 where
    empty : Entries
    entry : Value → Value → Entries → Entries

-- `len` of a list and of a dict.
abbrev pub size_items : Items → ℕ
size_items nil = 0
size_items (cons v vs) = suc (size_items vs)

abbrev pub size_entries : Entries → ℕ
size_entries empty = 0
size_entries (entry k v es) = suc (size_entries es)

-- The `k` low bytes of `n`, most significant first.
unfoldable pub be : ℕ → ℕ → List ℕ
be zero n = []
be (suc k) n = be k (n / 256) ++ (n % 256 ∷ [])

from_be_acc : ℕ → List ℕ → ℕ
from_be_acc acc [] = acc
from_be_acc acc (b ∷ bs) = from_be_acc (acc * 256 + b) bs

unfoldable pub from_be : List ℕ → ℕ
unfolding from_be_acc
from_be bs = from_be_acc 0 bs

-- Python's `value % m`, whose result is never negative.
unfoldable pub mod_ℤ : ℤ → ℕ → ℕ
mod_ℤ (pos n) m = n % m
mod_ℤ (negsuc n) m = m - 1 - n % m

-- The signed number that an unsigned number below `m` stands for in two's complement.
unfoldable pub to_signed : ℕ → ℕ → ℤ
to_signed n m = if ltb n (m / 2) then pos n else negsuc (m - 1 - n)

pub length-be : (k n : ℕ) → length (be k n) ≡ k
unfolding be
length-be zero n = refl
length-be (suc k) n =
    omega (arith, length-append (be k (n / 256)) (n % 256 ∷ []), length-be k (n / 256))

from_be_acc-append :
    (acc b : ℕ) (bs : List ℕ) → from_be_acc acc (bs ++ (b ∷ [])) ≡ from_be_acc acc bs * 256 + b
unfolding from_be_acc
from_be_acc-append acc b [] = refl
from_be_acc-append acc b (x ∷ bs) = from_be_acc-append (acc * 256 + x) b bs

-- Reading back a big-endian number that fits into its bytes.
pub from_be-be : (k n : ℕ) → n < 256 ^ k → from_be (be k n) ≡ n
unfolding be from_be from_be_acc
from_be-be zero n h = omega arith
from_be-be (suc k) n h =
    rw (from_be_acc-append 0 (n % 256) (be k (n / 256)))
      (omega (arith, from_be-be k (n / 256) (omega (arith, pow-suc 256 k))))

pub All-be : (k n : ℕ) → All (λ b. b < 256) (be k n)
unfolding be
All-be zero n = tt
All-be (suc k) n = All-append _ (be k (n / 256)) (n % 256 ∷ []) (All-be k (n / 256)) (omega arith)

-- `v` is in the range of the signed numbers that are written modulo `m`.
abbrev pub IsSigned : ℕ → ℤ → Type 0
IsSigned m (pos n) = n < m / 2
IsSigned m (negsuc n) = n < m / 2

-- Two's complement: what `struct.pack` writes, `struct.unpack` reads back.
pub to_signed-mod_ℤ : (v : ℤ) (m : ℕ) → IsSigned m v → to_signed (mod_ℤ v m) m ≡ v
unfolding to_signed mod_ℤ
to_signed-mod_ℤ (pos n) m h =
    let small : n % m ≡ n = mod-eq_of_lt (omega arith) in rw small (ground arith)
to_signed-mod_ℤ (negsuc n) m h =
    let small : n % m ≡ n = mod-eq_of_lt (omega arith) in rw small (ground arith)

pub mod_ℤ-lt : (v : ℤ) (m : ℕ) → IsSigned m v → mod_ℤ v m < m
unfolding mod_ℤ
mod_ℤ-lt (pos n) m h = let small : n % m ≡ n = mod-eq_of_lt (omega arith) in rw small (omega arith)
mod_ℤ-lt (negsuc n) m h =
    let small : n % m ≡ n = mod-eq_of_lt (omega arith) in rw small (omega arith)
