-- ===== src/Errors/Retryable.antt =====
-- Which server errors can be retried, by their code.
use Prim.Native.String.{String, ◌++◌}
use text.Mathlib.Text.{◌==◌}
use text.Mathlib.TextEquality.{eq_iff}
use neo4j_python_driver.Base.{
  ◌≡◌, ◌≢◌, ◌↔◌, ◌⊎◌, refl, ◌∙◌, sym, true, Bool-cases, inl, inr, arith, Option, List, [], ◌∷◌,
}
use neo4j_python_driver.Errors.{
  class_retryable, split_dots, extract_error_class, or_default, from_parts, hydrate, is_retryable,
}
use neo4j_python_driver.Errors.Codes.{Dotless, four_parts_iff}
use neo4j_python_driver.Errors.Classes.{special_cases, class_of, decided, rewritten_lem}

-- A code of four parts, of which the second is `TransientError`.
abbrev pub IsTransient : String → Type 0
IsTransient code =
    (a : String) × (category : String) × (title : String) × (code
      ≡ a ++ "." ++ "TransientError" ++ "." ++ category ++ "." ++ title)
    × Dotless a
    × Dotless category
    × Dotless title

abbrev pub Retryable : String → Type 0
Retryable code =
    (IsTransient code
      × (code ≢ "Neo.TransientError.Transaction.Terminated")
      × (code ≢ "Neo.TransientError.Transaction.LockClientStopped"))
    ⊎ ((code ≡ "Neo.ClientError.Security.AuthorizationExpired")
        ⊎ ((code ≡ "Neo.ClientError.General.ForbiddenOnReadOnlyDatabase")
            ⊎ (code ≡ "Neo.ClientError.Cluster.NotALeader")))

decided-Retryable :
    (a classification category title code : String)
    → split_dots code ≡ a ∷ classification ∷ category ∷ title ∷ []
    → decided classification code ≡ true
    → Retryable code
decided-Retryable a classification category title code s h =
    elim (Bool-cases (classification == "TransientError")) [
      | inl t ↦
          let e : classification ≡ "TransientError" =
            (eq_iff classification "TransientError").0 t in
          let (j, ha, hb, hc, hd) =
            (four_parts_iff code a "TransientError" category title).0 (s ∙ rw e refl) in
          let f : IsTransient code = (a, category, title, j, ha, hc, hd) in
          ground (
            arith,
            h,
            f,
            eq_iff code "Neo.ClientError.Security.AuthorizationExpired",
            eq_iff code "Neo.TransientError.Transaction.Terminated",
            eq_iff code "Neo.TransientError.Transaction.LockClientStopped",
          )
      | inr t ↦ ground (
        arith,
        h,
        t,
        special_cases code,
        eq_iff code "Neo.ClientError.Security.AuthorizationExpired",
      )
    ]

from_parts-Retryable :
    (parts : List String) (code : String)
    → split_dots code ≡ parts
    → class_retryable (class_of (from_parts code parts)) ≡ true
    → Retryable code
unfolding class_retryable extract_error_class
from_parts-Retryable (a ∷ b ∷ c ∷ d ∷ []) code s h =
    decided-Retryable a b c d code s (sym (rewritten_lem code b c d) ∙ h)
from_parts-Retryable [] code s h = absurd (ground (arith, h))
from_parts-Retryable (a ∷ []) code s h = absurd (ground (arith, h))
from_parts-Retryable (a ∷ b ∷ []) code s h = absurd (ground (arith, h))
from_parts-Retryable (a ∷ b ∷ c ∷ []) code s h = absurd (ground (arith, h))
from_parts-Retryable (a ∷ b ∷ c ∷ d ∷ e ∷ l) code s h = absurd (ground (arith, h))

Transient-decided :
    (code : String)
    → code ≢ "Neo.TransientError.Transaction.Terminated"
    → code ≢ "Neo.TransientError.Transaction.LockClientStopped"
    → decided "TransientError" code ≡ true
Transient-decided code h k = ground (
  arith,
  eq_iff code "Neo.TransientError.Transaction.Terminated",
  eq_iff code "Neo.TransientError.Transaction.LockClientStopped",
)

pub transient_Dotless : Dotless "TransientError"
transient_Dotless = ground arith

abbrev Special : String → Type 0
Special code =
    (code ≡ "Neo.ClientError.Security.AuthorizationExpired")
    ⊎ ((code ≡ "Neo.ClientError.General.ForbiddenOnReadOnlyDatabase")
        ⊎ (code ≡ "Neo.ClientError.Cluster.NotALeader"))

Special-from_parts :
    (code : String)
    → Special code
    → class_retryable (class_of (from_parts code (split_dots code))) ≡ true
unfolding class_retryable extract_error_class split_dots
Special-from_parts code (inl e) = rw e refl
Special-from_parts code (inr (inl e)) = rw e refl
Special-from_parts code (inr (inr e)) = rw e refl

Retryable-from_parts :
    (code : String)
    → Retryable code
    → class_retryable (class_of (from_parts code (split_dots code))) ≡ true
Retryable-from_parts code (inl ((a, c, t, j, ha, hc, ht), h, k)) =
    let s = (four_parts_iff code a "TransientError" c t).1 (j, ha, transient_Dotless, hc, ht) in
    rw s (rewritten_lem code "TransientError" c t ∙ Transient-decided code h k)
Retryable-from_parts code (inr h) = Special-from_parts code h

-- An error that was just hydrated can be retried exactly if its code has four parts of which the second is
-- TransientError, but for two codes of transactions that were terminated, or if it is one of three codes of client
-- errors: an expired authorization, a write on a read-only database, and a server that is not the leader. (The pool
-- may mark an error as one that can be retried later.)
pub hydrate-Retryable_iff :
    {A : Type 0} (message code : Option String) (metadata : A)
    → (is_retryable (hydrate message code metadata) ≡ true)
      ↔ Retryable (or_default code "Neo.DatabaseError.General.UnknownError")
unfolding is_retryable hydrate
hydrate-Retryable_iff message code metadata =
    let c = or_default code "Neo.DatabaseError.General.UnknownError" in
    (from_parts-Retryable (split_dots c) c refl, Retryable-from_parts c)
