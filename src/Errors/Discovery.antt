-- ===== src/Errors/Discovery.antt =====
-- Errors that end the discovery of routers.
use Prim.Native.String.{String, ◌++◌}
use text.Mathlib.Text.{◌==◌, starts_with}
use text.Mathlib.TextEquality.{eq_iff, starts_with_iff}
use text.Mathlib.TextLemmas.{append_assoc}
use neo4j_python_driver.Base.{
  ◌≡◌, ◌⊎◌, refl, subst, ap, ◌∙◌, sym, Bool, true, false, not, ◌&&◌, ◌||◌, Bool-cases, inl, inr,
  arith, Option, none, List, [], ◌∷◌,
}
use neo4j_python_driver.Errors.{
  split_dots, get, error_rewrite_map, or_default, override, from_parts, hydrate, is_retryable,
  is_fatal_during_discovery, has_security_code,
}
use neo4j_python_driver.Errors.Codes.{split_dots-append, four_parts_iff}
use neo4j_python_driver.Errors.Retryable.{
  Retryable, IsTransient, transient_Dotless, hydrate-Retryable_iff,
}

-- `hydrate` does not replace the code.
abbrev is_kept : String → Bool
is_kept code =
    not (code == "Neo.TransientError.Transaction.Terminated")
    && not (code == "Neo.TransientError.Transaction.LockClientStopped")

Retryable-is_kept : (code : String) → Retryable code → is_kept code ≡ true
Retryable-is_kept code (inl (t, h, k)) = ground (
  arith,
  eq_iff code "Neo.TransientError.Transaction.Terminated",
  eq_iff code "Neo.TransientError.Transaction.LockClientStopped",
)
Retryable-is_kept code (inr (inl e)) = rw e refl
Retryable-is_kept code (inr (inr (inl e))) = rw e refl
Retryable-is_kept code (inr (inr (inr e))) = rw e refl

code_kept :
    (code : String)
    → is_kept code ≡ true
    → override (get error_rewrite_map code (none, none)).1 code ≡ code
code_kept code h = ground (arith, h)

from_parts_code :
    (parts : List String) (code : String) → is_kept code ≡ true → (from_parts code parts).1 ≡ code
from_parts_code [] code k = refl
from_parts_code (a ∷ []) code k = refl
from_parts_code (a ∷ b ∷ []) code k = refl
from_parts_code (a ∷ b ∷ c ∷ []) code k = refl
from_parts_code (a ∷ b ∷ c ∷ d ∷ []) code k = code_kept code k
from_parts_code (a ∷ b ∷ c ∷ d ∷ e ∷ l) code k = refl

spread : (u : String) → "Neo.ClientError." ++ u ≡ "Neo" ++ "." ++ "ClientError" ++ "." ++ u
spread u =
    append_assoc "Neo" ".ClientError." u
    ∙ ap (λ v. "Neo" ++ v) (append_assoc "." "ClientError." u)
    ∙ ap (λ v. "Neo" ++ "." ++ v) (append_assoc "ClientError" "." u)

-- The second part of the code of a client error is not `TransientError`.
client_parts :
    (u : String) → split_dots ("Neo.ClientError." ++ u) ≡ "Neo" ∷ "ClientError" ∷ split_dots u
client_parts u =
    ap split_dots (spread u)
    ∙ split_dots-append "Neo" ("ClientError" ++ "." ++ u) (ground arith)
    ∙ ap (λ l. "Neo" ∷ l) (split_dots-append "ClientError" u (ground arith))

abbrev second : List String → String
second (a ∷ b ∷ l) = b
second (a ∷ []) = a
second [] = ""

client-not-IsTransient : (u : String) → ¬ IsTransient ("Neo.ClientError." ++ u)
client-not-IsTransient u (a, c, t, j, ha, hc, ht) =
    let s =
      (four_parts_iff ("Neo.ClientError." ++ u) a "TransientError" c t).1
        (j, ha, transient_Dotless, hc, ht) in
    absurd (
      ground
        (arith, (eq_iff "ClientError" "TransientError").1 (ap second (sym (client_parts u) ∙ s))))

-- The codes of `_is_fatal_during_discovery`.
abbrev is_fatal_code : String → Bool
is_fatal_code code =
    (code == "Neo.ClientError.Database.DatabaseNotFound")
    || (code == "Neo.ClientError.Transaction.InvalidBookmark")
    || (code == "Neo.ClientError.Transaction.InvalidBookmarkMixture")
    || (code == "Neo.ClientError.Statement.TypeError")
    || (code == "Neo.ClientError.Statement.ArgumentError")
    || (code == "Neo.ClientError.Request.Invalid")
    || (starts_with code "Neo.ClientError.Security."
        && not (code == "Neo.ClientError.Security.AuthorizationExpired"))

IsClient : String → Type 0
IsClient code = (u : String) × (code ≡ "Neo.ClientError." ++ u)

IsClient-fatal : (code : String) → is_fatal_code code ≡ true → IsClient code
unfolding IsClient
IsClient-fatal code h = elim (Bool-cases (starts_with code "Neo.ClientError.Security.")) [
  | inl s ↦
      let (u, e) = (starts_with_iff code "Neo.ClientError.Security.").0 s in
      ("Security." ++ u, sym e ∙ append_assoc "Neo.ClientError." "Security." u)
  | inr s ↦ elim (listed s) [
    | inl e ↦ ("Database.DatabaseNotFound", e)
    | inr (inl e) ↦ ("Transaction.InvalidBookmark", e)
    | inr (inr (inl e)) ↦ ("Transaction.InvalidBookmarkMixture", e)
    | inr (inr (inr (inl e))) ↦ ("Statement.TypeError", e)
    | inr (inr (inr (inr (inl e)))) ↦ ("Statement.ArgumentError", e)
    | inr (inr (inr (inr (inr e)))) ↦ ("Request.Invalid", e)
  ]
]
  where
    listed :
        starts_with code "Neo.ClientError.Security." ≡ false
        → (code ≡ "Neo.ClientError.Database.DatabaseNotFound")
          ⊎ ((code ≡ "Neo.ClientError.Transaction.InvalidBookmark")
              ⊎ ((code ≡ "Neo.ClientError.Transaction.InvalidBookmarkMixture")
                  ⊎ ((code ≡ "Neo.ClientError.Statement.TypeError")
                      ⊎ ((code ≡ "Neo.ClientError.Statement.ArgumentError")
                          ⊎ (code ≡ "Neo.ClientError.Request.Invalid")))))
    listed s = ground (
      arith,
      h,
      s,
      eq_iff code "Neo.ClientError.Database.DatabaseNotFound",
      eq_iff code "Neo.ClientError.Transaction.InvalidBookmark",
      eq_iff code "Neo.ClientError.Transaction.InvalidBookmarkMixture",
      eq_iff code "Neo.ClientError.Statement.TypeError",
      eq_iff code "Neo.ClientError.Statement.ArgumentError",
      eq_iff code "Neo.ClientError.Request.Invalid",
    )

false_of_not : (b : Bool) → ¬ (b ≡ true) → b ≡ false
false_of_not true h = absurd (h refl)
false_of_not false h = refl

Retryable-not_fatal : (code : String) → Retryable code → is_fatal_code code ≡ false
unfolding IsClient
Retryable-not_fatal code (inl (t, h, k)) =
    false_of_not (is_fatal_code code)
      (λ f. let (u, e) = IsClient-fatal code f in client-not-IsTransient u (subst IsTransient e t))
Retryable-not_fatal code (inr (inl e)) = rw e refl
Retryable-not_fatal code (inr (inr (inl e))) = rw e refl
Retryable-not_fatal code (inr (inr (inr e))) = rw e refl

-- An error of the server that can be retried never ends the discovery of routers.
pub hydrate_not_fatal :
    {A : Type 0} (message code : Option String) (metadata : A)
    → is_retryable (hydrate message code metadata) ≡ true
    → is_fatal_during_discovery (hydrate message code metadata) ≡ false
unfolding is_fatal_during_discovery hydrate has_security_code
hydrate_not_fatal message code metadata h =
    let c = or_default code "Neo.DatabaseError.General.UnknownError" in
    let r = (hydrate-Retryable_iff message code metadata).0 h in
    ap is_fatal_code (from_parts_code (split_dots c) c (Retryable-is_kept c r))
    ∙ Retryable-not_fatal c r
