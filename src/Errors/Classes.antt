-- ===== src/Errors/Classes.antt =====
-- The class that a code is given, and whether errors of the class can be retried.
use Prim.Native.String.{String}
use text.Mathlib.Text.{◌==◌}
use text.Mathlib.TextEquality.{eq_iff}
use neo4j_python_driver.Base.{
  ◌≡◌, ◌⊎◌, refl, ap, ◌∙◌, sym, Bool, true, false, not, ◌&&◌, ◌||◌, Bool-cases, inl, inr, arith,
  List, [], ◌∷◌, if◌then◌else◌,
}
use neo4j_python_driver.Errors.{
  ErrorClass, class_retryable, get, client_error, transient_error, client_errors, transient_errors,
  extract_error_class, rewritten,
}

-- The codes of client errors that can be retried all the same.
abbrev is_special : String → Bool
is_special code =
    (code == "Neo.ClientError.General.ForbiddenOnReadOnlyDatabase")
    || (code == "Neo.ClientError.Cluster.NotALeader")

-- Every entry has a class that can be retried exactly if its code is special.
abbrev agrees : ErrorClass → String → Bool
agrees c k = if is_special k then class_retryable c else not (class_retryable c)

abbrev all_agree : List (String × ErrorClass) → Bool
all_agree [] = true
all_agree ((k, c) ∷ m) = agrees c k && all_agree m

abbrev is_key : List (String × ErrorClass) → String → Bool
is_key [] code = false
is_key ((k, c) ∷ m) code = (code == k) || is_key m code

agrees_lem : (c : ErrorClass) (k : String) → agrees c k ≡ true → class_retryable c ≡ is_special k
agrees_lem c k h = ground (arith, h)

get_lem :
    (m : List (String × ErrorClass)) (code : String)
    → all_agree m ≡ true
    → class_retryable (get m code client_error)
      ≡ (if is_key m code then is_special code else class_retryable client_error)
get_lem [] code h = refl
get_lem ((k, c) ∷ m) code h = elim (Bool-cases (code == k)) [
  | inl e ↦
      let same : code ≡ k = (eq_iff code k).0 e in
      rw (e) (agrees_lem c k (ground (arith, h)) ∙ ap is_special (sym same))
  | inr e ↦ rw (e) (get_lem m code (ground (arith, h)))
]

pub special_cases :
    (code : String)
    → is_special code ≡ true
    → (code ≡ "Neo.ClientError.General.ForbiddenOnReadOnlyDatabase")
      ⊎ (code ≡ "Neo.ClientError.Cluster.NotALeader")
special_cases code h = ground (
  arith,
  h,
  eq_iff code "Neo.ClientError.General.ForbiddenOnReadOnlyDatabase",
  eq_iff code "Neo.ClientError.Cluster.NotALeader",
)

special_key : (code : String) → is_special code ≡ true → is_key client_errors code ≡ true
special_key code h = elim (special_cases code h) [ inl e ↦ rw e refl | inr e ↦ rw e refl ]

either_way : (b c d : Bool) → (c ≡ true → b ≡ true) → d ≡ false → (if b then c else d) ≡ c
either_way b c d h k = ground (arith, h)

client_errors_lem :
    (code : String) → class_retryable (get client_errors code client_error) ≡ is_special code
unfolding class_retryable
client_errors_lem code =
    get_lem client_errors code refl
    ∙ either_way (is_key client_errors code) (is_special code) false (special_key code) refl

transient_errors_lem :
    (code : String) → class_retryable (get transient_errors code transient_error) ≡ true
unfolding class_retryable
transient_errors_lem code = ground arith

extract_lem :
    (classification code : String)
    → class_retryable (extract_error_class classification code) ≡ (
        (classification == "TransientError")
        || ((classification == "ClientError") && is_special code))
unfolding extract_error_class
extract_lem classification code = elim (Bool-cases (classification == "ClientError")) [
  | inl e ↦
      let same : classification ≡ "ClientError" = (eq_iff classification "ClientError").0 e in
      rw same (client_errors_lem code)
  | inr e ↦ elim (Bool-cases (classification == "TransientError")) [
    | inl t ↦ rw (e, t) (transient_errors_lem code)
    | inr t ↦ rw (e, t) (unfold class_retryable in ground arith)
  ]
]

abbrev pub class_of : String × String × String × String → ErrorClass
class_of r = extract_error_class r.0 r.1

-- Of a code with four parts, of which `classification` is the second.
abbrev pub decided : String → String → Bool
decided classification code =
    if code == "Neo.ClientError.Security.AuthorizationExpired"
    then true
    else if code == "Neo.TransientError.Transaction.Terminated"
    then false
    else if code == "Neo.TransientError.Transaction.LockClientStopped"
    then false
    else (classification == "TransientError")
      || ((classification == "ClientError") && is_special code)

pub rewritten_lem :
    (code classification category title : String)
    → class_retryable (class_of (rewritten code classification category title))
      ≡ decided classification code
rewritten_lem code classification category title =
    elim (Bool-cases (code == "Neo.ClientError.Security.AuthorizationExpired")) [
      | inl a ↦ rw a (extract_lem "TransientError" code)
      | inr a ↦ elim (Bool-cases (code == "Neo.TransientError.Transaction.Terminated")) [
        | inl t ↦ rw (a, t) (extract_lem "ClientError" "Neo.ClientError.Transaction.Terminated")
        | inr t ↦ elim (Bool-cases (code == "Neo.TransientError.Transaction.LockClientStopped")) [
          | inl l ↦
              rw (a, t, l)
                (extract_lem "ClientError" "Neo.ClientError.Transaction.LockClientStopped")
          | inr l ↦ rw (a, t, l) (extract_lem classification code)
        ]
      ]
    ]
