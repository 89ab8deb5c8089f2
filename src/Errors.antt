-- ===== src/Errors.antt =====
-- The classification of server errors (neo4j/exceptions.py): `Neo4jError.hydrate` and what the driver
-- asks an error for. A text that the source tests for truth is absent or has characters.
pub mod Codes
pub mod Classes
pub mod Retryable
pub mod Discovery
mod Tests
use Prim.Native.Char.{Char, code}
use Prim.Native.String.{String}
use text.Mathlib.Text.{is_eq, ◌==◌, starts_with}
use neo4j_python_driver.Base.{
  compare, Bool, true, false, not, ◌&&◌, ◌||◌, if◌then◌else◌, Option, none, some, List, [], ◌∷◌,
}

-- The classes that a server error can have, the more general ones first.
pub data ErrorClass : Type 0 where
  neo4j_error client_error cypher_syntax_error cypher_type_error constraint_error auth_error :
      ErrorClass
  token_expired forbidden database_error transient_error database_unavailable not_a_leader :
      ErrorClass
  forbidden_on_read_only_database : ErrorClass

-- The class attribute `_retryable`: set in `TransientError`, and inherited.
unfoldable pub class_retryable : ErrorClass → Bool
class_retryable transient_error = true
class_retryable database_unavailable = true
class_retryable not_a_leader = true
class_retryable forbidden_on_read_only_database = true
class_retryable neo4j_error = false
class_retryable client_error = false
class_retryable cypher_syntax_error = false
class_retryable cypher_type_error = false
class_retryable constraint_error = false
class_retryable auth_error = false
class_retryable token_expired = false
class_retryable forbidden = false
class_retryable database_error = false

-- `code.split(".")`, which has a part at least.
abbrev pub is_dot : Char → Bool
is_dot c = is_eq (compare (code c) b'.')

abbrev pub onto : Char → List String → List String
onto c [] = String.◌∷◌ c "" ∷ []
onto c (p ∷ ps) = String.◌∷◌ c p ∷ ps

unfoldable pub split_dots : String → List String
split_dots String.[] = "" ∷ []
split_dots (String.◌∷◌ c s) = let rest = split_dots s in if is_dot c then "" ∷ rest else onto c rest

-- A `dict` with texts as its keys, looked up with a default.
abbrev pub get {ℓ} : {A : Type ℓ} → List (String × A) → String → A → A
get [] key default = default
get ((k, a) ∷ m) key default = if key == k then a else get m key default

abbrev pub client_errors : List (String × ErrorClass)
client_errors =
    ("Neo.ClientError.Schema.ConstraintValidationFailed", constraint_error)
    ∷ ("Neo.ClientError.Schema.ConstraintViolation", constraint_error)
    ∷ ("Neo.ClientError.Statement.ConstraintVerificationFailed", constraint_error)
    ∷ ("Neo.ClientError.Statement.ConstraintViolation", constraint_error)
    ∷ ("Neo.ClientError.Statement.InvalidSyntax", cypher_syntax_error)
    ∷ ("Neo.ClientError.Statement.SyntaxError", cypher_syntax_error)
    ∷ ("Neo.ClientError.Procedure.TypeError", cypher_type_error)
    ∷ ("Neo.ClientError.Statement.InvalidType", cypher_type_error)
    ∷ ("Neo.ClientError.Statement.TypeError", cypher_type_error)
    ∷ ("Neo.ClientError.General.ForbiddenOnReadOnlyDatabase", forbidden_on_read_only_database)
    ∷ ("Neo.ClientError.General.ReadOnly", forbidden)
    ∷ ("Neo.ClientError.Schema.ForbiddenOnConstraintIndex", forbidden)
    ∷ ("Neo.ClientError.Schema.IndexBelongsToConstraint", forbidden)
    ∷ ("Neo.ClientError.Security.Forbidden", forbidden)
    ∷ ("Neo.ClientError.Transaction.ForbiddenDueToTransactionType", forbidden)
    ∷ ("Neo.ClientError.Security.AuthorizationFailed", auth_error)
    ∷ ("Neo.ClientError.Security.Unauthorized", auth_error)
    ∷ ("Neo.ClientError.Security.TokenExpired", token_expired)
    ∷ ("Neo.ClientError.Cluster.NotALeader", not_a_leader)
    ∷ []

abbrev pub transient_errors : List (String × ErrorClass)
transient_errors = ("Neo.TransientError.General.DatabaseUnavailable", database_unavailable) ∷ []

-- The classification and the code that replace those of the server.
abbrev pub error_rewrite_map : List (String × (Option String × Option String))
error_rewrite_map =
    ("Neo.ClientError.Security.AuthorizationExpired", (some "TransientError", none))
    ∷ (
      "Neo.TransientError.Transaction.Terminated",
      (some "ClientError", some "Neo.ClientError.Transaction.Terminated"),
    )
    ∷ (
      "Neo.TransientError.Transaction.LockClientStopped",
      (some "ClientError", some "Neo.ClientError.Transaction.LockClientStopped"),
    )
    ∷ []

-- `_extract_error_class`
unfoldable pub extract_error_class : String → String → ErrorClass
extract_error_class classification code =
    if classification == "ClientError"
    then get client_errors code client_error
    else if classification == "TransientError"
    then get transient_errors code transient_error
    else if classification == "DatabaseError"
    then database_error
    else neo4j_error

-- The attributes of an error; `metadata` is whatever else the server sent.
pub record Neo4jError (A : Type 0) : Type 0 where
  pub error_class : ErrorClass
  pub message : String
  pub code : String
  pub classification : String
  pub category : String
  pub title : String
  pub retryable : Bool
  pub metadata : A

-- `x or default` for a text that may be missing.
abbrev pub or_default : Option String → String → String
or_default none default = default
or_default (some s) default = if s == "" then default else s

abbrev pub override : Option String → String → String
override none s = s
override (some t) s = t

-- The classification, the code, the category and the title that `hydrate` takes from the code.
abbrev pub rewritten : String → String → String → String → String × String × String × String
rewritten code classification category title =
    let (classification_override, code_override) = get error_rewrite_map code (none, none) in
    (override classification_override classification, override code_override code, category, title)

abbrev pub from_parts : String → List String → String × String × String × String
from_parts code (_ ∷ classification ∷ category ∷ title ∷ []) =
    rewritten code classification category title
from_parts code [] = ("DatabaseError", code, "General", "UnknownError")
from_parts code (_ ∷ []) = ("DatabaseError", code, "General", "UnknownError")
from_parts code (_ ∷ _ ∷ []) = ("DatabaseError", code, "General", "UnknownError")
from_parts code (_ ∷ _ ∷ _ ∷ []) = ("DatabaseError", code, "General", "UnknownError")
from_parts code (_ ∷ _ ∷ _ ∷ _ ∷ _ ∷ _) = ("DatabaseError", code, "General", "UnknownError")

abbrev pub hydrated : {A : Type 0} → String → A → String × String × String × String → Neo4jError A
hydrated message metadata (classification, code, category, title) =
    let c = extract_error_class classification code in
    record {
      error_class = c;
      message = message;
      code = code;
      classification = classification;
      category = category;
      title = title;
      retryable = class_retryable c;
      metadata = metadata;
    }

-- `Neo4jError.hydrate`
unfoldable pub hydrate : {A : Type 0} → Option String → Option String → A → Neo4jError A
hydrate message code metadata =
    let m = or_default message "An unknown error occurred" in
    let c = or_default code "Neo.DatabaseError.General.UnknownError" in
    hydrated m metadata (from_parts c (split_dots c))

module _ {A : Type 0} (e : Neo4jError A) where
  -- `is_retryable`
  unfoldable pub is_retryable : Bool
  is_retryable = e.retryable

  -- `_unauthenticates_all_connections`
  unfoldable pub unauthenticates_all_connections : Bool
  unauthenticates_all_connections = e.code == "Neo.ClientError.Security.AuthorizationExpired"

  -- `_has_security_code`
  unfoldable pub has_security_code : Bool
  has_security_code = starts_with e.code "Neo.ClientError.Security."

  -- `_is_fatal_during_discovery`
  unfoldable pub is_fatal_during_discovery : Bool
  unfolding has_security_code
  is_fatal_during_discovery =
      (e.code == "Neo.ClientError.Database.DatabaseNotFound")
      || (e.code == "Neo.ClientError.Transaction.InvalidBookmark")
      || (e.code == "Neo.ClientError.Transaction.InvalidBookmarkMixture")
      || (e.code == "Neo.ClientError.Statement.TypeError")
      || (e.code == "Neo.ClientError.Statement.ArgumentError")
      || (e.code == "Neo.ClientError.Request.Invalid")
      || (starts_with e.code "Neo.ClientError.Security."
          && not (e.code == "Neo.ClientError.Security.AuthorizationExpired"))
