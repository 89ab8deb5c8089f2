-- ===== src/Errors/Tests.antt =====
-- Server errors with codes of their own.
use Prim.Native.String.{String}
use neo4j_python_driver.Base.{◌≡◌, refl, true, false, Option, none, some, List, [], ℕ, ◌↔◌}
use neo4j_python_driver.Errors.{
  class_retryable, transient_error, not_a_leader, database_error, split_dots, extract_error_class,
  hydrate, is_retryable, unauthenticates_all_connections, has_security_code,
  is_fatal_during_discovery,
}
use neo4j_python_driver.Errors.Retryable.{Retryable, hydrate-Retryable_iff}

abbrev rest : List ℕ
rest = []

-- An expired authorization counts as a transient error and keeps its code.
expired :
    hydrate (some "late") (some "Neo.ClientError.Security.AuthorizationExpired") rest ≡ record {
      error_class = transient_error;
      message = "late";
      code = "Neo.ClientError.Security.AuthorizationExpired";
      classification = "TransientError";
      category = "Security";
      title = "AuthorizationExpired";
      retryable = true;
      metadata = rest;
    }
unfolding hydrate split_dots extract_error_class class_retryable
expired = refl

malformed : hydrate none (some "Neo.TransientError.Odd") rest ≡ record {
  error_class = database_error;
  message = "An unknown error occurred";
  code = "Neo.TransientError.Odd";
  classification = "DatabaseError";
  category = "General";
  title = "UnknownError";
  retryable = false;
  metadata = rest;
}
unfolding hydrate split_dots extract_error_class class_retryable
malformed = refl

no_leader :
    (hydrate none (some "Neo.ClientError.Cluster.NotALeader") rest).error_class ≡ not_a_leader
unfolding hydrate split_dots extract_error_class
no_leader = refl

token :
    is_fatal_during_discovery (hydrate none (some "Neo.ClientError.Security.TokenExpired") rest)
    ≡ true
unfolding is_fatal_during_discovery has_security_code hydrate split_dots
token = refl

logged_out :
    unauthenticates_all_connections
      (hydrate none (some "Neo.ClientError.Security.AuthorizationExpired") rest)
    ≡ true
unfolding unauthenticates_all_connections hydrate split_dots
logged_out = refl

abbrev terminated : Option String
terminated = some "Neo.TransientError.Transaction.Terminated"

hydrate-Retryable_iff_example :
    (is_retryable (hydrate none terminated rest) ≡ true)
    ↔ Retryable "Neo.TransientError.Transaction.Terminated"
hydrate-Retryable_iff_example = hydrate-Retryable_iff none terminated rest
