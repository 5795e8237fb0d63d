-- ===== src/Errors.antt =====
-- Decisions on texts: mongo/mongo.go and proxy/connection.go on the message of an error,
-- util/helpers.go on the name of a topology. A lowered text is searched for fixed patterns;
-- `unicode_lower` is the table that `strings.ToLower` uses beyond ASCII.
pub mod Capitals
mod Tests
use mongobouncer.Base.Text.{Text, text_eq, codes, contains, to_lower}
use mongobouncer.Base.{
  ℕ, Bool, true, false, ◌||◌, Option, none, some, List, [], ◌∷◌, ◌++◌, if◌then◌else◌,
}

-- Patterns of isRetryableError
abbrev pub retryable_before_eof : List Text
retryable_before_eof =
    codes "connection refused"
    ∷ codes "connection reset"
    ∷ codes "connection timeout"
    ∷ codes "network is unreachable"
    ∷ codes "no route to host"
    ∷ codes "temporary failure"
    ∷ codes "server selection error"
    ∷ codes "context deadline exceeded"
    ∷ []

abbrev pub retryable_errors : List Text
retryable_errors = retryable_before_eof ++ codes "EOF" ∷ codes "socket was unexpectedly closed" ∷ []

abbrev pub connection_error_patterns : List Text
connection_error_patterns =
    codes "connection refused"
    ∷ codes "connection reset"
    ∷ codes "connection timeout"
    ∷ codes "network is unreachable"
    ∷ codes "no such host"
    ∷ codes "context deadline exceeded"
    ∷ codes "server selection error"
    ∷ codes "topology closed"
    ∷ codes "connection pool closed"
    ∷ codes "connection not available"
    ∷ []

-- Whether the text contains one of the patterns.
unfoldable pub contains_any : Text → List Text → Bool
contains_any s [] = false
contains_any s (p ∷ ps) = contains s p || contains_any s ps

pub data TopologyKind : Type 0 where
  single sharded load_balanced : TopologyKind

module _ (unicode_lower : ℕ → ℕ) where
  -- `none` is the nil error.
  unfoldable pub is_retryable_error : Option Text → Bool
  is_retryable_error none = false
  is_retryable_error (some message) = contains_any (to_lower unicode_lower message) retryable_errors

  pub is_connection_error : Option Text → Bool
  is_connection_error none = false
  is_connection_error (some message) =
      contains_any (to_lower unicode_lower message) connection_error_patterns

  -- `none` is the error "invalid topology".
  pub get_topology : Text → Option TopologyKind
  get_topology topology =
      let lowered = to_lower unicode_lower topology in
      if text_eq lowered (codes "single")
      then some single
      else if text_eq lowered (codes "sharded")
      then some sharded
      else if text_eq lowered (codes "loadBalanced")
      then some load_balanced
      else none
