-- ===== src/Connection/Names.antt =====
-- The database names, hosts and application names that proxy/connection.go takes out of operations
-- and connection strings. `find_string` is `regexp.MustCompile(pattern).FindString(s)`.
use mongobouncer.Base.Text.{Text, codes, text_eq, has_prefix, contains}
use mongobouncer.Base.{
  ℕ, ◌==◌, ◌&&◌, ◌||◌, not, Bool, Option, none, some, List, [], ◌∷◌, if◌then◌else◌,
}
use mongobouncer.Connection.State.{Connection, RouteConfig, Request}
use mongobouncer.Parsing.{cut, cut_text, normalize_database_name, parse_collection_name}

abbrev pub database_patterns : List Text
database_patterns =
    codes "sustained_db_\\d+"
    ∷ codes "longrun_db_\\d+"
    ∷ codes "test_db_\\d+"
    ∷ codes "burst_db_\\d+"
    ∷ codes "storm_db_\\d+"
    ∷ codes "concurrent_db_\\d+"
    ∷ codes "random_db_\\d+"
    ∷ codes "webapp_test"
    ∷ codes "background_test"
    ∷ codes "analytics_test"
    ∷ []

-- The first value, or the second if the first is empty.
unfoldable pub or_else : Text → Text → Text
or_else [] t = t
or_else (c ∷ s) t = c ∷ s

module _ (find_string : Text → Text → Text) where
  -- The first match of the patterns, in their order.
  unfoldable pub first_pattern : List Text → Text → Text
  unfolding or_else
  first_pattern [] s = []
  first_pattern (p ∷ ps) s = or_else (find_string p s) (first_pattern ps s)

  -- The name in the text of an operation.
  unfoldable pub pattern_database : Text → Text
  unfolding or_else first_pattern
  pattern_database s =
      or_else (first_pattern database_patterns s)
        (find_string (codes "[a-zA-Z][a-zA-Z0-9_]*_db_\\d+") s)

module _ {E : Type 0} (unicode_lower : ℕ → ℕ) (find_string : Text → Text → Text) where
  -- The name that the operation carries, empty if there is none.
  unfoldable pub operation_database : Request E → Text
  unfolding or_else pattern_database
  operation_database request =
      let collection = (request.methods.command_and_collection).1 in
      or_else (parse_collection_name unicode_lower collection).database
        (or_else request.methods.database_name (pattern_database find_string request.op_string))

  unfoldable pub fallback_database : Connection → Request E → Text
  unfolding or_else
  fallback_database c request =
      if request.methods.is_is_master
      then codes "admin"
      else or_else c.intended_database (codes "default")

  -- The name, and the connection that keeps track of it.
  unfoldable pub extract_database_name : Connection → Request E → Connection × Text
  unfolding or_else operation_database fallback_database
  extract_database_name c request =
      let name = or_else (operation_database request) (fallback_database c request) in
      (
        record c { database_used = name; intended_database = name },
        normalize_database_name unicode_lower name,
      )

-- `strings.LastIndex`: what stands before and behind the last `c`.
unfoldable pub cut_last : ℕ → Text → Option (Text × Text)
cut_last c [] = none
cut_last c (d ∷ s) = elim (cut_last c s) [
  | some parts ↦ some (d ∷ parts.0, parts.1)
  | none ↦ if d == c then some ([], s) else none
]

-- The port behind a closing bracket.
unfoldable pub bracket_port : Text → Text
bracket_port [] = codes "27017"
bracket_port (c ∷ s) = if c == b':' then s else codes "27017"

unfoldable pub extract_host_and_port : Text → Text × Text
unfolding cut_last bracket_port
extract_host_and_port [] = ([], codes "27017")
extract_host_and_port (d ∷ s) =
    if d == b'['
    then elim (cut b']' s).1 [ none ↦ ([], []) | some rest ↦ ((cut b']' s).0, bracket_port rest) ]
    else elim (cut_last b':' (d ∷ s)) [ none ↦ (d ∷ s, codes "27017") | some parts ↦ parts ]

-- What stands behind the credentials.
unfoldable pub behind_credentials : Text → Text
behind_credentials s = elim (cut b'@' s).1 [ none ↦ s | some rest ↦ rest ]

-- `strings.TrimPrefix(s, prefix)` of a text that has the prefix
unfoldable pub skip : Text → Text → Text
skip [] s = s
skip (c ∷ p) [] = []
skip (c ∷ p) (d ∷ s) = skip p s

unfoldable pub extract_host : Text → Text × Text
unfolding behind_credentials skip extract_host_and_port has_prefix
extract_host s =
    let rest = behind_credentials (skip (codes "mongodb://") s) in
    if has_prefix s (codes "mongodb://") then extract_host_and_port (cut b'/' rest).0 else ([], [])

unfoldable pub extract_host_from_route : RouteConfig → Text × Text
unfolding extract_host
extract_host_from_route route = extract_host route.connection_string

-- The text behind the first `"name": "`, up to the next quotation mark.
unfoldable pub extract_app_name : Text → Text
unfolding contains
extract_app_name s =
    if contains s (codes "application") && contains s (codes "name")
    then elim (cut_text (codes "\"name\": \"") s).1 [
      | none ↦ []
      | some rest ↦ elim (cut b'"' rest).1 [ none ↦ [] | some _ ↦ (cut b'"' rest).0 ]
    ]
    else []

-- `isWildcardOrRegexMatch`
unfoldable pub is_wildcard_or_regex_match : Text → RouteConfig → Bool
unfolding contains
is_wildcard_or_regex_match target route =
    contains route.database_name (codes "*")
    || text_eq route.database_name (codes "*")
    || not (text_eq route.database_name target)
