-- ===== src/Connection/Credentials.antt =====
-- The authentication of proxy/connection.go: the credentials in an application name, their
-- comparison with a route's, and what a handshake command does before it is answered. `user_of` is
-- the user's name and password that `url.Parse` finds in a connection string, `none` for an error.
use mongobouncer.Base.Text.{Text, codes, text_eq}
use mongobouncer.Base.{
  ℕ, ◌==◌, ◌&&◌, ◌||◌, not, leb, Bool, Option, none, some, [], ◌∷◌, ◌++◌, if◌then◌else◌,
}
use mongobouncer.Connection.Names.{is_wildcard_or_regex_match, extract_app_name}
use mongobouncer.Connection.State.{Connection, RouteConfig, Answer, fails, answers}
use mongobouncer.Errors.{TopologyKind, sharded}
use mongobouncer.Parsing.{parse_app_name}
use mongobouncer.Router.{DatabaseRouter, get_route}
use mathlib.Core.List.{reverse}

-- `unicode.IsSpace`
unfoldable pub is_space : ℕ → Bool
is_space c =
    (leb 9 c && leb c 13)
    || c == 32
    || c == 0x85
    || c == 0xA0
    || c == 0x1680
    || (leb 0x2000 c && leb c 0x200a)
    || c == 0x2028
    || c == 0x2029
    || c == 0x202f
    || c == 0x205f
    || c == 0x3000

unfoldable pub trim_left_space : Text → Text
trim_left_space [] = []
trim_left_space (c ∷ s) = let rest = trim_left_space s in if is_space c then rest else c ∷ s

-- `strings.TrimSpace`
unfoldable pub trim_space : Text → Text
unfolding trim_left_space
trim_space s = reverse (trim_left_space (reverse (trim_left_space s)))

abbrev is_empty : Text → Bool
is_empty s = text_eq s []

pub record Credentials : Type 0 where
  pub database : Text
  pub username : Text
  pub password : Text
  pub auth_source : Text

abbrev pub bad_format : Text → Text
bad_format s =
    codes
      "appName must be in format 'database:username:password:authSource' or 'database:username:password', got: "
    ++ s

-- What is found, when no part of it is empty after its spaces are removed.
unfoldable pub checked_credentials : Credentials → Answer Credentials
checked_credentials found =
    if is_empty found.database || is_empty found.username || is_empty found.password
    then fails (codes "database, username and password cannot be empty")
    else answers found

module _ (unicode_lower : ℕ → ℕ) where
  unfoldable pub parse_app_name_credentials : Text → Answer Credentials
  unfolding trim_space checked_credentials
  parse_app_name_credentials s =
      let info = parse_app_name unicode_lower s in
      if not (is_empty info.database)
        && not (is_empty info.username)
        && not (is_empty info.password)
      then checked_credentials (record {
        database = trim_space info.database;
        username = trim_space info.username;
        password = trim_space info.password;
        auth_source = trim_space info.auth_source;
      })
      else fails (bad_format s)

unfoldable pub keep_credentials : Connection → Text → Text → Connection
keep_credentials c username password = record c {
  client_username = username;
  client_password = password;
}

abbrev pub no_route : Text → Text
no_route name = codes "no route found for database: " ++ name

abbrev pub not_supported : Text → Text → Text
not_supported database message =
    codes "database " ++ database ++ codes " is not supported: " ++ message

abbrev mismatch : Text → Text → Text
mismatch app_database target =
    codes "authentication failed: database mismatch - appName specifies '"
    ++ app_database
    ++ codes "' but connecting to '"
    ++ target
    ++ codes "'"

module _ (user_of : Text → Answer (Text × Text)) where
  -- `validateCredentialsAgainstDatabase` below the route's lookup; `none` is the nil error.
  unfoldable pub validate_against_route :
      Connection → RouteConfig → Text → Text → Text → Text → Connection × Option Text
  unfolding keep_credentials is_wildcard_or_regex_match
  validate_against_route c route username password target app_database =
      if c.regex_credential_passthrough && is_wildcard_or_regex_match target route
      then (keep_credentials c username password, none)
      else elim (user_of route.connection_string) [
        | fails message ↦ (
          c,
          some (
              codes "failed to extract route credentials: failed to parse connection string: "
              ++ message),
        )
        | answers user ↦
            if not (text_eq username user.0) || not (text_eq password user.1)
            then (c, some (codes "authentication failed: invalid credentials"))
            else if not (is_empty app_database) && not (text_eq app_database target)
            then (c, some (mismatch app_database target))
            else (keep_credentials c username password, none)
      ]

abbrev topology_of : RouteConfig → TopologyKind
topology_of route = elim route.topology [ none ↦ sharded | some kind ↦ kind ]

unfoldable pub keep_found : Connection → Credentials → Connection
keep_found c found = record c {
  client_username = found.username;
  client_password = found.password;
  client_auth_source = found.auth_source;
}

module _ (unicode_lower : ℕ → ℕ) (match_regexp : Text → Text → Option Bool)
    (user_of : Text → Answer (Text × Text)) (routes : ℕ → RouteConfig) where
  -- `none` is the nil error.
  unfoldable pub validate_credentials_against_database :
      DatabaseRouter ℕ
      → Connection
      → Text
      → Text
      → Text
      → Text
      → ℕ
      → DatabaseRouter ℕ × (Connection × Option Text)
  unfolding validate_against_route
  validate_credentials_against_database router c username password target app_database now =
      let (looked_up, found) = get_route unicode_lower match_regexp router target now in
      elim found [
        | none ↦ (looked_up, (c, some (not_supported target (no_route target))))
        | some p ↦ (
          looked_up,
          validate_against_route user_of c (routes p) username password target app_database,
        )
      ]

  -- What follows the route's lookup in the handshake: the credentials are validated at an exact
  -- match, and kept at any other. The answer is the topology.
  unfoldable pub authenticate_on :
      DatabaseRouter ℕ
      → Connection
      → RouteConfig
      → Credentials
      → ℕ
      → DatabaseRouter ℕ × (Connection × Answer TopologyKind)
  unfolding validate_credentials_against_database keep_found
  authenticate_on router c route found now =
      let (validated, checked) =
        validate_credentials_against_database router c found.username found.password found.database
          found.database now in
      if text_eq route.database_name found.database
      then elim checked.1 [
        | none ↦ (validated, (checked.0, answers (topology_of route)))
        | some message ↦
            (validated, (checked.0, fails (codes "authentication failed: " ++ message)))
      ]
      else (router, (keep_found c found, answers (topology_of route)))

  -- The authentication of a handshake command by the application name in it.
  unfoldable pub authenticate :
      DatabaseRouter ℕ
      → Connection
      → Text
      → ℕ
      → DatabaseRouter ℕ × (Connection × Answer TopologyKind)
  unfolding extract_app_name parse_app_name_credentials authenticate_on
  authenticate router c op_string now =
      let name = extract_app_name op_string in
      if is_empty name
      then (
        router,
        (c, fails (codes "authentication required: appName parameter must be provided")),
      )
      else elim (parse_app_name_credentials unicode_lower name) [
        | fails message ↦ (router, (c, fails message))
        | answers found ↦
            let (looked_up, route) =
              get_route unicode_lower match_regexp router found.database now in
            elim route [
              | none ↦
                  (looked_up, (c, fails (not_supported found.database (no_route found.database))))
              | some p ↦ authenticate_on looked_up c (routes p) found now
            ]
      ]
