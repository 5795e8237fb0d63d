-- ===== src/Connection.antt =====
-- proxy/connection.go: what a connection does with a request, from the database's name to the bytes
-- that the client gets. Reading the request's bytes is left to the network, and metrics and log lines
-- are left out; `now` is the time of the request.
pub mod State
pub mod Names
pub mod Credentials
pub mod Pooling
pub mod Clients
pub mod Tracking
pub mod Pools
pub mod Runs
pub mod Whole
pub mod Stale
pub mod Handshake
pub mod Unasked
pub mod Forwarded
pub mod Hosts
mod Tests
use mongobouncer.Base.Text.{Text, codes, text_eq}
use mongobouncer.Base.{
  ℕ, ◌&&◌, ◌||◌, not, Bool, true, false, Option, none, some, List, [], ◌∷◌, ◌++◌, if◌then◌else◌,
}
use mongobouncer.Command.{Command, build_info, atlas_version, get_parameter, aggregate, text_of}
use mongobouncer.Errors.{TopologyKind, sharded, is_connection_error}
use mongobouncer.Pool.{Manager, register_client, unregister_client}
use mongobouncer.Router.{DatabaseRouter, get_route}
use mongobouncer.Wire.Bytes.{Bytes}
use mongobouncer.Wire.Methods.{Methods}
use Clients.{get_or_create_credential_client, create_lazy_mongo_client}
use Credentials.{authenticate, no_route, not_supported}
use Names.{extract_database_name, is_wildcard_or_regex_match}
use Pooling.{round_trip_with_pool}
use State.{
  Connection, RouteConfig, Request, Answer, fails, answers, Message, Mocked, is_master_response,
  build_info_response, error_response, get_parameter_response, empty_cursor_response, Servers,
  Shared, write_route,
}

abbrev is_command : Command → Command → Bool
is_command a b = text_eq (text_of a) (text_of b)

abbrev is_atlas_cli : Command × Text → Bool
is_atlas_cli found = is_command found.0 aggregate && text_eq found.1 (codes "atlascli")

-- The commands that are answered without a server.
unfoldable pub is_handshake : {E : Type 0} → Methods E → Bool
is_handshake methods =
    let found = methods.command_and_collection in
    methods.is_is_master
    || is_command found.0 build_info
    || is_command found.0 atlas_version
    || is_command found.0 get_parameter
    || is_atlas_cli found

unfoldable pub mocked : {E : Type 0} → Methods E → TopologyKind → Mocked
mocked methods topology =
    let found = methods.command_and_collection in
    let id = methods.request_id in
    if methods.is_is_master
    then is_master_response id topology
    else if is_command found.0 build_info
    then build_info_response id
    else if is_command found.0 atlas_version
    then error_response id
    else if is_command found.0 get_parameter
    then get_parameter_response id
    else if is_atlas_cli found
    then empty_cursor_response id
    else is_master_response id topology

-- What the code around a connection gives it.
pub record Packages : Type 0 where
  pub unicode_lower : ℕ → ℕ
  pub match_regexp : Text → Text → Option Bool
  pub find_string : Text → Text → Text
  pub user_of : Text → Answer (Text × Text)
  pub query_of : Text → Answer (List (Text × Text) × Text)

abbrev differs : Connection → Text × Text → Bool
differs c user = not (text_eq c.client_username user.0) || not (text_eq c.client_password user.1)

-- A handled message: an error, which ends the connection; the bytes that the client gets; nothing.
pub data Handled : Type 0 where
  ended : Text → Handled
  wrote : Bytes → Handled
  silent : Handled

module _ {W : Type 0} where
  -- The client is registered under a name that the first operation replaces; an error is only logged.
  unfoldable pub enter : Shared W → Text → ℕ → Shared W
  enter g id now = elim g.pool_manager [
    | none ↦ g
    | some m ↦ record g {
      pool_manager =
          some (register_client m id (codes "default") (codes "default") m.default_mode now).0;
    }
  ]

  unfoldable pub leave : Shared W → Text → ℕ → Shared W
  leave g id now = elim g.pool_manager [
    | none ↦ g
    | some m ↦ record g { pool_manager = some (unregister_client m id now) }
  ]

module _ {W E : Type 0} (packages : Packages) (servers : Servers W E) where
  -- Whether the client's own credentials are used.
  unfoldable pub use_passthrough : Connection → RouteConfig → Text → Bool
  unfolding is_wildcard_or_regex_match
  use_passthrough c route target =
      if c.regex_credential_passthrough && not (text_eq c.client_username [])
      then if is_wildcard_or_regex_match target route then true else elim route.mongo_client [
        | none ↦ false
        | some client ↦ elim (packages.user_of route.connection_string) [
          | fails message ↦ differs c ([], [])
          | answers user ↦ differs c user
        ]
      ]
      else false

  -- The client that serves the request.
  unfoldable pub client_for : Shared W → Connection → ℕ → Text → ℕ → Shared W × Answer ℕ
  unfolding get_or_create_credential_client create_lazy_mongo_client
  client_for g c p target now =
      let (created, lazy) = create_lazy_mongo_client servers g p target in
      if c.is_using_credential_passthrough
      then get_or_create_credential_client servers packages.query_of g p c now
      else elim (g.routes p).mongo_client [
        | some client ↦ (g, answers client)
        | none ↦ elim lazy [
          | fails message ↦ (created, fails (codes "failed to create MongoDB client: " ++ message))
          | answers client ↦ (created, answers client)
        ]
      ]

  -- A route's client is dropped after a connection error.
  unfoldable pub drop_client : Shared W → ℕ → Answer (Option Message) → Shared W
  drop_client g p (answers message) = g
  drop_client g p (fails message) =
      if is_connection_error packages.unicode_lower (some message)
      then record g {
        routes = write_route g.routes p (record (g.routes p) { mongo_client = none });
      }
      else g

  -- The round trip through the pool manager, or on the client itself.
  unfoldable pub serve :
      Shared W → Connection → Request E → ℕ → Text → ℕ → ℕ → Shared W × Answer (Option Message)
  unfolding drop_client round_trip_with_pool
  serve g c request p name client now = elim g.pool_manager [
    | none ↦
        let (served, answer) = servers.round_trip g.servers (some client) request now in
        (drop_client (record g { servers = served }) p answer, answer)
    | some m ↦
        let (direct, direct_answer) = servers.round_trip g.servers (some client) request now in
        let (served, pooled) =
          round_trip_with_pool servers g.servers m c request name (some client) now in
        if c.is_using_credential_passthrough
        then (drop_client (record g { servers = direct }) p direct_answer, direct_answer)
        else (
          drop_client (record g { servers = served; pool_manager = some (pooled.0) }) p pooled.1,
          pooled.1,
        )
  ]

  -- On the route of the database.
  unfoldable pub on_route :
      Shared W
      → Connection
      → Request E
      → ℕ
      → Text
      → ℕ
      → Shared W × (Connection × Answer (Option Message))
  unfolding use_passthrough client_for serve
  on_route g c request p name now =
      let c' = record c {
        intended_database = name;
        is_using_credential_passthrough = use_passthrough c (g.routes p) name;
      } in
      let (got, client) = client_for g c' p name now in
      elim client [
        | fails message ↦ (got, (c', fails message))
        | answers m ↦
            let (served, answer) = serve got c' request p name m now in (served, (c', answer))
      ]

  abbrev refused : Text → Text
  refused name =
      if text_eq name (codes "admin")
      then codes "admin database is not configured but admin command was attempted: "
        ++ no_route name
      else not_supported name (no_route name)

  -- Any command that is not of the handshake.
  unfoldable pub forward_to_route :
      Shared W
      → Connection
      → Request E
      → Text
      → ℕ
      → Shared W × (Connection × Answer (Option Message))
  unfolding on_route
  forward_to_route g c request name now = elim g.router [
    | none ↦ (g, (c, fails (codes "mongo client not found for address: " ++ c.address)))
    | some router ↦
        let (looked_up, found) =
          get_route packages.unicode_lower packages.match_regexp router name now in
        let g' = record g { router = some looked_up } in
        elim found [
          | none ↦ (g', (c, fails (refused name)))
          | some p ↦ on_route g' c request p name now
        ]
  ]

  -- A command of the handshake; a nil router, which panics, is the failure without a text.
  unfoldable pub shake_hands :
      Shared W → Connection → Request E → ℕ → Shared W × (Connection × Answer (Option Message))
  unfolding authenticate mocked
  shake_hands g c request now =
      if c.auth_enabled && text_eq c.client_username []
      then elim g.router [
        | none ↦ (g, (c, fails []))
        | some router ↦
            let (looked_up, checked) =
              authenticate packages.unicode_lower packages.match_regexp packages.user_of g.routes
                router c request.op_string now in
            let g' = record g { router = some looked_up } in
            elim checked.1 [
              | fails message ↦ (g', (checked.0, fails message))
              | answers topology ↦ (g', (checked.0, servers.mock (mocked request.methods topology)))
            ]
      ]
      else (g, (c, servers.mock (mocked request.methods sharded)))

  unfoldable pub round_trip :
      Shared W → Connection → Request E → ℕ → Shared W × (Connection × Answer (Option Message))
  unfolding extract_database_name shake_hands forward_to_route is_handshake
  round_trip g c request now =
      let (tracked, name) =
        extract_database_name packages.unicode_lower packages.find_string c request in
      if is_handshake request.methods
      then shake_hands g tracked request now
      else forward_to_route g tracked request name now

  unfoldable pub write_answer : Request E → Answer (Option Message) → Handled
  write_answer request (fails message) = ended message
  write_answer request (answers message) =
      if request.methods.unacknowledged
      then silent
      else elim message [ none ↦ ended [] | some m ↦ wrote m.wm ]

  -- A message that has been read and decoded. An acknowledged answer that is nil, which panics, is the
  -- end without a text.
  unfoldable pub handle_message :
      Shared W → Connection → Request E → ℕ → Shared W × (Connection × Handled)
  unfolding round_trip write_answer
  handle_message g c request now =
      let tracked =
        (extract_database_name packages.unicode_lower packages.find_string c request).0 in
      let (g', answered) = round_trip g tracked request now in
      (g', (answered.0, write_answer request answered.1))

  -- The messages of a connection, up to the first error.
  unfoldable pub process_messages :
      Shared W → Connection → List (Request E × ℕ) → Shared W × (Connection × List Handled)
  unfolding handle_message
  process_messages g c [] = (g, (c, []))
  process_messages g c ((request, now) ∷ later) =
      let (g', handled) = handle_message g c request now in
      let (g'', rest) = process_messages g' handled.0 later in
      elim handled.1 [
        | ended message ↦ (g', (handled.0, ended message ∷ []))
        | wrote bytes ↦ (g'', (rest.0, wrote bytes ∷ rest.1))
        | silent ↦ (g'', (rest.0, silent ∷ rest.1))
      ]

  -- A whole connection, which ends at the time `later`. The answer is the database that was used.
  unfoldable pub handle_connection :
      Shared W → Connection → List (Request E × ℕ) → ℕ → ℕ → Shared W × (Text × List Handled)
  unfolding process_messages enter leave
  handle_connection g c messages now later =
      let (g', finished) = process_messages (enter g c.client_id now) c messages in
      (leave g' c.client_id later, (finished.0.database_used, finished.1))
