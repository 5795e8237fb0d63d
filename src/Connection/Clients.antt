-- ===== src/Connection/Clients.antt =====
-- The clients (*mongo.Mongo) that proxy/connection.go gets for a route. The registration of a new
-- client with the proxy, which only serves the shutdown, is left out. `query_of` is what `url.Parse`
-- finds behind the question mark of a connection string: the parameters, in the order in which the
-- map is ranged over, and the raw text.
use mongobouncer.Base.Text.{Text, codes, text_eq, text_discrete, contains}
use mongobouncer.Base.{ℕ, ◌||◌, ◌&&◌, not, Bool, none, some, List, [], ◌∷◌, ◌++◌, if◌then◌else◌}
use mongobouncer.Connection.Names.{extract_host_from_route}
use mongobouncer.Connection.State.{
  Connection, RouteConfig, Answer, fails, answers, Servers, Shared, write_route,
}
use mongobouncer.Lru
use mongobouncer.Lru.{Cache}

abbrev is_empty : Text → Bool
is_empty s = text_eq s []

unfoldable pub credential_key : Connection → Text
credential_key c = c.client_username ++ b':' ∷ c.client_password

-- The route's cache of clients: at most 200, for 30 minutes.
unfoldable pub init_credential_clients_cache : RouteConfig → Cache Text ℕ
init_credential_clients_cache route = elim route.credential_clients [
  | some cache ↦ cache
  | none ↦ Lru.new 200 1_800_000_000_000
]

-- A parameter at the end of a connection string.
unfoldable pub add_parameter : Text → Text → Text → Text
add_parameter uri key value =
    uri ++ (if contains uri (codes "?") then b'&' else b'?') ∷ key ++ b'=' ∷ value

unfoldable pub add_parameters : Text → List (Text × Text) → Text
unfolding add_parameter
add_parameters uri [] = uri
add_parameters uri ((key, value) ∷ query) =
    if text_eq key (codes "authSource")
    then add_parameters uri query
    else add_parameters (add_parameter uri key value) query

-- The connection string with the client's credentials.
unfoldable pub credential_string : Connection → Text → Text → List (Text × Text) → Text → Text
unfolding add_parameters
credential_string c host port query raw =
    if not (is_empty c.client_username) && not (is_empty c.client_password)
    then add_parameters
        (codes "mongodb://"
          ++ c.client_username
          ++ b':' ∷ c.client_password
          ++ b'@' ∷ host
          ++ b':' ∷ port
          ++ b'/' ∷ c.intended_database
          ++ codes "?authSource="
          ++ (if is_empty c.client_auth_source then codes "admin" else c.client_auth_source))
        query
    else codes "mongodb://"
      ++ host
      ++ b':' ∷ port
      ++ b'/' ∷ (if is_empty raw then [] else b'?' ∷ raw)

abbrev with_credentials : Text → Text
with_credentials message =
    codes "failed to create MongoDB client with client credentials: " ++ message

module _ {W E : Type 0} (servers : Servers W E)
    (query_of : Text → Answer (List (Text × Text) × Text)) where
  -- `createMongoClientWithCredentials` below the lookup of the key, without the write to the cache.
  unfoldable pub connect_with_credentials : W → RouteConfig → Connection → W × Answer ℕ
  unfolding extract_host_from_route credential_string
  connect_with_credentials w route c =
      let (host, port) = extract_host_from_route route in
      if is_empty host || is_empty port
      then (w, fails (codes "failed to extract host/port from route connection string"))
      else elim (query_of route.connection_string) [
        | fails message ↦ (w, fails (codes "failed to parse route connection string: " ++ message))
        | answers query ↦
            let (connected, answer) =
              servers.connect w (credential_string c host port query.0 query.1)
                c.intended_database in
            elim answer [
              | fails message ↦ (connected, fails (with_credentials message))
              | answers client ↦ (connected, answers client)
            ]
      ]

  -- The new client, kept under its key.
  unfoldable pub create_client : Shared W → ℕ → Connection → ℕ → Shared W × Answer ℕ
  unfolding connect_with_credentials credential_key init_credential_clients_cache
  create_client g p c now =
      let route = g.routes p in
      let (cache, found) =
        Lru.get text_discrete (init_credential_clients_cache route) (credential_key c) now in
      let kept = record g {
        routes = write_route g.routes p (record route { credential_clients = some cache });
      } in
      let (connected, answer) = connect_with_credentials g.servers route c in
      elim found [
        | some client ↦ (kept, answers client)
        | none ↦ elim answer [
          | fails message ↦ (record kept { servers = connected }, fails message)
          | answers client ↦ (
            record g {
              servers = connected;
              routes = write_route g.routes p (record route {
                credential_clients =
                    some (Lru.add text_discrete cache (credential_key c) client now);
              });
            },
            answers client,
          )
        ]
      ]

  unfoldable pub get_or_create_credential_client :
      Shared W → ℕ → Connection → ℕ → Shared W × Answer ℕ
  unfolding create_client
  get_or_create_credential_client g p c now =
      let route = g.routes p in
      let (cache, found) =
        Lru.get text_discrete (init_credential_clients_cache route) (credential_key c) now in
      let kept = record g {
        routes = write_route g.routes p (record route { credential_clients = some cache });
      } in
      let (created, answer) = create_client kept p c now in
      elim found [
        | some client ↦ (kept, answers client)
        | none ↦ elim answer [
          | fails message ↦ (created, fails (with_credentials message))
          | answers client ↦ (created, answers client)
        ]
      ]

module _ {W E : Type 0} (servers : Servers W E) where
  -- The answer of a new client, which is the route's from then on.
  unfoldable pub create_lazy_mongo_client : Shared W → ℕ → Text → Shared W × Answer ℕ
  create_lazy_mongo_client g p database =
      let route = g.routes p in
      let (connected, answer) = servers.connect g.servers route.connection_string database in
      elim route.mongo_client [
        | some client ↦ (g, answers client)
        | none ↦ elim answer [
          | fails message ↦ (
            record g { servers = connected },
            fails (codes "failed to create lazy MongoDB client: " ++ message),
          )
          | answers client ↦ (
            record g {
              servers = connected;
              routes = write_route g.routes p (record route { mongo_client = some client });
            },
            answers client,
          )
        ]
      ]
