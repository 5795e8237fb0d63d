-- ===== src/Connection/State.antt =====
-- The state of proxy/connection.go: the struct connection, the route configurations of
-- proxy/router.go that it reaches by pointers, and what a request is to it. Clients (*mongo.Mongo) and
-- route configurations are handles. The fields of a route that only log lines and metrics read are
-- left out, and so is the cached routeConfig, which is written and never read.
use mongobouncer.Base.Text.{Text}
use mongobouncer.Base.{ℕ, ◌==◌, ◌≡◌, refl, ◌⊎◌, inl, inr, Bool, Option, if◌then◌else◌}
use mongobouncer.Errors.{TopologyKind}
use mongobouncer.Lru.{Cache}
use mongobouncer.Pool.{Manager}
use mongobouncer.Router.{DatabaseRouter}
use mongobouncer.Wire.Bytes.{Bytes}
use mongobouncer.Wire.Methods.{Methods}
use mongobouncer.Wire.Operations.{Operation}
use mongobouncer.Wire.Package.{Package}

pub record Connection : Type 0 where
  pub client_id : Text
  pub address : Text
  pub intended_database : Text
  pub client_username : Text
  pub client_password : Text
  pub client_auth_source : Text
  pub auth_enabled : Bool
  pub regex_credential_passthrough : Bool
  pub database_used : Text
  pub is_using_credential_passthrough : Bool

-- `topology` is that of the route's DatabaseConfig, which is set for every route.
pub record RouteConfig : Type 0 where
  pub database_name : Text
  pub mongo_client : Option ℕ
  pub connection_string : Text
  pub topology : Option TopologyKind
  pub credential_clients : Option (Cache Text ℕ)

-- A request: the methods of its operation, and the text that `op.String()` gives.
pub record Request (E : Type 0) : Type 0 where
  pub methods : Methods E
  pub op_string : Text

-- An answer, or the text of an error.
pub data Answer (A : Type 0) : Type 0 where
  fails : Text → Answer A
  answers : A → Answer A

-- What a connection shares with the others. `W` is the state of the servers.
pub record Shared (W : Type 0) : Type 0 where
  pub router : Option (DatabaseRouter ℕ)
  pub routes : ℕ → RouteConfig
  pub pool_manager : Option (Manager ℕ)
  pub servers : W

-- A write to a route configuration.
unfoldable pub write_route : (ℕ → RouteConfig) → ℕ → RouteConfig → ℕ → RouteConfig
write_route routes p route q = if q == p then route else routes q

-- The struct Message of mongo/mongo.go: its bytes and what they decode to.
pub record Message : Type 0 where
  pub wm : Bytes
  pub op : Operation

-- The made-up answers to the commands of a handshake, with the id of the request.
pub data Mocked : Type 0 where
  is_master_response : ℕ → TopologyKind → Mocked
  build_info_response error_response get_parameter_response empty_cursor_response : ℕ → Mocked

-- What a connection calls: the functions that make the answers of a handshake; RoundTrip of a client, which a nil pointer too can be asked for and whose
-- message is nil for an unacknowledged request; ConnectWithSessionManager, with the text of the
-- connection string and the database whose settings are applied; and ForwardRequest of the proxy's
-- request forwarder, if there is one, whose answer is nil when the request is to be served here.
pub record Servers (W E : Type 0) : Type 0 where
  pub round_trip : W → Option ℕ → Request E → ℕ → W × Answer (Option Message)
  pub connect : W → Text → Text → W × Answer ℕ
  pub forward : Option (W → Text → Bytes → Text → W × Answer (Option Bytes))
  pub mock : Mocked → Answer (Option Message)
  pub pkg : Package

pub Answer-cases :
    {A : Type 0} (a : Answer A)
    → ((message : Text) × (a ≡ fails message)) ⊎ ((x : A) × (a ≡ answers x))
Answer-cases (fails message) = inl (message, refl)
Answer-cases (answers x) = inr (x, refl)
