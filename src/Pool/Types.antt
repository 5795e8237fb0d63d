-- ===== src/Pool/Types.antt =====
-- The state of pool/pool.go and the statistics of a pool.
use mongobouncer.Base.Text.{Text, text_eq, codes}
use mongobouncer.Base.{
  ℕ, ◌+◌, ◌-◌, ◌/◌, Bool, false, Option, none, some, List, [], ◌∷◌, ltb, ◌==◌, if◌then◌else◌,
}

-- The three modes, and any other string.
pub data PoolMode : Type 0 where
  session_mode transaction_mode statement_mode : PoolMode
  other_mode : Text → PoolMode

pub record PoolStats : Type 0 where
  pub total_requests : ℕ
  pub total_wait_time : ℕ
  pub successful_requests : ℕ
  pub failed_requests : ℕ
  pub connection_errors : ℕ
  pub active_connections : ℕ

pub record ConnectionPool (M : Type 0) : Type 0 where
  pub name : Text
  pub mode : PoolMode
  pub mongo_client : Option M
  pub stats : PoolStats
  pub last_health_check : ℕ
  pub is_healthy : Bool
  pub health_check_interval : ℕ

pub record PooledConnection (M : Type 0) : Type 0 where
  pub id : Text
  pub mongo_client : Option M
  pub pool : Text
  pub in_use : Bool
  pub last_used : ℕ
  pub created_at : ℕ
  pub transaction_id : Text
  pub client_id : Text

pub record ClientConnection : Type 0 where
  pub id : Text
  pub username : Text
  pub database : Text
  pub pool_mode : PoolMode
  pub assigned_conn : Option ℕ
  pub transaction_conn : Option ℕ
  pub last_activity : ℕ

pub record Manager (M : Type 0) : Type 0 where
  pub pools : List (Text × ConnectionPool M)
  pub default_mode : PoolMode
  pub min_pool_size : ℕ
  pub max_pool_size : ℕ
  pub max_client_conn : ℕ
  pub active_clients : List (Text × ClientConnection)
  pub conns : List (ℕ × PooledConnection M)
  pub next : ℕ

pub data Error : Type 0 where
  too_many_clients client_not_registered marked_unhealthy client_is_nil : Error
  unknown_pool_mode : PoolMode → Error

pub data Result (A : Type 0) : Type 0 where
  ok : A → Result A
  err : Error → Result A

unfoldable pub parse_mode : Text → PoolMode
parse_mode s =
    if text_eq s (codes "transaction")
    then transaction_mode
    else if text_eq s (codes "statement")
    then statement_mode
    else session_mode

unfoldable pub new_stats : PoolStats
new_stats = record {
  total_requests = 0;
  total_wait_time = 0;
  successful_requests = 0;
  failed_requests = 0;
  connection_errors = 0;
  active_connections = 0;
}

unfoldable pub decrement_active_connections : PoolStats → PoolStats
decrement_active_connections s =
    if ltb 0 s.active_connections
    then record s { active_connections = s.active_connections - 1 }
    else s

-- The statistics after a successful checkout.
unfoldable pub checked_out : PoolStats → PoolStats
checked_out s = record s {
  total_requests = s.total_requests + 1;
  successful_requests = s.successful_requests + 1;
  active_connections = s.active_connections + 1;
}

unfoldable pub avg_wait_time : PoolStats → ℕ
avg_wait_time s = if s.total_requests == 0 then 0 else s.total_wait_time / s.total_requests

-- `mode == ""`
unfoldable pub or_default : PoolMode → PoolMode → PoolMode
or_default (other_mode []) default = default
or_default (other_mode (c ∷ s)) default = other_mode (c ∷ s)
or_default session_mode default = session_mode
or_default transaction_mode default = transaction_mode
or_default statement_mode default = statement_mode

unfoldable pub new_client : Text → Text → Text → PoolMode → ℕ → ClientConnection
new_client id username database pool_mode now = record {
  id = id;
  username = username;
  database = database;
  pool_mode = pool_mode;
  assigned_conn = none;
  transaction_conn = none;
  last_activity = now;
}

-- Whether two connection pointers are the same.
unfoldable pub same_conn : Option ℕ → ℕ → Bool
same_conn none c = false
same_conn (some d) c = d == c

-- What GetStats reports. The success rate is a fraction, in hundreds: successful requests and all
-- requests; the utilization, which is always 0, is left out.
pub record StatsReport : Type 0 where
  pub name : Text
  pub mode : PoolMode
  pub total_requests : ℕ
  pub successful_requests : ℕ
  pub failed_requests : ℕ
  pub connection_errors : ℕ
  pub active_connections : ℕ
  pub success_rate : ℕ × ℕ
  pub is_healthy : Bool
  pub last_health_check : ℕ
  pub avg_wait_time_ms : ℕ
  pub in_use : ℕ
  pub max_size : ℕ
  pub total_connections : ℕ
  pub available : ℕ
  pub waiting_clients : ℕ
