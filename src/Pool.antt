-- ===== src/Pool.antt =====
-- pool/pool.go: the pools and the clients of a proxy. `M` stands for MongoDB clients, whose pointers
-- may be nil. A pool, once made, stays in the map under its name, so that its name stands for the
-- pointer to it; a connection is named by its place in the heap. A client is only reached through
-- the map. The counters are int64 in the source, and the limit on clients an int, of which each that
-- is not positive means no limit, as 0 does here. Metrics and log lines are left out. `now` is what
-- `time.Now()` reads during a call.
mod Types
pub mod Counts
pub mod Invariant
pub mod Conns
pub mod Runs
pub mod Clients
pub mod Others
pub mod Modes
pub mod Reads
pub mod Transactions
pub mod Statements
pub mod Faults
mod Tests
unfoldable pub use Types.*
use mathlib.Core.List.{lookup}
use mongobouncer.Base.Assoc.{put, delete}
use mongobouncer.Base.Decimal.{decimal}
use mongobouncer.Base.Lists.{length}
use mongobouncer.Base.Text.{Text, text_discrete, text_eq, codes}
use mongobouncer.Base.{
  ℕ, zero, suc, ◌+◌, ◌-◌, ◌/◌, Bool, true, false, not, ◌&&◌, ◌||◌, Option, none, some, List, [],
  ◌∷◌, ◌++◌, ite, ltb, leb, ◌==◌, if◌then◌else◌, ℕ_discrete,
}

module _ {M : Type 0} where
  pub new_manager : Text → ℕ → ℕ → ℕ → Manager M
  new_manager default_mode min_pool_size max_pool_size max_client_conn = record {
    pools = [];
    default_mode = parse_mode default_mode;
    min_pool_size = min_pool_size;
    max_pool_size = max_pool_size;
    max_client_conn = max_client_conn;
    active_clients = [];
    conns = [];
    next = 0;
  }

  unfoldable pub new_pool : Text → Option M → PoolMode → ℕ → ConnectionPool M
  new_pool database mongo_client mode now = record {
    name = database;
    mode = mode;
    mongo_client = mongo_client;
    stats = new_stats;
    last_health_check = now;
    is_healthy = true;
    health_check_interval = 30_000_000_000;
  }

  abbrev pub find_pool : Manager M → Text → Option (ConnectionPool M)
  find_pool m database = lookup text_discrete database m.pools

  abbrev pub find_conn : Manager M → ℕ → Option (PooledConnection M)
  find_conn m c = lookup ℕ_discrete c m.conns

  -- The pool that the caller goes on with is the one under `database`.
  unfoldable pub get_pool : Manager M → Text → Option M → PoolMode → ℕ → Manager M
  get_pool m database mongo_client mode now = record m {
    pools = elim (find_pool m database) [
      | some _ ↦ m.pools
      | none ↦
          put text_discrete database
            (new_pool database mongo_client (or_default mode m.default_mode) now) m.pools
    ];
  }

  abbrev pub get_client : Manager M → Text → Option ClientConnection
  get_client m client_id = lookup text_discrete client_id m.active_clients

  abbrev pub set_client : Manager M → Text → ClientConnection → Manager M
  set_client m client_id client = record m {
    active_clients = put text_discrete client_id client m.active_clients;
  }

  unfoldable pub register_client :
      Manager M → Text → Text → Text → PoolMode → ℕ → Manager M × Result ClientConnection
  register_client m client_id username database pool_mode now = elim (get_client m client_id) [
    | some client ↦ (m, ok client)
    | none ↦
        if ltb 0 m.max_client_conn && leb m.max_client_conn (length m.active_clients)
        then (m, err too_many_clients)
        else let client = new_client client_id username database pool_mode now in
          (set_client m client_id client, ok client)
  ]

  -- A write to the statistics of a pool.
  pub with_stats : Manager M → Text → (PoolStats → PoolStats) → Manager M
  with_stats m p f = record m {
    pools = elim (find_pool m p) [
      | none ↦ m.pools
      | some pool ↦ put text_discrete p (record pool { stats = f pool.stats }) m.pools
    ];
  }

  pub released : PooledConnection M → ℕ → PooledConnection M
  released conn now = record conn {
    in_use = false;
    client_id = [];
    transaction_id = [];
    last_used = now;
  }

  -- `p.Return(conn)`
  unfoldable pub pool_return : Manager M → Text → Option ℕ → ℕ → Manager M
  pool_return m p none now = m
  pool_return m p (some c) now = elim (find_conn m c) [
    | none ↦ m
    | some conn ↦
        if text_eq conn.pool p
        then with_stats (record m { conns = put ℕ_discrete c (released conn now) m.conns }) p
            decrement_active_connections
        else m
  ]

  -- `conn.Pool.Return(conn)`
  unfoldable pub return_own : Manager M → Option ℕ → ℕ → Manager M
  return_own m none now = m
  return_own m (some c) now = elim (find_conn m c) [
    | none ↦ m
    | some conn ↦ pool_return m conn.pool (some c) now
  ]

  unfoldable pub unregister_client : Manager M → Text → ℕ → Manager M
  unregister_client m client_id now = elim (get_client m client_id) [
    | none ↦ m
    | some client ↦
        let returned =
          return_own (return_own m client.assigned_conn now) client.transaction_conn now in
        record returned { active_clients = delete text_discrete client_id returned.active_clients }
  ]

  pub new_connection : Text → Option M → Text → ℕ → PooledConnection M
  new_connection p mongo_client client_id now = record {
    id = p ++ b'-' ∷ decimal now;
    mongo_client = mongo_client;
    pool = p;
    in_use = true;
    last_used = now;
    created_at = now;
    transaction_id = [];
    client_id = client_id;
  }

  -- `p.mongoClient`
  abbrev pub client_of : Option (ConnectionPool M) → Option M
  client_of none = none
  client_of (some pool) = pool.mongo_client

  -- The error that it returns is always nil.
  unfoldable pub checkout : Manager M → Text → Text → ℕ → Manager M × ℕ
  checkout m p client_id now = (
    with_stats
        (record m {
          conns =
              put ℕ_discrete m.next (new_connection p (client_of (find_pool m p)) client_id now)
                m.conns;
          next = suc m.next;
        })
        p checked_out,
    m.next,
  )

  -- The connection that the client holds for the transaction, if it holds one.
  pub held : Manager M → Option ℕ → Text → Option ℕ
  held m none transaction_id = none
  held m (some c) transaction_id = elim (find_conn m c) [
    | none ↦ none
    | some conn ↦ if text_eq conn.transaction_id transaction_id then some c else none
  ]

  pub set_transaction_id : Manager M → ℕ → Text → Manager M
  set_transaction_id m c transaction_id = record m {
    conns = elim (find_conn m c) [
      | none ↦ m.conns
      | some conn ↦ put ℕ_discrete c (record conn { transaction_id = transaction_id }) m.conns
    ];
  }

  abbrev pub checkout_ok : Manager M → Text → Text → ℕ → Manager M × Result ℕ
  checkout_ok m p client_id now = let (m', c) = checkout m p client_id now in (m', ok c)

  -- The session mode's case of `GetConnection`.
  unfoldable pub get_assigned :
      Manager M → Text → Text → ClientConnection → ℕ → Manager M × Result ℕ
  get_assigned m client_id p client now = elim client.assigned_conn [
    | some c ↦ (m, ok c)
    | none ↦
        let (m', c) = checkout m p client_id now in
        (set_client m' client_id (record client { assigned_conn = some c }), ok c)
  ]

  -- The transaction mode's case, inside a transaction.
  unfoldable pub get_transaction :
      Manager M → Text → Text → Text → ClientConnection → ℕ → Manager M × Result ℕ
  get_transaction m client_id p transaction_id client now =
      elim (held m client.transaction_conn transaction_id) [
        | some c ↦ (m, ok c)
        | none ↦
            let returned = pool_return m p client.transaction_conn now in
            let (m', c) = checkout returned p client_id now in
            (
              set_client (set_transaction_id m' c transaction_id) client_id
                  (record client { transaction_conn = some c }),
              ok c,
            )
      ]

  unfoldable pub get_connection :
      Manager M → Text → Text → Option M → Bool → Text → ℕ → Manager M × Result ℕ
  get_connection m client_id database mongo_client is_transaction transaction_id now =
      elim (get_client m client_id) [
        | none ↦ (m, err client_not_registered)
        | some client ↦
            let touched = record client { last_activity = now } in
            let m' =
              get_pool (set_client m client_id touched) database mongo_client client.pool_mode
                now in
            elim client.pool_mode [
              | session_mode ↦ get_assigned m' client_id database touched now
              | transaction_mode ↦
                  if is_transaction
                  then get_transaction m' client_id database transaction_id touched now
                  else checkout_ok m' database client_id now
              | statement_mode ↦ checkout_ok m' database client_id now
              | other_mode s ↦ (m', err (unknown_pool_mode (other_mode s)))
            ]
      ]

  unfoldable pub return_connection : Manager M → Text → ℕ → Bool → ℕ → Manager M
  return_connection m client_id c is_end_of_transaction now =
      let returned = return_own m (some c) now in
      elim (get_client m client_id) [
        | none ↦ returned
        | some client ↦ elim client.pool_mode [
          | session_mode ↦ if same_conn client.assigned_conn c then m else returned
          | transaction_mode ↦
              if is_end_of_transaction && same_conn client.transaction_conn c
              then set_client returned client_id (record client { transaction_conn = none })
              else if not is_end_of_transaction && not (same_conn client.transaction_conn c)
              then returned
              else m
          | statement_mode ↦ returned
          | other_mode _ ↦ m
        ]
      ]

  -- Its error and the pool afterwards; `now` is read while no other call is made.
  pub check_connection_health : ConnectionPool M → ℕ → ConnectionPool M × Result (Unit {0})
  check_connection_health p now =
      if ltb (now - p.last_health_check) p.health_check_interval
      then if p.is_healthy then (p, ok tt) else (p, err marked_unhealthy)
      else elim p.mongo_client [
        | none ↦ (record p { is_healthy = false; last_health_check = now }, err client_is_nil)
        | some _ ↦ (record p { is_healthy = true; last_health_check = now }, ok tt)
      ]

  pub mark_connection_unhealthy : ConnectionPool M → ℕ → ConnectionPool M
  mark_connection_unhealthy p now = record p { is_healthy = false; last_health_check = now }

  -- The success rate as a fraction: successful requests and requests, or all of them, out of none.
  pub success_rate : ConnectionPool M → ℕ × ℕ
  success_rate p =
      if p.stats.total_requests == 0
      then (1, 1)
      else (p.stats.successful_requests, p.stats.total_requests)

  -- The largest size is a fixed 10, and a negative rest is 0.
  pub get_stats : ConnectionPool M → StatsReport
  get_stats p = record {
    name = p.name;
    mode = p.mode;
    total_requests = p.stats.total_requests;
    successful_requests = p.stats.successful_requests;
    failed_requests = p.stats.failed_requests;
    connection_errors = p.stats.connection_errors;
    active_connections = p.stats.active_connections;
    success_rate = success_rate p;
    is_healthy = p.is_healthy;
    last_health_check = p.last_health_check;
    avg_wait_time_ms = avg_wait_time p.stats / 1_000_000;
    in_use = p.stats.active_connections;
    max_size = 10;
    total_connections = p.stats.active_connections;
    available = 10 - p.stats.active_connections;
    waiting_clients = 0;
  }

  pub get_default_mode : Manager M → PoolMode
  get_default_mode m = m.default_mode

  pub get_default_pool_sizes : Manager M → ℕ × ℕ
  get_default_pool_sizes m = (m.min_pool_size, m.max_pool_size)
