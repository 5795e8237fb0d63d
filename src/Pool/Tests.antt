-- ===== src/Pool/Tests.antt =====
-- pool/pool.go at concrete managers.
use mathlib.Core.List.{lookup}
use mongobouncer.Base.Assoc.{put}
use mongobouncer.Base.Decimal.{decimal}
use mongobouncer.Base.Lists.{length}
use mongobouncer.Base.Text.{Text, codes, text_discrete}
use mongobouncer.Base.{
  ℕ, ℕ_discrete, ◌+◌, ◌-◌, ◌≡◌, refl, ◌≢◌, ◌≤◌, true, false, none, some, List, [], ◌∷◌, arith,
}
use mongobouncer.Pool.Clients.{length-run-le}
use mongobouncer.Pool.Faults.{get_connection_other_pool, unregister_client-return_connection}
use mongobouncer.Pool.Invariant.{IsValid}
use mongobouncer.Pool.Modes.{get_connection_session}
use mongobouncer.Pool.Reads.{active}
use mongobouncer.Pool.Runs.{Call, registers, gets, returns, step, run, run-new_manager-IsValid}
use mongobouncer.Pool.Statements.{get-return_statement}
use mongobouncer.Pool.Transactions.{get_connection_same_transaction}
use mongobouncer.Pool.{
  PoolMode, session_mode, transaction_mode, statement_mode, PooledConnection, ClientConnection,
  Manager, ok, new_manager, new_client, find_conn, register_client, unregister_client,
  get_connection, return_connection, released, get_transaction, get_pool, new_pool, checkout,
  with_stats, set_transaction_id, pool_return, new_connection, held,
}

abbrev sales : Text
sales = codes "sales"

abbrev stock : Text
stock = codes "stock"

abbrev ann : Text
ann = codes "ann"

abbrev empty : Manager ℕ
empty = new_manager (codes "transaction") 1 10 2

abbrev client_in : PoolMode → ClientConnection
client_in mode = record {
  id = ann;
  username = ann;
  database = sales;
  pool_mode = mode;
  assigned_conn = none;
  transaction_conn = none;
  last_activity = 1;
}

-- A manager with one client, before its first request.
abbrev registered : PoolMode → Manager ℕ
registered mode = record {
  pools = [];
  default_mode = transaction_mode;
  min_pool_size = 1;
  max_pool_size = 10;
  max_client_conn = 2;
  active_clients = (ann, client_in mode) ∷ [];
  conns = [];
  next = 0;
}

abbrev calls : List (ℕ × Call ℕ)
calls =
    (1, registers ann ann sales transaction_mode)
    ∷ (2, gets ann sales (some 9) true (codes "t1"))
    ∷ []

abbrev in_transaction : Manager ℕ
in_transaction = run empty calls

run-new_manager-IsValid_example : IsValid in_transaction
run-new_manager-IsValid_example = run-new_manager-IsValid (codes "transaction") 1 10 2 calls

length-run-le_example : length in_transaction.active_clients ≤ 2
length-run-le_example = length-run-le (codes "transaction") 1 10 2 calls (omega arith)

get_connection_session_example :
    (c : ℕ) × ((get_connection (registered session_mode) ann sales (some 9) false [] 2).1 ≡ ok c)
    × ((get_connection
          (run
            (get_connection (registered session_mode) ann sales (some 9) false [] 2).0
            ((3, returns ann 0 true) ∷ []))
          ann
          stock
          none
          true
          []
          4).1
        ≡ ok c)
unfolding lookup text_discrete
get_connection_session_example =
    get_connection_session (registered session_mode) ann (client_in session_mode) sales stock
      (some 9) none false true [] [] 2 4 ((3, returns ann 0 true) ∷ []) refl refl (tt, tt)

get_connection_same_transaction_example :
    let m' =
      (get_connection (registered transaction_mode) ann sales (some 9) true (codes "t1") 2).0 in
    (c : ℕ) × ((get_connection
        (registered transaction_mode)
        ann
        sales
        (some 9)
        true
        (codes "t1")
        2).1
      ≡ ok c)
    × ((get_connection m' ann stock none true (codes "t1") 3).1 ≡ ok c)
    × (return_connection m' ann c false 3 ≡ m')
    × ((conn : PooledConnection ℕ) × (find_conn (return_connection m' ann c true 3) c ≡ some conn)
        × (conn.in_use ≡ false))
unfolding lookup text_discrete
get_connection_same_transaction_example =
    get_connection_same_transaction (registered transaction_mode) ann (client_in transaction_mode)
      sales stock (codes "t1") (some 9) none 2 3 refl refl

abbrev one_client : List (ℕ × Call ℕ)
one_client = (1, registers ann ann sales statement_mode) ∷ []

get-return_statement_example :
    let m = run empty one_client in
    let (m', r) = get_connection m ann sales (some 9) false [] 2 in
    let m'' = return_connection m' ann m.next false 3 in
    (r ≡ ok m.next)
    × (find_conn m m.next ≡ none)
    × (active m' sales ≡ active m sales + 1)
    × ((conn : PooledConnection ℕ) × (find_conn m' m.next ≡ some conn)
        × (conn.in_use ≡ true)
        × (conn.pool ≡ sales)
        × (find_conn m'' m.next ≡ some (released conn 3)))
    × ((q : Text) → active m'' q ≡ active m q)
unfolding run step new_manager register_client new_client lookup text_discrete put
get-return_statement_example =
    get-return_statement (run empty one_client) ann sales (some 9) false false [] 2 3
      (client_in statement_mode) (run-new_manager-IsValid (codes "transaction") 1 10 2 one_client)
      refl refl

-- A client in transaction mode with a connection to one database that moves on to another one.
abbrev taken : PooledConnection ℕ
taken = record {
  id = codes "sales-2";
  mongo_client = some 9;
  pool = sales;
  in_use = true;
  last_used = 2;
  created_at = 2;
  transaction_id = codes "t1";
  client_id = ann;
}

abbrev holder : ClientConnection
holder = record (client_in transaction_mode) { transaction_conn = some 0; last_activity = 2 }

get_connection_other_pool_example :
    let (m', r) = get_connection in_transaction ann stock none true (codes "t2") 3 in
    (r ≡ ok in_transaction.next)
    × (0 ≢ in_transaction.next)
    × (find_conn m' 0 ≡ some taken)
    × (active m' sales ≡ active in_transaction sales)
unfolding run step new_manager register_client new_client get_connection get_transaction get_pool
    new_pool checkout with_stats set_transaction_id pool_return new_connection held decimal lookup
    text_discrete put ℕ_discrete
get_connection_other_pool_example =
    get_connection_other_pool in_transaction ann stock none (codes "t1") (codes "t2") 0 3 taken
      (run-new_manager-IsValid (codes "transaction") 1 10 2 calls).linked
      (record {
        client = holder;
        found = refl;
        by_transaction = refl;
        transaction = refl;
        conn = taken;
        at = refl;
        named = refl;
      })
      refl (λ e. ground arith) (λ e. ground arith)

-- A client in session mode with a connection.
abbrev keeper : ClientConnection
keeper = record (client_in session_mode) { assigned_conn = some 0 }

abbrev in_session : Manager ℕ
in_session = record (registered session_mode) {
  active_clients = (ann, keeper) ∷ [];
  conns = (0, taken) ∷ [];
  next = 1;
}

unregister_client-return_connection_example :
    active (return_connection (unregister_client in_session ann 3) ann 0 true 4) sales
    ≡ active in_session sales - 2
unfolding lookup text_discrete ℕ_discrete
unregister_client-return_connection_example =
    unregister_client-return_connection in_session ann keeper 0 3 4 taken true refl refl refl refl
