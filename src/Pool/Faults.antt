-- ===== src/Pool/Faults.antt =====
-- Returns of pool/pool.go that are missed or made twice.
use mongobouncer.Base.Assoc.{delete, lookup-put_self, lookup-delete_self}
use mongobouncer.Base.Text.{Text, text_discrete, text_eq}
use mongobouncer.Base.{
  ℕ, ◌+◌, ◌-◌, ◌≡◌, refl, if_neg, sym, ◌∙◌, ◌≢◌, Bool, true, Option, none, some, ℕ_discrete, arith,
}
use mongobouncer.Pool.Runs.{get_pool_made}
use mongobouncer.Pool.Transactions.{Holds, get_connection_transaction}
use mongobouncer.Pool.Statements.{active-get_pool}
use mongobouncer.Pool.Reads.{
  active, find_conn-return_own, active-return_own, find_conn-checkout, active-checkout,
  find_conn-set_transaction_id,
}
use mongobouncer.Pool.Invariant.{IsLinked}
use mongobouncer.Pool.{
  ClientConnection, Manager, ok, find_pool, find_conn, get_client, set_client, get_pool,
  unregister_client, pool_return, return_own, checkout, held, set_transaction_id, get_transaction,
  get_connection, return_connection, with_stats, released, new_connection, client_of,
  PooledConnection,
}

module _ {M : Type 0} where
  get_transaction-moved :
      (m : Manager M) (id p tid : Text) (client : ClientConnection) (c now : ℕ)
      (conn : PooledConnection M)
      → client.transaction_conn ≡ some c
      → find_conn m c ≡ some conn
      → conn.pool ≢ p
      → conn.transaction_id ≢ tid
      → get_transaction m id p tid client now ≡ (
          let (m', d) = checkout m p id now in
          (
            set_client
                (set_transaction_id m' d tid)
                id
                (record client { transaction_conn = some d }),
            ok d,
          ))
  unfolding get_transaction held pool_return text_eq
  get_transaction-moved m id p tid client c now conn t e n o =
      rw (t, get_transaction) (ground (arith, e))

  -- In a manager whose pointers lead to what they name, a client in transaction mode that holds
  -- a connection of one pool and then asks another pool for a connection for another transaction
  -- is given a new connection, and the old one is not given back: it stays as it was, and its
  -- pool goes on counting it.
  pub get_connection_other_pool :
      (m : Manager M) (id p : Text) (mongo_client : Option M) (tid tid' : Text) (c now : ℕ)
      (conn : PooledConnection M)
      → IsLinked m
      → (h : Holds m id c tid) → find_conn m c ≡ some conn
      → conn.pool ≢ p
      → tid ≢ tid'
      → let (m', r) = get_connection m id p mongo_client true tid' now in
        (r ≡ ok m.next)
        × (c ≢ m.next)
        × (find_conn m' c ≡ some conn)
        × (active m' conn.pool ≡ active m conn.pool)
  unfolding get_pool checkout with_stats set_transaction_id
  get_connection_other_pool m id p mongo_client tid tid' c now conn v h e n o =
      let touched = record h.client { last_activity = now } in
      let m1 = set_client m id touched in
      let before = get_pool m1 p mongo_client h.client.pool_mode now in
      let m' = (checkout before p id now).0 in
      let made = new_connection p (client_of (find_pool before p)) id now in
      let named : conn.transaction_id ≡ tid = ground (arith, h.at, h.named) in
      let moved =
        get_transaction-moved before id p tid' touched c now conn h.transaction e n
          (λ x. o (sym named ∙ x)) in
      let new : c ≢ m.next = λ same. ground (arith, v.fresh c) in
      rw (get_connection_transaction m id p mongo_client tid' now h.client h.found h.by_transaction)
        (rw moved (
          refl,
          new,
          ground (
            arith,
            find_conn-set_transaction_id m' m.next c tid' made
                (lookup-put_self ℕ_discrete m.next made m.conns),
            find_conn-checkout before p id c now,
          ),
          active-checkout before p id conn.pool now
                (get_pool_made m1 p mongo_client h.client.pool_mode now)
              ∙ if_neg (text_discrete conn.pool p) n (active before conn.pool + 1)
                  (active before conn.pool)
              ∙ active-get_pool m1 p conn.pool mongo_client h.client.pool_mode now,
        ))

  -- A client that is unregistered while it holds one connection, and whose request then gives that
  -- connection back, has it counted down twice.
  pub unregister_client-return_connection :
      (m : Manager M) (id : Text) (client : ClientConnection) (c now later : ℕ)
      (conn : PooledConnection M) (is_end : Bool)
      → get_client m id ≡ some client
      → client.assigned_conn ≡ some c
      → client.transaction_conn ≡ none
      → find_conn m c ≡ some conn
      → active (return_connection (unregister_client m id now) id c is_end later) conn.pool
        ≡ active m conn.pool - 2
  unfolding unregister_client return_connection return_own released
  unregister_client-return_connection m id client c now later conn is_end e a t f =
      let m1 = return_own m (some c) now in
      let m2 = record m1 { active_clients = delete text_discrete id m1.active_clients } in
      let gone : get_client m2 id ≡ none = lookup-delete_self text_discrete id m1.active_clients in
      let left : unregister_client m id now ≡ m2 = rw (e, unregister_client) (rw (a, t) refl) in
      let found : find_conn m1 c ≡ some (released conn now) =
        ground (arith, find_conn-return_own m c c now conn f) in
      rw left (
        rw (gone, return_connection)
          (ground (
            arith,
            active-return_own m conn.pool c now conn f,
            active-return_own m2 conn.pool c later (released conn now) found,
          )))
