-- ===== src/Pool/Statements.antt =====
-- The statement mode of pool/pool.go, and what a return counts.
use mongobouncer.Base.Assoc.{lookup-put, lookup-put_self}
use mongobouncer.Base.Text.{Text, text_discrete}
use mongobouncer.Base.{ℕ, ◌+◌, ◌≡◌, refl, ap, ◌∙◌, ◌≢◌, Bool, true, Option, none, some, arith}
use mongobouncer.Pool.Runs.{get_pool_made}
use mongobouncer.Pool.Reads.{
  active, find_conn-return_own, active-return_own, find_conn-checkout, active-checkout,
}
use mongobouncer.Pool.Invariant.{IsLinked, IsValid, get_pool-IsValid, set_client-IsValid}
use mongobouncer.Pool.{
  PoolMode, statement_mode, ClientConnection, Manager, ok, find_pool, find_conn, get_client,
  set_client, get_pool, return_own, checkout, get_connection, return_connection, checkout_ok,
  with_stats, released, new_connection, client_of, new_pool, or_default, new_stats,
  PooledConnection,
}

module _ {M : Type 0} where
  -- A pool has no more connections active just because it was looked up.
  pub active-get_pool :
      (m : Manager M) (p q : Text) (client : Option M) (mode : PoolMode) (now : ℕ)
      → active (get_pool m p client mode now) q ≡ active m q
  unfolding get_pool new_pool new_stats
  active-get_pool m p q client mode now = ground (
    arith,
    lookup-put text_discrete p q (new_pool p client (or_default mode m.default_mode) now) m.pools,
  )

  -- A connection that is checked out and given back.
  checkout-return :
      (m : Manager M) (p id : Text) (now later : ℕ)
      → IsLinked m
      → find_pool m p ≢ none
      → let m' = (checkout m p id now).0 in
        let m'' = return_own m' (some m.next) later in
        (active m' p ≡ active m p + 1)
        × ((conn : PooledConnection M) × (find_conn m' m.next ≡ some conn)
            × (conn.in_use ≡ true)
            × (conn.pool ≡ p)
            × (find_conn m'' m.next ≡ some (released conn later)))
        × ((q : Text) → active m'' q ≡ active m q)
  unfolding new_connection
  checkout-return m p id now later v h =
      let conn = new_connection p (client_of (find_pool m p)) id now in
      let m' = (checkout m p id now).0 in
      let found : find_conn m' m.next ≡ some conn =
        ground (arith, find_conn-checkout m p id m.next now) in
      (
        ground (arith, active-checkout m p id p now h),
        (
          conn,
          found,
          refl,
          refl,
          ground (arith, find_conn-return_own m' m.next m.next later conn found),
        ),
        λ q.
            ground (
              arith,
              active-return_own m' q m.next later conn found,
              active-checkout m p id q now h,
            ),
      )

  get_connection_statement :
      (m : Manager M) (id p : Text) (mongo_client : Option M) (t : Bool) (tid : Text) (now : ℕ)
      (client : ClientConnection)
      → get_client m id ≡ some client
      → client.pool_mode ≡ statement_mode
      → get_connection m id p mongo_client t tid now
        ≡ checkout_ok
            (get_pool
              (set_client m id (record client { last_activity = now }))
              p
              mongo_client
              client.pool_mode
              now)
            p
            id
            now
  unfolding get_connection
  get_connection_statement m id p mongo_client t tid now client e s =
      rw (e, get_connection) (ground arith)

  return_connection_statement :
      (m : Manager M) (id : Text) (c : ℕ) (is_end : Bool) (now : ℕ) (client : ClientConnection)
      → get_client m id ≡ some client
      → client.pool_mode ≡ statement_mode
      → return_connection m id c is_end now ≡ return_own m (some c) now
  unfolding return_connection
  return_connection_statement m id c is_end now client e s =
      rw (e, return_connection) (ground arith)

  -- In a valid manager, a client in statement mode is given for each request a connection that
  -- no one has, in use, for which its pool counts one active connection more; its return,
  -- whatever it says of a transaction, takes it out of use and leaves every pool with the count
  -- from before the request.
  pub get-return_statement :
      (m : Manager M) (id p : Text) (mongo_client : Option M) (t is_end : Bool) (tid : Text)
      (now later : ℕ) (client : ClientConnection)
      → IsValid m
      → get_client m id ≡ some client
      → client.pool_mode ≡ statement_mode
      → let (m', r) = get_connection m id p mongo_client t tid now in
        let m'' = return_connection m' id m.next is_end later in
        (r ≡ ok m.next)
        × (find_conn m m.next ≡ none)
        × (active m' p ≡ active m p + 1)
        × ((conn : PooledConnection M) × (find_conn m' m.next ≡ some conn)
            × (conn.in_use ≡ true)
            × (conn.pool ≡ p)
            × (find_conn m'' m.next ≡ some (released conn later)))
        × ((q : Text) → active m'' q ≡ active m q)
  unfolding get_pool checkout with_stats
  get-return_statement m id p mongo_client t is_end tid now later client v e s =
      let touched = record client { last_activity = now } in
      let m1 = set_client m id touched in
      let before = get_pool m1 p mongo_client client.pool_mode now in
      let valid = get_pool-IsValid m1 p mongo_client client.pool_mode now (
        set_client-IsValid m id touched (λ c h. v.linked.assigned id client c e h)
          (λ c h. v.linked.in_transaction id client c e h) v) in
      let got = get_connection_statement m id p mongo_client t tid now client e s in
      let life =
        checkout-return before p id now later valid.linked
          (get_pool_made m1 p mongo_client client.pool_mode now) in
      let returned =
        return_connection_statement (checkout before p id now).0 id m.next is_end later touched
          (lookup-put_self text_discrete id touched m.active_clients) s in
      let counts = λ (q : Text). active-get_pool m1 p q mongo_client client.pool_mode now in
      rw got (
        rw returned (
          refl,
          v.linked.fresh m.next (omega arith),
          life.0 ∙ ap (λ n. n + 1) (counts p),
          life.1,
          λ q. life.2 q ∙ counts q,
        ))
