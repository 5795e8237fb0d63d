-- ===== src/Pool/Transactions.antt =====
-- The transaction mode of pool/pool.go.
use mongobouncer.Base.Assoc.{lookup-put_self}
use mongobouncer.Base.Text.{Text, text_discrete, text_eq}
use mongobouncer.Base.{ℕ, ◌≡◌, refl, true, false, Option, none, some, arith, inl, inr, Option-cases}
use mongobouncer.Pool.Runs.{return_own-Keeps}
use mongobouncer.Pool.Reads.{find_conn-return_own, find_conn-checkout, find_conn-set_transaction_id}
use mongobouncer.Pool.{
  transaction_mode, ClientConnection, Manager, ok, find_pool, find_conn, get_client, set_client,
  get_pool, pool_return, return_own, checkout, held, set_transaction_id, get_transaction,
  get_connection, return_connection, same_conn, with_stats, released, new_connection, client_of,
  PooledConnection,
}

-- A client in transaction mode that holds a connection for a transaction.
pub record Holds {M : Type 0} (m : Manager M) (id : Text) (c : ℕ) (tid : Text) : Type 0 where
  pub client : ClientConnection
  pub found : get_client m id ≡ some client
  pub by_transaction : client.pool_mode ≡ transaction_mode
  pub transaction : client.transaction_conn ≡ some c
  pub conn : PooledConnection M
  pub at : find_conn m c ≡ some conn
  pub named : conn.transaction_id ≡ tid

module _ {M : Type 0} where
  -- The end of a transaction gives the held connection back and the client holds none; any other
  -- return of it does nothing, so that it is kept until then.
  pub return_connection_held :
      (m : Manager M) (id : Text) (c : ℕ) (tid : Text) (now : ℕ)
      → Holds m id c tid
      → (return_connection m id c false now ≡ m)
        × ((client : ClientConnection) × (get_client (return_connection m id c true now) id
              ≡ some client)
            × (client.transaction_conn ≡ none))
        × ((conn : PooledConnection M) × (find_conn (return_connection m id c true now) c
              ≡ some conn)
            × (conn.in_use ≡ false))
  unfolding return_connection same_conn released
  return_connection_held m id c tid now h =
      let freed = record h.client { transaction_conn = none } in
      let kept = return_own-Keeps m (some c) now in
      (
        rw (h.found, return_connection) (ground (arith, h.by_transaction, h.transaction)),
        (
          freed,
          rw (h.found, return_connection)
              (ground (
                arith,
                h.by_transaction,
                h.transaction,
                lookup-put_self text_discrete id freed (return_own m (some c) now).active_clients,
              )),
          refl,
        ),
        (
          released h.conn now,
          rw (h.found, return_connection)
              (ground (
                arith,
                h.by_transaction,
                h.transaction,
                find_conn-return_own m c c now h.conn h.at,
              )),
          refl,
        ),
      )

  held-some :
      (m : Manager M) (tc : Option ℕ) (c : ℕ) (tid : Text)
      → held m tc tid ≡ some c
      → (tc ≡ some c)
        × ((conn : PooledConnection M) × (find_conn m c ≡ some conn) × (conn.transaction_id ≡ tid))
  unfolding held text_eq
  held-some m none c tid h = absurd (ground arith)
  held-some m (some d) c tid h = elim (Option-cases (find_conn m d)) [
    | inl e ↦ absurd (ground arith)
    | inr (conn, e) ↦ (ground arith, (conn, ground arith, ground arith))
  ]

  held-Holds :
      (m : Manager M) (id : Text) (c : ℕ) (tid : Text)
      → (h : Holds m id c tid) → held m h.client.transaction_conn tid ≡ some c
  unfolding held text_eq
  held-Holds m id c tid h = rw h.transaction (ground (arith, h.at, h.named))

  get_transaction-Holds :
      (m : Manager M) (id p tid : Text) (client : ClientConnection) (now : ℕ)
      → get_client m id ≡ some client
      → client.pool_mode ≡ transaction_mode
      → (c : ℕ) × ((get_transaction m id p tid client now).1 ≡ ok c)
        × Holds (get_transaction m id p tid client now).0 id c tid
  unfolding get_transaction checkout with_stats set_transaction_id
  get_transaction-Holds m id p tid client now e s =
      elim (Option-cases (held m client.transaction_conn tid)) [
        | inr (c, h) ↦
            let (t, (conn, at, named)) = held-some m client.transaction_conn c tid h in
            (
              c,
              rw (h, get_transaction) refl,
              rw (h, get_transaction)
                  (record {
                    client = client;
                    found = e;
                    by_transaction = s;
                    transaction = t;
                    conn = conn;
                    at = at;
                    named = named;
                  }),
            )
        | inl h ↦
            let returned = pool_return m p client.transaction_conn now in
            let m' = (checkout returned p id now).0 in
            let made = new_connection p (client_of (find_pool returned p)) id now in
            let kept = record client { transaction_conn = some returned.next } in
            let found : find_conn m' returned.next ≡ some made =
              ground (arith, find_conn-checkout returned p id returned.next now) in
            (
              returned.next,
              rw (h, get_transaction) refl,
              rw (h, get_transaction)
                  (record {
                    client = kept;
                    found = lookup-put_self text_discrete id kept returned.active_clients;
                    by_transaction = s;
                    transaction = refl;
                    conn = record made { transaction_id = tid };
                    at = ground (
                      arith,
                      find_conn-set_transaction_id m' returned.next returned.next tid made found,
                    );
                    named = refl;
                  }),
            )
      ]

  -- What `GetConnection` goes on with, in transaction mode and inside a transaction.
  pub get_connection_transaction :
      (m : Manager M) (id p : Text) (mongo_client : Option M) (tid : Text) (now : ℕ)
      (client : ClientConnection)
      → get_client m id ≡ some client
      → client.pool_mode ≡ transaction_mode
      → get_connection m id p mongo_client true tid now
        ≡ get_transaction
            (get_pool
              (set_client m id (record client { last_activity = now }))
              p
              mongo_client
              client.pool_mode
              now)
            id
            p
            tid
            (record client { last_activity = now })
            now
  unfolding get_connection
  get_connection_transaction m id p mongo_client tid now client e s =
      rw (e, get_connection) (ground arith)

  get_connection-Holds :
      (m : Manager M) (id p : Text) (mongo_client : Option M) (tid : Text) (now : ℕ)
      (client : ClientConnection)
      → get_client m id ≡ some client
      → client.pool_mode ≡ transaction_mode
      → (c : ℕ) × ((get_connection m id p mongo_client true tid now).1 ≡ ok c)
        × Holds (get_connection m id p mongo_client true tid now).0 id c tid
  unfolding get_pool
  get_connection-Holds m id p mongo_client tid now client e s =
      let touched = record client { last_activity = now } in
      let before = get_pool (set_client m id touched) p mongo_client client.pool_mode now in
      rw (get_connection_transaction m id p mongo_client tid now client e s) (
        get_transaction-Holds before id p tid touched now
          (lookup-put_self text_discrete id touched m.active_clients) s)

  get_connection_held :
      (m : Manager M) (id : Text) (c : ℕ) (tid p : Text) (mongo_client : Option M) (now : ℕ)
      → Holds m id c tid
      → (get_connection m id p mongo_client true tid now).1 ≡ ok c
  unfolding get_pool get_transaction
  get_connection_held m id c tid p mongo_client now h =
      let touched = record h.client { last_activity = now } in
      let before = get_pool (set_client m id touched) p mongo_client h.client.pool_mode now in
      let h' : Holds before id c tid = record {
        client = touched;
        found = lookup-put_self text_discrete id touched m.active_clients;
        by_transaction = h.by_transaction;
        transaction = h.transaction;
        conn = h.conn;
        at = h.at;
        named = h.named;
      } in
      rw (get_connection_transaction m id p mongo_client tid now h.client h.found h.by_transaction)
        (ground (arith, held-Holds before id c tid h'))

  -- A client in transaction mode that asks for a connection for a transaction is given one; asking
  -- again for that transaction, for any database, gives the same; a return that does not end the
  -- transaction changes nothing; the return that ends it takes the connection out of use.
  pub get_connection_same_transaction :
      (m : Manager M) (id : Text) (client : ClientConnection) (p q tid : Text)
      (mongo_client mongo_client' : Option M) (now later : ℕ)
      → get_client m id ≡ some client
      → client.pool_mode ≡ transaction_mode
      → let m' = (get_connection m id p mongo_client true tid now).0 in
        (c : ℕ) × ((get_connection m id p mongo_client true tid now).1 ≡ ok c)
        × ((get_connection m' id q mongo_client' true tid later).1 ≡ ok c)
        × (return_connection m' id c false later ≡ m')
        × ((conn : PooledConnection M) × (find_conn (return_connection m' id c true later) c
              ≡ some conn)
            × (conn.in_use ≡ false))
  get_connection_same_transaction m id client p q tid mongo_client mongo_client' now later e s =
      let (c, given, h) = get_connection-Holds m id p mongo_client tid now client e s in
      let m' = (get_connection m id p mongo_client true tid now).0 in
      let (idle, _, ended) = return_connection_held m' id c tid later h in
      (c, given, get_connection_held m' id c tid q mongo_client' later h, idle, ended)
