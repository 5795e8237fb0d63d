-- ===== src/Connection/Stale.antt =====
-- Which client serves a pooled round trip of proxy/connection.go.
use mongobouncer.Base.Text.{Text, codes, text_eq}
use mongobouncer.Base.{
  ℕ, ◌≡◌, ◌≢◌, refl, Bool, Option, none, arith, Option-cases, Bool-cases, inl, inr,
}
use mongobouncer.Connection.Names.{or_else}
use mongobouncer.Connection.Pooling.{
  is_transaction, transaction_id_of, register_for, with_registered, serve_pooled,
  round_trip_with_pool, try_forward,
}
use mongobouncer.Connection.Pools.{Result-cases}
use mongobouncer.Connection.State.{Connection, Request, Servers}
use mongobouncer.Pool.Runs.{return_own-Keeps}
use mongobouncer.Pool.{
  Manager, PoolMode, find_pool, get_client, get_pool, get_connection, set_client, register_client,
  unregister_client, return_own,
}

get_pool-other :
    (m : Manager ℕ) (p : Text) (a b : Option ℕ) (mode : PoolMode) (now : ℕ)
    → find_pool m p ≢ none
    → get_pool m p a mode now ≡ get_pool m p b mode now
unfolding get_pool
get_pool-other m p a b mode now h = ground (arith, Option-cases (find_pool m p))

get_connection-other :
    (m : Manager ℕ) (id p : Text) (a b : Option ℕ) (in_transaction : Bool) (transaction_id : Text)
    (now : ℕ)
    → find_pool m p ≢ none
    → get_connection m id p a in_transaction transaction_id now
      ≡ get_connection m id p b in_transaction transaction_id now
unfolding get_connection
get_connection-other m id p a b in_transaction transaction_id now h =
    elim (Option-cases (get_client m id)) [
      | inl e ↦ rw (e, get_connection) refl
      | inr (client, e) ↦
          let touched = set_client m id (record client { last_activity = now }) in
          ground (arith, e, get_pool-other touched p a b client.pool_mode now h)
    ]

find_pool-register_client :
    (m : Manager ℕ) (id username database p : Text) (mode : PoolMode) (now : ℕ)
    → find_pool (register_client m id username database mode now).0 p ≡ find_pool m p
unfolding register_client
find_pool-register_client m id username database p mode now = ground arith

unregister_client_made :
    (m : Manager ℕ) (id p : Text) (now : ℕ)
    → find_pool m p ≢ none
    → find_pool (unregister_client m id now) p ≢ none
unfolding unregister_client
unregister_client_made m id p now h = elim (Option-cases (get_client m id)) [
  | inl e ↦ rw (e, unregister_client) h
  | inr (client, e) ↦
      let returned = return_own m client.assigned_conn now in
      rw (e, unregister_client)
        ((return_own-Keeps returned client.transaction_conn now).made p
          ((return_own-Keeps m client.assigned_conn now).made p h))
]

register_for_made :
    (m : Manager ℕ) (c : Connection) (database p : Text) (now : ℕ)
    → find_pool m p ≢ none
    → find_pool (register_for m c database now).0 p ≢ none
unfolding register_for
register_for_made m c database p now h =
    let username = or_else c.client_username (codes "default") in
    elim (Option-cases (get_client m c.client_id)) [
      | inl e ↦
          rw
            (
              e,
              register_for,
              find_pool-register_client m c.client_id username database p m.default_mode now,
            )
            h
      | inr (client, e) ↦ elim (Bool-cases (text_eq client.database database)) [
        | inl same ↦ rw (e, same, register_for) h
        | inr other ↦
            rw
              (
                e,
                other,
                register_for,
                find_pool-register_client (unregister_client m c.client_id now) c.client_id username
                    database p m.default_mode now,
              )
              (unregister_client_made m c.client_id p now h)
      ]
    ]

module _ {W E : Type 0} (servers : Servers W E) where
  with_registered-other :
      (w : W) (m : Manager ℕ) (c : Connection) (request : Request E) (p : Text) (a b : Option ℕ)
      (now : ℕ)
      → find_pool m p ≢ none
      → with_registered servers w m c request p a now
        ≡ with_registered servers w m c request p b now
  unfolding with_registered
  with_registered-other w m c request p a b now h =
      let details = request.methods.transaction_details in
      ground (
        arith,
        get_connection-other m c.client_id p a b (is_transaction details)
            (transaction_id_of details) now h,
      )

  serve_pooled-other :
      (w : W) (m : Manager ℕ) (c : Connection) (request : Request E) (p : Text) (a b : Option ℕ)
      (now : ℕ)
      → find_pool m p ≢ none
      → serve_pooled servers w m c request p a now ≡ serve_pooled servers w m c request p b now
  unfolding serve_pooled
  serve_pooled-other w m c request p a b now h =
      let registered = register_for m c p now in
      elim (Result-cases registered.1) [
        | inl (e, k) ↦ rw (k, serve_pooled) refl
        | inr (client, k) ↦
            rw (k, serve_pooled)
              (with_registered-other w registered.0 c request p a b now
                (register_for_made m c p p now h))
      ]

  -- Once the database has a pool, the client that the route has now does not matter to a pooled
  -- round trip: with any other client the answer, the servers and the pool manager are the same.
  pub round_trip_with_pool-other :
      (w : W) (m : Manager ℕ) (c : Connection) (request : Request E) (database_name : Text)
      (a b : Option ℕ) (now : ℕ)
      → find_pool m (or_else database_name (codes "default")) ≢ none
      → round_trip_with_pool servers w m c request database_name a now
        ≡ round_trip_with_pool servers w m c request database_name b now
  unfolding round_trip_with_pool
  round_trip_with_pool-other w m c request database_name a b now h =
      let asked = try_forward servers w c request in
      let p = or_else database_name (codes "default") in
      ground (arith, serve_pooled-other asked.0 m c request p a b now h, Option-cases asked.1)
