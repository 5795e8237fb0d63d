-- ===== src/Connection/Pools.antt =====
-- What the requests of a connection of proxy/connection.go keep of the pool manager.
use mongobouncer.Base.Text.{Text, codes, text_eq}
use mongobouncer.Base.{ℕ, ◌≡◌, ◌⊎◌, inl, inr, refl, Option, Option-cases, Bool-cases}
use mongobouncer.Connection.Names.{or_else}
use mongobouncer.Connection.Pooling.{
  register_for, use_pooled, with_registered, serve_pooled, try_forward, round_trip_with_pool,
  transaction_id_of, is_transaction,
}
use mongobouncer.Connection.State.{Connection, Request, Servers}
use mongobouncer.Pool.Invariant.{IsValid}
use mongobouncer.Pool.Runs.{
  register_client-IsValid, unregister_client-IsValid, get_connection-IsValid,
  return_connection-IsValid,
}
use mongobouncer.Pool.{Manager, Error, Result, ok, err, get_client, get_connection}
use mongobouncer.Selection.{is_end_of_transaction}

pub Result-cases :
    {A : Type 0} (r : Result A) → ((e : Error) × (r ≡ err e)) ⊎ ((x : A) × (r ≡ ok x))
Result-cases (ok x) = inr (x, refl)
Result-cases (err e) = inl (e, refl)

register_for-IsValid :
    (m : Manager ℕ) (c : Connection) (database : Text) (now : ℕ)
    → IsValid m
    → IsValid (register_for m c database now).0
unfolding register_for
register_for-IsValid m c database now v =
    let username = or_else c.client_username (codes "default") in
    elim (Option-cases (get_client m c.client_id)) [
      | inl e ↦
          rw (e, register_for)
            (register_client-IsValid m c.client_id username database m.default_mode now v)
      | inr (client, e) ↦ elim (Bool-cases (text_eq client.database database)) [
        | inl same ↦ rw (e, same, register_for) v
        | inr other ↦
            rw (e, other, register_for)
              (register_client-IsValid _ c.client_id username database m.default_mode now
                (unregister_client-IsValid m c.client_id now v))
      ]
    ]

module _ {W E : Type 0} (servers : Servers W E) where
  with_registered-IsValid :
      (w : W) (m : Manager ℕ) (c : Connection) (request : Request E) (database : Text)
      (mongo_client : Option ℕ) (now : ℕ)
      → IsValid m
      → IsValid (with_registered servers w m c request database mongo_client now).1.0
  unfolding with_registered use_pooled
  with_registered-IsValid w m c request database mongo_client now v =
      let details = request.methods.transaction_details in
      let taken =
        get_connection m c.client_id database mongo_client (is_transaction details)
          (transaction_id_of details) now in
      let valid =
        get_connection-IsValid m c.client_id database mongo_client (is_transaction details)
          (transaction_id_of details) now v in
      elim (Result-cases taken.1) [
        | inl (e, k) ↦ rw (k, with_registered) valid
        | inr (conn, k) ↦
            rw (k, with_registered)
              (return_connection-IsValid taken.0 c.client_id conn
                (is_end_of_transaction (request.methods.command_and_collection).0 details) now
                valid)
      ]

  serve_pooled-IsValid :
      (w : W) (m : Manager ℕ) (c : Connection) (request : Request E) (database : Text)
      (mongo_client : Option ℕ) (now : ℕ)
      → IsValid m
      → IsValid (serve_pooled servers w m c request database mongo_client now).1.0
  unfolding serve_pooled
  serve_pooled-IsValid w m c request database mongo_client now v =
      let registered = register_for m c database now in
      let valid = register_for-IsValid m c database now v in
      elim (Result-cases registered.1) [
        | inl (e, k) ↦ rw (k, serve_pooled) valid
        | inr (client, k) ↦
            rw (k, serve_pooled)
              (with_registered-IsValid w registered.0 c request database mongo_client now valid)
      ]

  pub round_trip_with_pool-IsValid :
      (w : W) (m : Manager ℕ) (c : Connection) (request : Request E) (database_name : Text)
      (mongo_client : Option ℕ) (now : ℕ)
      → IsValid m
      → IsValid (round_trip_with_pool servers w m c request database_name mongo_client now).1.0
  unfolding round_trip_with_pool
  round_trip_with_pool-IsValid w m c request database_name mongo_client now v =
      let asked = try_forward servers w c request in
      elim (Option-cases asked.1) [
        | inl e ↦
            rw (e, round_trip_with_pool)
              (serve_pooled-IsValid asked.0 m c request (or_else database_name (codes "default"))
                mongo_client now v)
        | inr (answer, e) ↦ rw (e, round_trip_with_pool) v
      ]
