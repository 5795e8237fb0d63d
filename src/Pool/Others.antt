-- ===== src/Pool/Others.antt =====
-- What one client of pool/pool.go does with connections, seen from the other clients.
use mongobouncer.Base.Assoc.{lookup-put}
use mongobouncer.Base.Text.{Text, text_discrete}
use mongobouncer.Base.{ℕ, ◌≡◌, refl, ◌≢◌, Bool, Option, some, arith, inl, inr, Option-cases}
use mongobouncer.Pool.Runs.{pool_return-Keeps}
use mongobouncer.Pool.{
  ClientConnection, Manager, get_client, set_client, get_pool, pool_return, checkout,
  set_transaction_id, get_assigned, get_transaction, get_connection, with_stats,
}

module _ {M : Type 0} where
  -- What one client does with connections does not touch another client.
  get_assigned-other :
      (m : Manager M) (id other p : Text) (client : ClientConnection) (now : ℕ)
      → id ≢ other
      → get_client (get_assigned m other p client now).0 id ≡ get_client m id
  unfolding get_assigned checkout with_stats
  get_assigned-other m id other p client now n = ground (
    arith,
    lookup-put text_discrete other id (record client { assigned_conn = some m.next })
        m.active_clients,
  )

  get_transaction-other :
      (m : Manager M) (id other p transaction_id : Text) (client : ClientConnection) (now : ℕ)
      → id ≢ other
      → get_client (get_transaction m other p transaction_id client now).0 id ≡ get_client m id
  unfolding get_transaction checkout with_stats set_transaction_id
  get_transaction-other m id other p transaction_id client now n =
      let returned = pool_return m p client.transaction_conn now in
      let kept = pool_return-Keeps m p client.transaction_conn now in
      ground (
        arith,
        lookup-put text_discrete other id (record client { transaction_conn = some returned.next })
            m.active_clients,
      )

  pub get_connection-other :
      (m : Manager M) (id other p : Text) (client : Option M) (is_transaction : Bool)
      (transaction_id : Text) (now : ℕ)
      → id ≢ other
      → get_client (get_connection m other p client is_transaction transaction_id now).0 id
        ≡ get_client m id
  unfolding get_connection checkout with_stats get_pool
  get_connection-other m id other p mongo_client is_transaction transaction_id now n =
      elim (Option-cases (get_client m other)) [
        | inl e ↦ rw (e, get_connection) refl
        | inr (client, e) ↦
            let touched = record client { last_activity = now } in
            let m'' = set_client m other touched in
            let m' = get_pool m'' p mongo_client client.pool_mode now in
            ground (
              arith,
              lookup-put text_discrete other id touched m.active_clients,
              get_assigned-other m' id other p touched now n,
              get_transaction-other m' id other p transaction_id touched now n,
            )
      ]
