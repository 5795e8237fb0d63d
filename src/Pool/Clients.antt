-- ===== src/Pool/Clients.antt =====
-- The clients of a pool manager of pool/pool.go: how many there are, and what they keep.
use mongobouncer.Base.Assoc.{length-put-le, length-put_present, length-delete-le, lookup-put_self}
use mongobouncer.Base.Lists.{length}
use mongobouncer.Base.Text.{Text, text_discrete}
use mongobouncer.Base.{
  ℕ, ◌≡◌, refl, ◌≤◌, ◌<◌, ◌↔◌, Bool, Option, none, some, List, [], ◌∷◌, arith, inl, inr,
  Option-cases,
}
use mongobouncer.Pool.Runs.{
  Call, registers, unregisters, pools, gets, returns, step, run, return_own-Keeps,
  pool_return-Keeps,
}
use mongobouncer.Pool.{
  PoolMode, ClientConnection, Manager, err, too_many_clients, new_manager, new_client, get_client,
  set_client, get_pool, register_client, unregister_client, pool_return, return_own, checkout,
  set_transaction_id, get_assigned, get_transaction, get_connection, return_connection, with_stats,
}

module _ {M : Type 0} where
  -- At most as many clients as allowed; 0 allows any number.
  pub record IsWithin (m : Manager M) (max : ℕ) : Type 0 where
    pub limit : m.max_client_conn ≡ max
    pub within : 0 < max → length m.active_clients ≤ max

  -- A call that leaves the limit and the number of clients as they are.
  record SameSize (m m' : Manager M) : Type 0 where
    max : m'.max_client_conn ≡ m.max_client_conn
    size : length m'.active_clients ≡ length m.active_clients

  get_assigned-SameSize :
      (m : Manager M) (id p : Text) (client old : ClientConnection) (now : ℕ)
      → get_client m id ≡ some old
      → SameSize m (get_assigned m id p client now).0
  unfolding get_assigned checkout with_stats
  get_assigned-SameSize m id p client old now e =
      let same =
        λ (x : ClientConnection). length-put_present text_discrete id x old m.active_clients e in
      record {
        max = ground arith;
        size = ground (arith, same (record client { assigned_conn = some m.next }));
      }

  get_transaction-SameSize :
      (m : Manager M) (id p transaction_id : Text) (client old : ClientConnection) (now : ℕ)
      → get_client m id ≡ some old
      → SameSize m (get_transaction m id p transaction_id client now).0
  unfolding get_transaction checkout with_stats set_transaction_id
  get_transaction-SameSize m id p transaction_id client old now e =
      let kept = pool_return-Keeps m p client.transaction_conn now in
      let returned = pool_return m p client.transaction_conn now in
      let same =
        length-put_present text_discrete id
          (record client { transaction_conn = some returned.next }) old m.active_clients e in
      record { max = ground arith; size = ground (arith, same) }

  -- `GetConnection` keeps the clients that there are, with other states.
  get_connection-SameSize :
      (m : Manager M) (id p : Text) (client : Option M) (is_transaction : Bool)
      (transaction_id : Text) (now : ℕ)
      → SameSize m (get_connection m id p client is_transaction transaction_id now).0
  unfolding get_connection get_pool checkout with_stats
  get_connection-SameSize m id p mongo_client is_transaction transaction_id now =
      elim (Option-cases (get_client m id)) [
        | inl e ↦ rw (e, get_connection) (record { max = refl; size = refl })
        | inr (client, e) ↦
            let touched = record client { last_activity = now } in
            let m'' = set_client m id touched in
            let m' = get_pool m'' p mongo_client client.pool_mode now in
            let found = lookup-put_self text_discrete id touched m.active_clients in
            let a = get_assigned-SameSize m' id p touched touched now found in
            let t = get_transaction-SameSize m' id p transaction_id touched touched now found in
            let same = length-put_present text_discrete id touched client m.active_clients e in
            record { max = ground arith; size = ground arith }
      ]

  step-IsWithin :
      (m : Manager M) (max now : ℕ) (call : Call M)
      → IsWithin m max
      → IsWithin (step m now call) max
  unfolding step register_client unregister_client return_connection get_pool
  step-IsWithin m max now (registers id username database mode) v = record {
    limit = ground arith;
    within = λ h. ground (
      arith,
      length-put-le text_discrete id (new_client id username database mode now) m.active_clients,
    );
  }
  step-IsWithin m max now (unregisters id) v = elim (Option-cases (get_client m id)) [
    | inl e ↦ rw (e, unregister_client) v
    | inr (client, e) ↦
        let m' = return_own m client.assigned_conn now in
        let kept = return_own-Keeps m client.assigned_conn now in
        let kept' = return_own-Keeps m' client.transaction_conn now in
        rw (e, unregister_client)
          (record {
            limit = ground arith;
            within = λ h. ground (
              arith,
              length-delete-le text_discrete id
                  (return_own m' client.transaction_conn now).active_clients,
            );
          })
  ]
  step-IsWithin m max now (pools database client mode) v = record {
    limit = v.limit;
    within = v.within;
  }
  step-IsWithin m max now (gets id p client t tid) v =
      let same = get_connection-SameSize m id p client t tid now in
      record { limit = ground arith; within = λ h. ground arith }
  step-IsWithin m max now (returns id c is_end) v = elim (Option-cases (get_client m id)) [
    | inl e ↦
        let kept = return_own-Keeps m (some c) now in
        rw (e, return_connection) (record { limit = ground arith; within = λ h. ground arith })
    | inr (client, e) ↦
        let kept = return_own-Keeps m (some c) now in
        let len =
          length-put_present text_discrete id (record client { transaction_conn = none }) client
            m.active_clients e in
        record { limit = ground arith; within = λ h. ground arith }
  ]

  run-IsWithin :
      (m : Manager M) (max : ℕ) (calls : List (ℕ × Call M))
      → IsWithin m max
      → IsWithin (run m calls) max
  unfolding run
  run-IsWithin m max [] v = v
  run-IsWithin m max ((now, call) ∷ calls) v =
      run-IsWithin (step m now call) max calls (step-IsWithin m max now call v)

  -- After any calls on a new manager with a positive limit, there are at most that many clients.
  pub length-run-le :
      (mode : Text) (lo hi max : ℕ) (calls : List (ℕ × Call M))
      → 0 < max
      → length (run (new_manager mode lo hi max) calls).active_clients ≤ max
  unfolding new_manager
  length-run-le mode lo hi max calls h =
      (run-IsWithin (new_manager mode lo hi max) max calls
          (record { limit = refl; within = λ _. omega arith })).within
        h

  -- A client is refused exactly if it is not registered and the limit is positive and reached.
  pub register_client-refused :
      (m : Manager M) (id username database : Text) (mode : PoolMode) (now : ℕ)
      → (register_client m id username database mode now).1 ≡ err too_many_clients ↔ (
          (get_client m id ≡ none)
          × (0 < m.max_client_conn)
          × (m.max_client_conn ≤ length m.active_clients))
  unfolding register_client
  register_client-refused m id username database mode now = (λ h. ground arith, λ h. ground arith)
