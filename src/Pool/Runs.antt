-- ===== src/Pool/Runs.antt =====
-- Histories of a pool manager of pool/pool.go: any calls, in any order.
use mongobouncer.Base.Assoc.{put, lookup-put_self}
use mongobouncer.Base.Lists.{length}
use mongobouncer.Base.Text.{Text, text_discrete}
use mongobouncer.Base.{
  ℕ, ◌≡◌, refl, subst, ◌≢◌, ◌<◌, Bool, ◌&&◌, Option, none, some, List, [], ◌∷◌, ltb, leb,
  ℕ_discrete, arith, inl, inr, Option-cases, Bool-cases,
}
use mongobouncer.Pool.Invariant.{
  IsValid, new_manager-IsValid, get_pool-IsValid, set_client-IsValid, drop_client-IsValid,
}
use mongobouncer.Pool.Conns.{
  find_pool-with_stats, pool_return-IsValid, checkout-IsValid, set_transaction_id-IsValid,
}
use mongobouncer.Pool.{
  PoolMode, ClientConnection, Manager, new_manager, new_client, find_pool, find_conn, get_client,
  set_client, get_pool, register_client, unregister_client, pool_return, return_own, checkout, held,
  set_transaction_id, get_assigned, get_transaction, get_connection, return_connection, with_stats,
  new_pool, or_default, released, decrement_active_connections,
}

pub data Call (M : Type 0) : Type 0 where
  registers : Text → Text → Text → PoolMode → Call M
  unregisters : Text → Call M
  pools : Text → Option M → PoolMode → Call M
  gets : Text → Text → Option M → Bool → Text → Call M
  returns : Text → ℕ → Bool → Call M

module _ {M : Type 0} where
  unfoldable pub step : Manager M → ℕ → Call M → Manager M
  step m now (registers id username database mode) =
      (register_client m id username database mode now).0
  step m now (unregisters id) = unregister_client m id now
  step m now (pools database client mode) = get_pool m database client mode now
  step m now (gets id database client is_transaction transaction_id) =
      (get_connection m id database client is_transaction transaction_id now).0
  step m now (returns id c is_end) = return_connection m id c is_end now

  unfoldable pub run : Manager M → List (ℕ × Call M) → Manager M
  run m [] = m
  run m ((now, call) ∷ calls) = run (step m now call) calls

  -- What the calls on connections leave as it is.
  pub record Keeps (m m' : Manager M) : Type 0 where
    pub clients : m'.active_clients ≡ m.active_clients
    pub max : m'.max_client_conn ≡ m.max_client_conn
    pub allocations : m'.next ≡ m.next
    pub made : (q : Text) → find_pool m q ≢ none → find_pool m' q ≢ none

  Keeps-refl : (m : Manager M) → Keeps m m
  Keeps-refl m = record { clients = refl; max = refl; allocations = refl; made = λ q h. h }

  pub pool_return-Keeps :
      (m : Manager M) (p : Text) (c : Option ℕ) (now : ℕ) → Keeps m (pool_return m p c now)
  unfolding pool_return with_stats
  pool_return-Keeps m p none now = Keeps-refl m
  pool_return-Keeps m p (some c) now = elim (Option-cases (find_conn m c)) [
    | inl e ↦ rw (e, pool_return) (Keeps-refl m)
    | inr (conn, e) ↦
        let m' = record m { conns = put ℕ_discrete c (released conn now) m.conns } in
        record {
          clients = ground arith;
          max = ground arith;
          allocations = ground arith;
          made = λ q h. ground (arith, find_pool-with_stats m' p q decrement_active_connections);
        }
  ]

  pub return_own-Keeps : (m : Manager M) (c : Option ℕ) (now : ℕ) → Keeps m (return_own m c now)
  unfolding return_own
  return_own-Keeps m none now = Keeps-refl m
  return_own-Keeps m (some c) now = elim (Option-cases (find_conn m c)) [
    | inl e ↦ rw (e, return_own) (Keeps-refl m)
    | inr (conn, e) ↦ rw (e, return_own) (pool_return-Keeps m conn.pool (some c) now)
  ]

  return_own-IsValid :
      (m : Manager M) (c : Option ℕ) (now : ℕ) → IsValid m → IsValid (return_own m c now)
  unfolding return_own
  return_own-IsValid m none now v = v
  return_own-IsValid m (some c) now v = elim (Option-cases (find_conn m c)) [
    | inl e ↦ rw (e, return_own) v
    | inr (conn, e) ↦ rw (e, return_own) (pool_return-IsValid m conn.pool (some c) now v)
  ]

  pub register_client-IsValid :
      (m : Manager M) (id username database : Text) (mode : PoolMode) (now : ℕ)
      → IsValid m
      → IsValid (register_client m id username database mode now).0
  unfolding register_client new_client
  register_client-IsValid m id username database mode now v =
      elim (Option-cases (get_client m id)) [
        | inr (client, e) ↦ rw (e, register_client) v
        | inl e ↦
            elim (Bool-cases
              (ltb 0 m.max_client_conn && leb m.max_client_conn (length m.active_clients))) [
                | inl full ↦ rw (e, register_client, full) v
                | inr space ↦
                    rw (e, register_client, space)
                      (set_client-IsValid m id (new_client id username database mode now)
                        (λ c h. absurd (ground arith)) (λ c h. absurd (ground arith)) v)
              ]
      ]

  pub unregister_client-IsValid :
      (m : Manager M) (id : Text) (now : ℕ) → IsValid m → IsValid (unregister_client m id now)
  unfolding unregister_client
  unregister_client-IsValid m id now v = elim (Option-cases (get_client m id)) [
    | inl e ↦ rw (e, unregister_client) v
    | inr (client, e) ↦
        rw (e, unregister_client)
          (drop_client-IsValid _ id (
            return_own-IsValid _ client.transaction_conn now
              (return_own-IsValid m client.assigned_conn now v)))
  ]

  pub return_connection-IsValid :
      (m : Manager M) (id : Text) (c : ℕ) (is_end : Bool) (now : ℕ)
      → IsValid m
      → IsValid (return_connection m id c is_end now)
  unfolding return_connection
  return_connection-IsValid m id c is_end now v =
      let returned = return_own-IsValid m (some c) now v in
      let kept = return_own-Keeps m (some c) now in
      elim (Option-cases (get_client m id)) [
        | inl e ↦ rw (e, return_connection) returned
        | inr (client, e) ↦
            let released =
              set_client-IsValid (return_own m (some c) now) id
                (record client { transaction_conn = none })
                (λ d h. ground (arith, v.linked.assigned id client d e h))
                (λ d h. absurd (ground arith)) returned in
            ground arith
      ]

  pub get_pool_made :
      (m : Manager M) (p : Text) (client : Option M) (mode : PoolMode) (now : ℕ)
      → find_pool (get_pool m p client mode now) p ≢ none
  unfolding get_pool
  get_pool_made m p client mode now = ground (
    arith,
    lookup-put_self text_discrete p (new_pool p client (or_default mode m.default_mode) now)
        m.pools,
  )

  get_pool_next :
      (m : Manager M) (p : Text) (client : Option M) (mode : PoolMode) (now : ℕ)
      → m.next ≡ (get_pool m p client mode now).next
  unfolding get_pool
  get_pool_next m p client mode now = refl

  get_assigned-IsValid :
      (m : Manager M) (id p : Text) (client : ClientConnection) (now : ℕ)
      → find_pool m p ≢ none
      → ((c : ℕ) → client.transaction_conn ≡ some c → c < m.next)
      → IsValid m
      → IsValid (get_assigned m id p client now).0
  unfolding get_assigned checkout with_stats
  get_assigned-IsValid m id p client now h t v = elim (Option-cases client.assigned_conn) [
    | inr (c, e) ↦ rw (e, get_assigned) v
    | inl e ↦
        rw (e, get_assigned)
          (set_client-IsValid (checkout m p id now).0 id
            (record client { assigned_conn = some m.next }) (λ c k. ground arith)
            (λ c k. ground (arith, t c k)) (checkout-IsValid m p id now h v))
  ]

  get_transaction-IsValid :
      (m : Manager M) (id p transaction_id : Text) (client : ClientConnection) (now : ℕ)
      → find_pool m p ≢ none
      → ((c : ℕ) → client.assigned_conn ≡ some c → c < m.next)
      → IsValid m
      → IsValid (get_transaction m id p transaction_id client now).0
  unfolding get_transaction checkout with_stats set_transaction_id
  get_transaction-IsValid m id p transaction_id client now h a v =
      let returned = pool_return m p client.transaction_conn now in
      let kept = pool_return-Keeps m p client.transaction_conn now in
      elim (Option-cases (held m client.transaction_conn transaction_id)) [
        | inr (c, e) ↦ rw (e, get_transaction) v
        | inl e ↦
            rw (e, get_transaction)
              (set_client-IsValid
                (set_transaction_id (checkout returned p id now).0 returned.next transaction_id) id
                (record client { transaction_conn = some returned.next })
                (λ c k. ground (arith, a c k)) (λ c k. ground arith)
                (set_transaction_id-IsValid (checkout returned p id now).0 returned.next
                  transaction_id
                  (checkout-IsValid returned p id now (kept.made p h)
                    (pool_return-IsValid m p client.transaction_conn now v))))
      ]

  pub get_connection-IsValid :
      (m : Manager M) (id p : Text) (client : Option M) (is_transaction : Bool)
      (transaction_id : Text) (now : ℕ)
      → IsValid m
      → IsValid (get_connection m id p client is_transaction transaction_id now).0
  unfolding get_connection
  get_connection-IsValid m id p mongo_client is_transaction transaction_id now v =
      elim (Option-cases (get_client m id)) [
        | inl e ↦ rw (e, get_connection) v
        | inr (client, e) ↦
            let touched = record client { last_activity = now } in
            let m'' = set_client m id touched in
            let m' = get_pool m'' p mongo_client client.pool_mode now in
            let made =
              get_pool_made (set_client m id touched) p mongo_client client.pool_mode now in
            let valid =
              get_pool-IsValid (set_client m id touched) p mongo_client client.pool_mode now (
                set_client-IsValid m id touched (λ c h. v.linked.assigned id client c e h)
                  (λ c h. v.linked.in_transaction id client c e h) v) in
            let in_t = λ (c : ℕ) (h : client.transaction_conn ≡ some c).
              subst (λ n. c < n) (get_pool_next m'' p mongo_client client.pool_mode now)
                (v.linked.in_transaction id client c e h) in
            let in_a = λ (c : ℕ) (h : client.assigned_conn ≡ some c).
              subst (λ n. c < n) (get_pool_next m'' p mongo_client client.pool_mode now)
                (v.linked.assigned id client c e h) in
            ground (
              arith,
              get_assigned-IsValid m' id p touched now made in_t valid,
              get_transaction-IsValid m' id p transaction_id touched now made in_a valid,
              checkout-IsValid m' p id now made valid,
            )
      ]

  pub step-IsValid :
      (m : Manager M) (now : ℕ) (call : Call M) → IsValid m → IsValid (step m now call)
  unfolding step
  step-IsValid m now (registers id username database mode) v =
      register_client-IsValid m id username database mode now v
  step-IsValid m now (unregisters id) v = unregister_client-IsValid m id now v
  step-IsValid m now (pools database client mode) v = get_pool-IsValid m database client mode now v
  step-IsValid m now (gets id database client is_transaction transaction_id) v =
      get_connection-IsValid m id database client is_transaction transaction_id now v
  step-IsValid m now (returns id c is_end) v = return_connection-IsValid m id c is_end now v

  run-IsValid : (m : Manager M) (calls : List (ℕ × Call M)) → IsValid m → IsValid (run m calls)
  unfolding run
  run-IsValid m [] v = v
  run-IsValid m ((now, call) ∷ calls) v =
      run-IsValid (step m now call) calls (step-IsValid m now call v)

  -- After any calls on a new manager, every pool has served each of its requests, has no failures,
  -- counts at most as many connections active as are in use, and pointers lead to what they name.
  pub run-new_manager-IsValid :
      (mode : Text) (lo hi max : ℕ) (calls : List (ℕ × Call M))
      → IsValid (run (new_manager mode lo hi max) calls)
  run-new_manager-IsValid mode lo hi max calls =
      run-IsValid _ calls (new_manager-IsValid mode lo hi max)
