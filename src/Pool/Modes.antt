-- ===== src/Pool/Modes.antt =====
-- What the modes of pool/pool.go promise: a client in session mode keeps its connection.
use mongobouncer.Base.Assoc.{put, lookup-put, lookup-put_self, lookup-delete}
use mongobouncer.Base.Text.{Text, text_discrete}
use mongobouncer.Base.{
  ℕ, ◌≡◌, refl, subst, ◌∙◌, ◌≢◌, Bool, Option, none, some, List, [], ◌∷◌, arith, inl, inr,
  Option-cases,
}
use mongobouncer.Pool.Others.{get_connection-other}
use mongobouncer.Pool.Runs.{
  Call, registers, unregisters, pools, gets, returns, step, run, return_own-Keeps,
}
use mongobouncer.Pool.{
  PoolMode, session_mode, ClientConnection, Manager, ok, new_client, get_client, get_pool,
  register_client, unregister_client, return_own, checkout, get_assigned, get_connection,
  return_connection, with_stats,
}

-- A call that leaves a client registered.
abbrev pub Leaves : {M : Type 0} → Text → Call M → Type 0
Leaves id (unregisters other) = id ≢ other
Leaves id (registers _ _ _ _) = Unit
Leaves id (pools _ _ _) = Unit
Leaves id (gets _ _ _ _ _) = Unit
Leaves id (returns _ _ _) = Unit

abbrev pub AllLeave : {M : Type 0} → Text → List (ℕ × Call M) → Type 0
AllLeave id [] = Unit
AllLeave id ((_, call) ∷ calls) = Leaves id call × AllLeave id calls

-- A client in session mode that holds a connection.
pub record Assigned {M : Type 0} (m : Manager M) (id : Text) (c : ℕ) : Type 0 where
  pub client : ClientConnection
  pub found : get_client m id ≡ some client
  pub in_session : client.pool_mode ≡ session_mode
  pub conn : client.assigned_conn ≡ some c

module _ {M : Type 0} where
  -- In session mode `GetConnection` hands out the connection that the client holds.
  get_connection_keeps :
      (m : Manager M) (id : Text) (c : ℕ) (p : Text) (client : Option M) (is_transaction : Bool)
      (transaction_id : Text) (now : ℕ)
      → Assigned m id c
      → (get_connection m id p client is_transaction transaction_id now).1 ≡ ok c
  unfolding get_connection get_assigned
  get_connection_keeps m id c p client t tid now a =
      rw (a.found, get_connection) (ground (arith, a.conn, a.in_session))

  get_connection-Assigned :
      (m : Manager M) (id : Text) (c : ℕ) (p : Text) (client : Option M) (is_transaction : Bool)
      (transaction_id : Text) (now : ℕ)
      → Assigned m id c
      → Assigned (get_connection m id p client is_transaction transaction_id now).0 id c
  unfolding get_connection get_assigned get_pool
  get_connection-Assigned m id c p client t tid now a = record {
    client = record a.client { last_activity = now };
    found =
        rw (a.found, get_connection)
          (ground (
            arith,
            a.conn,
            a.in_session,
            lookup-put_self text_discrete id (record a.client { last_activity = now })
                m.active_clients,
          ));
    in_session = a.in_session;
    conn = a.conn;
  }

  return_connection-Assigned :
      (m : Manager M) (id other : Text) (c d : ℕ) (is_end : Bool) (now : ℕ)
      → Assigned m id c
      → Assigned (return_connection m other d is_end now) id c
  unfolding return_connection
  return_connection-Assigned m id other c d is_end now a =
      let kept = return_own-Keeps m (some d) now in
      record {
        client = a.client;
        found = elim (Option-cases (get_client m other)) [
          | inl e ↦ rw (e, return_connection) (ground (arith, a.found))
          | inr (client, e) ↦ ground (
            arith,
            a.found,
            a.in_session,
            lookup-put text_discrete other id (record client { transaction_conn = none })
                m.active_clients,
          )
        ];
        in_session = a.in_session;
        conn = a.conn;
      }

  unregister_client-Assigned :
      (m : Manager M) (id other : Text) (c now : ℕ)
      → id ≢ other
      → Assigned m id c
      → Assigned (unregister_client m other now) id c
  unfolding unregister_client
  unregister_client-Assigned m id other c now n a = record {
    client = a.client;
    found = elim (Option-cases (get_client m other)) [
      | inl e ↦ rw (e, unregister_client) a.found
      | inr (client, e) ↦
          let m' = return_own m client.assigned_conn now in
          let kept = return_own-Keeps m client.assigned_conn now in
          let kept' = return_own-Keeps m' client.transaction_conn now in
          rw (e, unregister_client)
            (ground (
              arith,
              a.found,
              lookup-delete text_discrete other id
                  (return_own m' client.transaction_conn now).active_clients,
            ))
    ];
    in_session = a.in_session;
    conn = a.conn;
  }

  register_client-Assigned :
      (m : Manager M) (id other username database : Text) (mode : PoolMode) (c now : ℕ)
      → Assigned m id c
      → Assigned (register_client m other username database mode now).0 id c
  unfolding register_client
  register_client-Assigned m id other username database mode c now a = record {
    client = a.client;
    found = ground (
      arith,
      a.found,
      lookup-put text_discrete other id (new_client other username database mode now)
          m.active_clients,
    );
    in_session = a.in_session;
    conn = a.conn;
  }

  step-Assigned :
      (m : Manager M) (id : Text) (c now : ℕ) (call : Call M)
      → Leaves id call
      → Assigned m id c
      → Assigned (step m now call) id c
  unfolding step get_pool
  step-Assigned m id c now (registers other username database mode) l a =
      register_client-Assigned m id other username database mode c now a
  step-Assigned m id c now (unregisters other) l a = unregister_client-Assigned m id other c now l a
  step-Assigned m id c now (pools database client mode) l a = record {
    client = a.client;
    found = a.found;
    in_session = a.in_session;
    conn = a.conn;
  }
  step-Assigned m id c now (gets other p client t tid) l a = elim (text_discrete id other) [
    | yes same ↦
        subst (λ x. Assigned (get_connection m x p client t tid now).0 id c) same
          (get_connection-Assigned m id c p client t tid now a)
    | no n ↦ record {
      client = a.client;
      found = get_connection-other m id other p client t tid now n ∙ a.found;
      in_session = a.in_session;
      conn = a.conn;
    }
  ]
  step-Assigned m id c now (returns other d is_end) l a =
      return_connection-Assigned m id other c d is_end now a

  run-Assigned :
      (m : Manager M) (id : Text) (c : ℕ) (calls : List (ℕ × Call M))
      → AllLeave id calls
      → Assigned m id c
      → Assigned (run m calls) id c
  unfolding run
  run-Assigned m id c [] l a = a
  run-Assigned m id c ((now, call) ∷ calls) l a =
      run-Assigned (step m now call) id c calls l.1 (step-Assigned m id c now call l.0 a)

  -- The first call gives the client a connection to keep.
  assigns :
      (m : Manager M) (id p : Text) (mongo_client : Option M) (t : Bool) (tid : Text) (now : ℕ)
      (client : ClientConnection)
      → get_client m id ≡ some client
      → client.pool_mode ≡ session_mode
      → (c : ℕ) × ((get_connection m id p mongo_client t tid now).1 ≡ ok c)
        × Assigned (get_connection m id p mongo_client t tid now).0 id c
  unfolding get_connection get_assigned get_pool checkout with_stats
  assigns m id p mongo_client t tid now client e s = elim (Option-cases client.assigned_conn) [
    | inr (c, h) ↦
        let a : Assigned m id c = record { client = client; found = e; in_session = s; conn = h } in
        (
          c,
          get_connection_keeps m id c p mongo_client t tid now a,
          get_connection-Assigned m id c p mongo_client t tid now a,
        )
    | inl h ↦
        let touched = record client { last_activity = now } in
        let kept = record touched { assigned_conn = some m.next } in
        (
          m.next,
          rw (e, get_connection) (ground arith),
          record {
            client = kept;
            found =
                rw (e, get_connection)
                  (ground (
                    arith,
                    lookup-put_self text_discrete id kept
                        (put text_discrete id touched m.active_clients),
                  ));
            in_session = s;
            conn = refl;
          },
        )
  ]

  -- A client in session mode that asks for a connection is given one, and is given the same one
  -- whenever it asks again, for any database, whatever calls come between, as long as it is not
  -- unregistered.
  pub get_connection_session :
      (m : Manager M) (id : Text) (client : ClientConnection) (p q : Text)
      (mongo_client mongo_client' : Option M) (t t' : Bool) (tid tid' : Text) (now later : ℕ)
      (calls : List (ℕ × Call M))
      → get_client m id ≡ some client
      → client.pool_mode ≡ session_mode
      → AllLeave id calls
      → (c : ℕ) × ((get_connection m id p mongo_client t tid now).1 ≡ ok c)
        × ((get_connection
              (run (get_connection m id p mongo_client t tid now).0 calls)
              id
              q
              mongo_client'
              t'
              tid'
              later).1
            ≡ ok c)
  get_connection_session m id client p q mongo_client mongo_client' t t' tid tid' now later calls e
        s l =
      let (c, given, a) = assigns m id p mongo_client t tid now client e s in
      let m' = (get_connection m id p mongo_client t tid now).0 in
      (
        c,
        given,
        get_connection_keeps (run m' calls) id c q mongo_client' t' tid' later
            (run-Assigned m' id c calls l a),
      )
