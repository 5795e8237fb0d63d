-- ===== src/Pool/Reads.antt =====
-- What the calls of pool/pool.go leave to be read: connections, and how many count as active.
use mongobouncer.Base.Assoc.{put, lookup-put}
use mongobouncer.Base.Text.{Text, text_discrete, text_eq}
use mongobouncer.Base.{ℕ, suc, ◌+◌, ◌-◌, ◌≡◌, ◌≢◌, none, some, ite, ℕ_discrete, arith}
use mongobouncer.Pool.Conns.{find_pool-with_stats}
use mongobouncer.Pool.{
  Manager, find_pool, find_conn, pool_return, return_own, checkout, set_transaction_id, with_stats,
  released, new_connection, client_of, decrement_active_connections, checked_out, PooledConnection,
}

module _ {M : Type 0} where
  -- How many connections of a pool count as active.
  abbrev pub active : Manager M → Text → ℕ
  active m q = elim (find_pool m q) [ none ↦ 0 | some pool ↦ pool.stats.active_connections ]

  pub find_conn-pool_return :
      (m : Manager M) (p : Text) (c d now : ℕ) (conn : PooledConnection M)
      → find_conn m c ≡ some conn
      → find_conn (pool_return m p (some c) now) d
        ≡ ite
            (ℕ_discrete d c)
            (some (ite (text_discrete conn.pool p) (released conn now) conn))
            (find_conn m d)
  unfolding pool_return with_stats text_eq
  find_conn-pool_return m p c d now conn e =
      rw (e, pool_return) (ground (arith, lookup-put ℕ_discrete c d (released conn now) m.conns))

  pub active-pool_return :
      (m : Manager M) (p q : Text) (c now : ℕ) (conn : PooledConnection M)
      → find_conn m c ≡ some conn
      → active (pool_return m p (some c) now) q
        ≡ ite
            (text_discrete conn.pool p)
            (ite (text_discrete q p) (active m q - 1) (active m q))
            (active m q)
  unfolding pool_return decrement_active_connections text_eq
  active-pool_return m p q c now conn e =
      let m' = record m { conns = put ℕ_discrete c (released conn now) m.conns } in
      rw (e, pool_return) (ground (arith, find_pool-with_stats m' p q decrement_active_connections))

  pub find_conn-return_own :
      (m : Manager M) (c d now : ℕ) (conn : PooledConnection M)
      → find_conn m c ≡ some conn
      → find_conn (return_own m (some c) now) d
        ≡ ite (ℕ_discrete d c) (some (released conn now)) (find_conn m d)
  unfolding return_own
  find_conn-return_own m c d now conn e =
      rw (e, return_own) (ground (arith, find_conn-pool_return m conn.pool c d now conn e))

  pub active-return_own :
      (m : Manager M) (q : Text) (c now : ℕ) (conn : PooledConnection M)
      → find_conn m c ≡ some conn
      → active (return_own m (some c) now) q
        ≡ ite (text_discrete q conn.pool) (active m q - 1) (active m q)
  unfolding return_own
  active-return_own m q c now conn e =
      rw (e, return_own) (ground (arith, active-pool_return m conn.pool q c now conn e))

  pub find_conn-checkout :
      (m : Manager M) (p id : Text) (d now : ℕ)
      → find_conn (checkout m p id now).0 d
        ≡ ite
            (ℕ_discrete d m.next)
            (some (new_connection p (client_of (find_pool m p)) id now))
            (find_conn m d)
  unfolding checkout with_stats
  find_conn-checkout m p id d now =
      lookup-put ℕ_discrete m.next d (new_connection p (client_of (find_pool m p)) id now) m.conns

  pub active-checkout :
      (m : Manager M) (p id q : Text) (now : ℕ)
      → find_pool m p ≢ none
      → active (checkout m p id now).0 q ≡ ite (text_discrete q p) (active m q + 1) (active m q)
  unfolding checkout checked_out
  active-checkout m p id q now h =
      let conn = new_connection p (client_of (find_pool m p)) id now in
      let m' = record m { conns = put ℕ_discrete m.next conn m.conns; next = suc m.next } in
      ground (arith, find_pool-with_stats m' p q checked_out)

  pub find_conn-set_transaction_id :
      (m : Manager M) (c d : ℕ) (t : Text) (conn : PooledConnection M)
      → find_conn m c ≡ some conn
      → find_conn (set_transaction_id m c t) d
        ≡ ite (ℕ_discrete d c) (some (record conn { transaction_id = t })) (find_conn m d)
  unfolding set_transaction_id
  find_conn-set_transaction_id m c d t conn e =
      rw (e, set_transaction_id)
        (lookup-put ℕ_discrete c d (record conn { transaction_id = t }) m.conns)
