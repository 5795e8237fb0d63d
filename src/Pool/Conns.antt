-- ===== src/Pool/Conns.antt =====
-- The calls of pool/pool.go on connections keep the manager valid.
use mongobouncer.Base.Assoc.{put, lookup-put}
use mongobouncer.Base.Text.{Text, text_discrete, text_eq}
use mongobouncer.Base.{
  ℕ, suc, ◌≡◌, refl, sym, if_pos, if_neg, subst, ◌≢◌, ◌≤◌, ◌<◌, true, false, Option, none, some,
  ite, ℕ_discrete, arith, inl, inr, Option-cases,
}
use mongobouncer.Pool.Invariant.{IsCounted, IsLinked, IsValid, return-IsCounted, checkout-IsCounted}
use mongobouncer.Pool.Counts.{
  used, used-put, used-released, weight-le, weight_other, weight-new_connection,
  used-put_transaction_id,
}
use mongobouncer.Pool.{
  PoolStats, ConnectionPool, PooledConnection, Manager, find_pool, find_conn, with_stats, released,
  pool_return, checkout, checked_out, decrement_active_connections, new_connection, client_of,
  set_transaction_id,
}

module _ {M : Type 0} where
  pub find_pool-with_stats :
      (m : Manager M) (p q : Text) (f : PoolStats → PoolStats)
      → find_pool (with_stats m p f) q ≡ elim (find_pool m q) [
        | none ↦ none
        | some pool ↦
            some (record pool { stats = ite (text_discrete q p) (f pool.stats) pool.stats })
      ]
  unfolding with_stats
  find_pool-with_stats m p q f = elim (Option-cases (find_pool m p)) [
    | inl e ↦ ground arith
    | inr (pool, e) ↦
        ground (arith, lookup-put text_discrete p q (record pool { stats = f pool.stats }) m.pools)
  ]

  -- A change of a pool's statistics that fits the connections in use.
  with_stats-IsValid :
      (m : Manager M) (p : Text) (f : PoolStats → PoolStats)
      → ((q : Text) (pool : ConnectionPool M)
          → find_pool m q ≡ some pool
          → IsCounted (ite (text_discrete q p) (f pool.stats) pool.stats) (used q m.conns))
      → IsLinked m
      → IsValid (with_stats m p f)
  unfolding with_stats
  with_stats-IsValid m p f counted v =
      let found = λ (q : Text). find_pool-with_stats m p q f in
      record {
        counted = λ q pool h. elim (Option-cases (find_pool m q)) [
          | inl e ↦ absurd (ground (arith, found q))
          | inr (before, e) ↦ ground (arith, found q, counted q before e)
        ];
        linked = record {
          named = λ q pool h. elim (Option-cases (find_pool m q)) [
            | inl e ↦ absurd (ground (arith, found q))
            | inr (before, e) ↦ ground (arith, found q, v.named q before e)
          ];
          fresh = v.fresh;
          owned = λ c conn h. ground (arith, found conn.pool, v.owned c conn h);
          assigned = v.assigned;
          in_transaction = v.in_transaction;
        };
      }

  IsCounted-return :
      (m : Manager M) (c now : ℕ) (conn : PooledConnection M)
      → IsValid m
      → find_conn m c ≡ some conn
      → (q : Text) (pool : ConnectionPool M) → find_pool m q ≡ some pool
      → IsCounted
          (ite (text_discrete q conn.pool) (decrement_active_connections pool.stats) pool.stats)
          (used q (put ℕ_discrete c (released conn now) m.conns))
  IsCounted-return m c now conn v e q pool h =
      let after = used q (put ℕ_discrete c (released conn now) m.conns) in
      let one = used-released q c now conn m.conns e in
      elim (text_discrete q conn.pool) [
        | yes same ↦
            let counts =
              return-IsCounted pool.stats (used q m.conns) after (v.counted q pool h)
                (omega (arith, one, weight-le q conn)) in
            rw
              (if_pos (text_discrete q conn.pool) same (decrement_active_connections pool.stats)
                pool.stats)
              counts
        | no other ↦
            let counts = v.counted q pool h in
            let unused = weight_other q conn (λ same. other (sym same)) in
            rw
              (if_neg (text_discrete q conn.pool) other (decrement_active_connections pool.stats)
                pool.stats)
              (subst (IsCounted pool.stats) (omega (arith, one, unused)) counts)
      ]

  -- A write to the heap, at a place that is or becomes allocated.
  put_conn-IsLinked :
      (m : Manager M) (c n : ℕ) (conn : PooledConnection M)
      → find_pool m conn.pool ≢ none
      → c < n
      → m.next ≤ n
      → IsLinked m
      → IsLinked (record m { conns = put ℕ_discrete c conn m.conns; next = n })
  put_conn-IsLinked m c n conn h below grows v =
      let written = λ (d : ℕ). lookup-put ℕ_discrete c d conn m.conns in
      record {
        named = v.named;
        fresh = λ d k. ground (arith, written d, v.fresh d);
        owned = λ d x k. ground (arith, written d, v.owned d x, h);
        assigned = λ id client d k l. ground (arith, v.assigned id client d k l);
        in_transaction = λ id client d k l. ground (arith, v.in_transaction id client d k l);
      }

  allocated :
      (m : Manager M) (c : ℕ) (conn : PooledConnection M)
      → IsLinked m
      → find_conn m c ≡ some conn
      → c < m.next
  allocated m c conn v e = ground (arith, v.fresh c)

  released-IsLinked :
      (m : Manager M) (c now : ℕ) (conn : PooledConnection M)
      → IsLinked m
      → find_conn m c ≡ some conn
      → IsLinked (record m { conns = put ℕ_discrete c (released conn now) m.conns })
  unfolding released
  released-IsLinked m c now conn v e =
      put_conn-IsLinked m c m.next (released conn now) (v.owned c conn e) (allocated m c conn v e)
        (omega arith) v

  pub pool_return-IsValid :
      (m : Manager M) (p : Text) (c : Option ℕ) (now : ℕ)
      → IsValid m
      → IsValid (pool_return m p c now)
  unfolding pool_return text_eq
  pool_return-IsValid m p none now v = v
  pool_return-IsValid m p (some c) now v = elim (Option-cases (find_conn m c)) [
    | inl e ↦ rw (e, pool_return) v
    | inr (conn, e) ↦ elim (text_discrete conn.pool p) [
      | no other ↦ rw (e, pool_return, if_neg (text_discrete conn.pool p) other true false) v
      | yes same ↦
          subst (λ q. IsValid (pool_return m q (some c) now)) same
            (rw (e, pool_return, if_pos (text_discrete conn.pool conn.pool) refl true false)
              (with_stats-IsValid
                (record m { conns = put ℕ_discrete c (released conn now) m.conns }) conn.pool
                decrement_active_connections (IsCounted-return m c now conn v e)
                (released-IsLinked m c now conn v.linked e)))
    ]
  ]

  IsCounted-checkout :
      (m : Manager M) (p id : Text) (client : Option M) (now : ℕ)
      → IsValid m
      → (q : Text) (pool : ConnectionPool M) → find_pool m q ≡ some pool
      → IsCounted
          (ite (text_discrete q p) (checked_out pool.stats) pool.stats)
          (used q (put ℕ_discrete m.next (new_connection p client id now) m.conns))
  IsCounted-checkout m p id client now v q pool h =
      let made = used-put q m.next (new_connection p client id now) m.conns in
      let nothing = v.linked.fresh m.next (omega arith) in
      let counts = v.counted q pool h in
      elim (text_discrete q p) [
        | yes same ↦ rw (if_pos (text_discrete q p) same (checked_out pool.stats) pool.stats) (
            subst (IsCounted (checked_out pool.stats))
              (ground (arith, made, weight-new_connection q p client id now))
              (checkout-IsCounted pool.stats (used q m.conns) counts))
        | no other ↦ rw (if_neg (text_discrete q p) other (checked_out pool.stats) pool.stats) (
            subst (IsCounted pool.stats)
              (ground (arith, made, weight-new_connection q p client id now)) counts)
      ]

  pub checkout-IsValid :
      (m : Manager M) (p id : Text) (now : ℕ)
      → find_pool m p ≢ none
      → IsValid m
      → IsValid (checkout m p id now).0
  unfolding checkout new_connection
  checkout-IsValid m p id now h v =
      let conn = new_connection p (client_of (find_pool m p)) id now in
      with_stats-IsValid
        (record m { conns = put ℕ_discrete m.next conn m.conns; next = suc m.next }) p checked_out
        (IsCounted-checkout m p id (client_of (find_pool m p)) now v)
        (put_conn-IsLinked m m.next (suc m.next) conn h (omega arith) (omega arith) v.linked)

  pub set_transaction_id-IsValid :
      (m : Manager M) (c : ℕ) (transaction_id : Text)
      → IsValid m
      → IsValid (set_transaction_id m c transaction_id)
  unfolding set_transaction_id
  set_transaction_id-IsValid m c transaction_id v = elim (Option-cases (find_conn m c)) [
    | inl e ↦ rw e v
    | inr (conn, e) ↦
        let conn' = record conn { transaction_id = transaction_id } in
        rw e (record {
          counted = λ q pool h.
              subst (IsCounted pool.stats)
                (sym (used-put_transaction_id q c transaction_id conn m.conns e))
                (v.counted q pool h);
          linked =
              put_conn-IsLinked m c m.next conn' (v.linked.owned c conn e)
                (allocated m c conn v.linked e) (omega arith) v.linked;
        })
  ]
