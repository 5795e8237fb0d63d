-- ===== src/Pool/Invariant.antt =====
-- What holds of a manager of pool/pool.go between its calls.
use mathlib.Core.List.{lookup}
use mongobouncer.Base.Assoc.{delete, lookup-put, lookup-delete}
use mongobouncer.Base.Text.{Text, text_discrete}
use mongobouncer.Base.{
  ℕ, suc, ◌≡◌, refl, ◌≢◌, ◌≤◌, ◌<◌, Option, none, some, arith, inl, inr, Option-cases,
}
use mongobouncer.Pool.Counts.{used}
use mongobouncer.Pool.{
  PoolMode, PoolStats, ConnectionPool, PooledConnection, ClientConnection, Manager, new_manager,
  new_pool, or_default, new_stats, find_pool, find_conn, get_client, set_client, get_pool,
  checked_out, decrement_active_connections,
}

-- Every request was served, and no more connections count as active than are in use.
pub record IsCounted (s : PoolStats) (n : ℕ) : Type 0 where
  pub served : s.successful_requests ≡ s.total_requests
  pub no_failures : s.failed_requests ≡ 0
  pub no_errors : s.connection_errors ≡ 0
  pub active_used : s.active_connections ≤ n
  pub active_served : s.active_connections ≤ s.total_requests

-- Pointers lead to what they name.
pub record IsLinked {M : Type 0} (m : Manager M) : Type 0 where
  pub named : (p : Text) (pool : ConnectionPool M) → find_pool m p ≡ some pool → pool.name ≡ p
  pub fresh : (c : ℕ) → m.next ≤ c → find_conn m c ≡ none
  pub owned :
      (c : ℕ) (conn : PooledConnection M) → find_conn m c ≡ some conn → find_pool m conn.pool ≢ none
  pub assigned :
      (id : Text) (client : ClientConnection) (c : ℕ)
      → get_client m id ≡ some client
      → client.assigned_conn ≡ some c
      → c < m.next
  pub in_transaction :
      (id : Text) (client : ClientConnection) (c : ℕ)
      → get_client m id ≡ some client
      → client.transaction_conn ≡ some c
      → c < m.next

pub record IsValid {M : Type 0} (m : Manager M) : Type 0 where
  pub counted :
      (p : Text) (pool : ConnectionPool M)
      → find_pool m p ≡ some pool
      → IsCounted pool.stats (used p m.conns)
  pub linked : IsLinked m

new-IsCounted : (n : ℕ) → IsCounted new_stats n
unfolding new_stats
new-IsCounted n = record {
  served = refl;
  no_failures = refl;
  no_errors = refl;
  active_used = omega arith;
  active_served = omega arith;
}

-- A return takes one from the active connections, if there is one.
pub return-IsCounted :
    (s : PoolStats) (n k : ℕ)
    → IsCounted s n
    → n ≤ suc k
    → IsCounted (decrement_active_connections s) k
unfolding decrement_active_connections
return-IsCounted s n k v h = record {
  served = ground arith;
  no_failures = ground arith;
  no_errors = ground arith;
  active_used = ground arith;
  active_served = ground arith;
}

pub checkout-IsCounted : (s : PoolStats) (n : ℕ) → IsCounted s n → IsCounted (checked_out s) (suc n)
unfolding checked_out
checkout-IsCounted s n v = record {
  served = omega arith;
  no_failures = v.no_failures;
  no_errors = v.no_errors;
  active_used = omega arith;
  active_served = omega arith;
}

module _ {M : Type 0} where
  pub new_manager-IsValid : (mode : Text) (lo hi n : ℕ) → IsValid (new_manager {M = M} mode lo hi n)
  unfolding new_manager lookup
  new_manager-IsValid mode lo hi n = record {
    counted = λ p pool h. absurd (ground arith);
    linked = record {
      named = λ p pool h. absurd (ground arith);
      fresh = λ c h. refl;
      owned = λ c conn h. absurd (ground arith);
      assigned = λ id client c h k. absurd (ground arith);
      in_transaction = λ id client c h k. absurd (ground arith);
    };
  }

  pub get_pool-IsValid :
      (m : Manager M) (p : Text) (mongo_client : Option M) (mode : PoolMode) (now : ℕ)
      → IsValid m
      → IsValid (get_pool m p mongo_client mode now)
  unfolding get_pool new_pool new_stats
  get_pool-IsValid m p mongo_client mode now v = elim (Option-cases (find_pool m p)) [
    | inr (pool, e) ↦ rw (e, get_pool) v
    | inl e ↦
        let made = λ (q : Text).
          lookup-put text_discrete p q
            (new_pool p mongo_client (or_default mode m.default_mode) now) m.pools in
        rw (e, get_pool)
          (record {
            counted = λ q pool h.
                ground (arith, made q, v.counted q pool, new-IsCounted (used q m.conns));
            linked = record {
              named = λ q pool h. ground (arith, made q, v.linked.named q pool);
              fresh = v.linked.fresh;
              owned = λ c conn h. ground (arith, made conn.pool, v.linked.owned c conn h);
              assigned = v.linked.assigned;
              in_transaction = v.linked.in_transaction;
            };
          })
  ]

  pub set_client-IsValid :
      (m : Manager M) (id : Text) (client : ClientConnection)
      → ((c : ℕ) → client.assigned_conn ≡ some c → c < m.next)
      → ((c : ℕ) → client.transaction_conn ≡ some c → c < m.next)
      → IsValid m
      → IsValid (set_client m id client)
  set_client-IsValid m id client a t v =
      let set = λ (other : Text). lookup-put text_discrete id other client m.active_clients in
      record {
        counted = v.counted;
        linked = record {
          named = v.linked.named;
          fresh = v.linked.fresh;
          owned = v.linked.owned;
          assigned = λ other x c h k. ground (arith, set other, v.linked.assigned other x c, a c);
          in_transaction =
              λ other x c h k. ground (arith, set other, v.linked.in_transaction other x c, t c);
        };
      }

  pub drop_client-IsValid :
      (m : Manager M) (id : Text)
      → IsValid m
      → IsValid (record m { active_clients = delete text_discrete id m.active_clients })
  drop_client-IsValid m id v =
      let left = λ (other : Text). lookup-delete text_discrete id other m.active_clients in
      record {
        counted = v.counted;
        linked = record {
          named = v.linked.named;
          fresh = v.linked.fresh;
          owned = v.linked.owned;
          assigned = λ other x c h k. ground (arith, left other, v.linked.assigned other x c);
          in_transaction =
              λ other x c h k. ground (arith, left other, v.linked.in_transaction other x c);
        };
      }
