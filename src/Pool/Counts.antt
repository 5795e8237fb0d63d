-- ===== src/Pool/Counts.antt =====
-- The connections of pool/pool.go that are in use, counted by their pool.
use mathlib.Core.List.{lookup}
use mongobouncer.Base.Assoc.{put}
use mongobouncer.Base.Text.{Text, text_eq, text_discrete}
use mongobouncer.Base.{
  ℕ, ◌+◌, ◌≡◌, ◌≢◌, ◌≤◌, ◌&&◌, Option, none, some, List, [], ◌∷◌, ite, if◌then◌else◌, ℕ_discrete,
  arith,
}
use mongobouncer.Pool.{PooledConnection, released, new_connection}

module _ {M : Type 0} (p : Text) where
  -- One for a connection of the pool that is in use.
  unfoldable pub weight : PooledConnection M → ℕ
  weight conn = if conn.in_use && text_eq conn.pool p then 1 else 0

  abbrev pub weight_at : Option (PooledConnection M) → ℕ
  weight_at none = 0
  weight_at (some conn) = weight conn

  -- How many connections of the pool are in use.
  abbrev pub used : List (ℕ × PooledConnection M) → ℕ
  used [] = 0
  used ((_, conn) ∷ l) = weight conn + used l

  pub used-put :
      (c : ℕ) (conn : PooledConnection M) (l : List (ℕ × PooledConnection M))
      → used (put ℕ_discrete c conn l) + weight_at (lookup ℕ_discrete c l) ≡ used l + weight conn
  unfolding put lookup
  used-put c conn [] = omega arith
  used-put c conn ((d, x) ∷ l) = ground (arith, used-put c conn l)

  -- A return of a connection takes at most one use away, and none from another pool.
  pub used-released :
      (c now : ℕ) (conn : PooledConnection M) (l : List (ℕ × PooledConnection M))
      → lookup ℕ_discrete c l ≡ some conn
      → used l ≡ used (put ℕ_discrete c (released conn now) l) + weight conn
  unfolding released weight
  used-released c now conn l e = ground (arith, used-put c (released conn now) l)

  pub weight-le : (conn : PooledConnection M) → weight conn ≤ 1
  unfolding weight
  weight-le conn = ground arith

  pub weight_other : (conn : PooledConnection M) → conn.pool ≢ p → weight conn ≡ 0
  unfolding weight text_eq
  weight_other conn n = ground arith

  pub weight-new_connection :
      (q : Text) (client : Option M) (id : Text) (now : ℕ)
      → weight (new_connection q client id now) ≡ ite (text_discrete p q) 1 0
  unfolding weight new_connection text_eq
  weight-new_connection q client id now = ground arith

  -- To name its transaction does not change a connection's use.
  pub used-put_transaction_id :
      (c : ℕ) (t : Text) (conn : PooledConnection M) (l : List (ℕ × PooledConnection M))
      → lookup ℕ_discrete c l ≡ some conn
      → used (put ℕ_discrete c (record conn { transaction_id = t }) l) ≡ used l
  unfolding weight
  used-put_transaction_id c t conn l e =
      ground (arith, used-put c (record conn { transaction_id = t }) l)
