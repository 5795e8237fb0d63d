-- ===== src/Caches/Shared.antt =====
-- What mongo/cursor_cache.go and mongo/transaction_cache.go ask of the distributed cache
-- (mongo/distributed_cache.go).
use mongobouncer.Base.Text.{Text}
use mongobouncer.Base.{ℕ, ◌≡◌, Bool, false, Option}
use mongobouncer.Command.Bson.{ℤ}

pub record SharedCursors (S D : Type 0) : Type 0 where
  pub is_enabled : D → Bool
  pub has_cursor : D → ℤ → Text → Bool
  pub store_cursor : D → ℤ → Text → Option S → Text → D
  pub drop_cursor : D → ℤ → Text → D

pub record SharedTransactions (S D : Type 0) : Type 0 where
  pub is_enabled : D → Bool
  pub has_transaction : D → Text → Bool
  pub store_transaction : D → Text → Option S → ℕ → D
  pub drop_transaction : D → Text → D

-- What is removed is not found, until it is stored again.
pub record ForgetsCursors {S D : Type 0} (shared : SharedCursors S D) : Type 0 where
  pub dropped :
      (d : D) (id : ℤ) (collection : Text)
      → shared.has_cursor (shared.drop_cursor d id collection) id collection ≡ false

pub record ForgetsTransactions {S D : Type 0} (shared : SharedTransactions S D) : Type 0 where
  pub dropped :
      (d : D) (ls_id : Text)
      → shared.has_transaction (shared.drop_transaction d ls_id) ls_id ≡ false
