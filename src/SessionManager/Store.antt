-- ===== src/SessionManager/Store.antt =====
-- What mongo/session_manager.go asks of the distributed cache (mongo/distributed_cache.go).
use mongobouncer.Base.Text.{Text}
use mongobouncer.Base.{ℕ, ◌≡◌, Bool, Option, none}
use mongobouncer.Session.{Session}

-- The cache's state and its operations; each is given the time of the call.
pub record SessionStore (D : Type 0) : Type 0 where
  pub is_enabled : D → Bool
  pub get_stored : D → ℕ → Text → Option Session
  pub store_session : D → ℕ → Session → D
  pub remove_session : D → Text → D
  pub store_transaction : D → ℕ → Text → Option ℕ → ℕ → D

-- A removed session is gone, until it is stored again.
pub record Removes {D : Type 0} (s : SessionStore D) : Type 0 where
  pub removed : (d : D) (id : Text) (now : ℕ) → s.get_stored (s.remove_session d id) now id ≡ none
  pub still_enabled : (d : D) (id : Text) → s.is_enabled (s.remove_session d id) ≡ s.is_enabled d
