-- ===== src/Session.antt =====
-- mongo/session_manager.go: one session and its transaction. What `SessionManager` does to a
-- session under the session's lock is a function of the session here. A server and a connection
-- are handles; `none` is Go's nil. A transaction number is kept as it came.
pub mod States
pub mod Keeps
pub mod Pinning
mod Tests
use mongobouncer.Base.Text.{Text}
use mongobouncer.Base.{ℕ, Bool, true, false, ◌||◌, Option, none, some, if◌then◌else◌}

pub data SessionState : Type 0 where
  active inactive ended : SessionState

pub data TransactionState : Type 0 where
  idle starting in_progress committed aborted : TransactionState

pub record Session : Type 0 where
  pub id : Text
  pub ls_id : Text
  pub client_id : Text
  pub state : SessionState
  pub created_at : ℕ
  pub last_activity : ℕ
  pub transaction_state : TransactionState
  pub current_txn_number : ℕ
  pub pinned_server : Option ℕ
  pub pinned_connection : Option ℕ

pub data Error : Type 0 where
  session_not_active transaction_already nothing_to_commit nothing_to_abort : Error
  no_random_bytes : Error

pub data Result (A : Type 0) : Type 0 where
  ok : A → Result A
  err : Error → Result A

unfoldable pub is_active : SessionState → Bool
is_active active = true
is_active _ = false

unfoldable pub is_ended : SessionState → Bool
is_ended ended = true
is_ended _ = false

unfoldable pub is_idle : TransactionState → Bool
is_idle idle = true
is_idle _ = false

unfoldable pub is_in_progress : TransactionState → Bool
is_in_progress in_progress = true
is_in_progress _ = false

unfoldable pub is_finished : TransactionState → Bool
is_finished committed = true
is_finished aborted = true
is_finished _ = false

unfoldable pub new_session : Text → Text → Text → ℕ → Session
new_session id ls_id client_id now = record {
  id = id;
  ls_id = ls_id;
  client_id = client_id;
  state = active;
  created_at = now;
  last_activity = now;
  transaction_state = idle;
  current_txn_number = 0;
  pinned_server = none;
  pinned_connection = none;
}

-- StartTransaction
unfoldable pub start : Session → Option ℕ → Option ℕ → ℕ → ℕ → Result Session
unfolding is_active is_idle
start s server connection txn_number now =
    if is_active s.state
    then if is_idle s.transaction_state
      then ok (record s {
        current_txn_number = txn_number;
        transaction_state = in_progress;
        pinned_server = server;
        pinned_connection = connection;
        last_activity = now;
      })
      else err transaction_already
    else err session_not_active

-- CommitTransaction
unfoldable pub commit : Session → ℕ → Result Session
unfolding is_in_progress
commit s now =
    if is_in_progress s.transaction_state
    then ok (record s { transaction_state = committed; last_activity = now })
    else err nothing_to_commit

-- AbortTransaction
unfoldable pub abort : Session → ℕ → Result Session
unfolding is_in_progress
abort s now =
    if is_in_progress s.transaction_state
    then ok (record s { transaction_state = aborted; last_activity = now })
    else err nothing_to_abort

-- UnpinTransaction
unfoldable pub unpin : Session → Session
unpin s = record s { pinned_server = none; pinned_connection = none }

-- ResetTransactionState
unfoldable pub reset : Session → Session
reset s = record s {
  transaction_state = idle;
  current_txn_number = 0;
  pinned_server = none;
  pinned_connection = none;
}

-- The transaction that EndSession finds open.
unfoldable pub close_transaction : Session → Session
unfolding is_in_progress
close_transaction s =
    if is_in_progress s.transaction_state
    then record s { transaction_state = aborted; pinned_server = none; pinned_connection = none }
    else s

-- EndSession, on a session that is not ended
unfoldable pub finish : Session → ℕ → Session
unfolding close_transaction
finish s now = record (close_transaction s) { state = ended; last_activity = now }

-- GetPinnedServer
unfoldable pub get_pinned_server : Session → Option ℕ
unfolding is_in_progress
get_pinned_server s = if is_in_progress s.transaction_state then s.pinned_server else none

-- GetPinnedConnection
unfoldable pub get_pinned_connection : Session → Option ℕ
unfolding is_in_progress is_finished
get_pinned_connection s =
    if is_in_progress s.transaction_state || is_finished s.transaction_state
    then s.pinned_connection
    else none

-- IsTransactionActive
unfoldable pub is_transaction_active : Session → Bool
unfolding is_in_progress
is_transaction_active s = is_in_progress s.transaction_state
