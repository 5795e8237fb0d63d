-- ===== src/Session/States.antt =====
-- The state machine of a session of mongo/session_manager.go: any calls in any order.
use mongobouncer.Base.Text.{Text}
use mongobouncer.Base.{ℕ, ◌≡◌, refl, ◌≢◌, ◌⊎◌, Option, none, arith}
use mongobouncer.Session.{
  Session, ended, idle, ok, err, transaction_already, session_not_active, new_session, start,
  commit, abort, unpin, reset, finish,
}

-- What the proxy may do to a session, but for the reset after a transaction's end.
pub data Work : Session → Session → Type 0 where
  starts :
      (s : Session) {t : Session} (server connection : Option ℕ) (txn_number now : ℕ)
      → start s server connection txn_number now ≡ ok t
      → Work s t
  commits : (s : Session) {t : Session} (now : ℕ) → commit s now ≡ ok t → Work s t
  aborts : (s : Session) {t : Session} (now : ℕ) → abort s now ≡ ok t → Work s t
  unpins : (s : Session) → Work s (unpin s)
  finishes : (s : Session) (now : ℕ) → Work s (finish s now)

pub data Step : Session → Session → Type 0 where
  works : {s t : Session} → Work s t → Step s t
  resets : (s : Session) → Step s (reset s)

-- Any number of steps of a relation.
pub data Star (R : Session → Session → Type 0) (s : Session) : Session → Type 0 where
  here : Star R s s
  next : {t u : Session} → Star R s t → R t u → Star R s u

-- A session with no transaction pins nothing and carries no transaction number.
pub record IsConsistent (s : Session) : Type 0 where
  pub server_free : s.transaction_state ≡ idle → s.pinned_server ≡ none
  pub connection_free : s.transaction_state ≡ idle → s.pinned_connection ≡ none
  pub number_free : s.transaction_state ≡ idle → s.current_txn_number ≡ 0

Work-IsConsistent : {s t : Session} → Work s t → IsConsistent s → IsConsistent t
unfolding start commit abort unpin finish
Work-IsConsistent (starts s {t} server connection n now e) v = ground arith
Work-IsConsistent (commits s now e) v = ground arith
Work-IsConsistent (aborts s now e) v = ground arith
Work-IsConsistent (unpins s) v = ground arith
Work-IsConsistent (finishes s now) v = ground arith

Step-IsConsistent : {s t : Session} → Step s t → IsConsistent s → IsConsistent t
unfolding reset
Step-IsConsistent (works w) v = Work-IsConsistent w v
Step-IsConsistent (resets s) v = ground arith

Star-IsConsistent : {s t : Session} → Star Step s t → IsConsistent s → IsConsistent t
Star-IsConsistent here v = v
Star-IsConsistent (next r st) v = Step-IsConsistent st (Star-IsConsistent r v)

-- After any calls in any order, a new session that has no transaction pins no server and no
-- connection and has transaction number 0.
pub new_session-IsConsistent :
    (id ls_id client_id : Text) (now : ℕ) {t : Session}
    → Star Step (new_session id ls_id client_id now) t
    → IsConsistent t
unfolding new_session
new_session-IsConsistent id ls_id client_id now r =
    Star-IsConsistent r
      (record { server_free = λ e. refl; connection_free = λ e. refl; number_free = λ e. refl })

Work-busy : {s t : Session} → Work s t → s.transaction_state ≢ idle → t.transaction_state ≢ idle
unfolding start commit abort unpin finish
Work-busy (starts s {t} server connection n now e) b = ground arith
Work-busy (commits s now e) b = ground arith
Work-busy (aborts s now e) b = ground arith
Work-busy (unpins s) b = ground arith
Work-busy (finishes s now) b = ground arith

Star-busy :
    {s t : Session} → Star Work s t → s.transaction_state ≢ idle → t.transaction_state ≢ idle
Star-busy here b = b
Star-busy (next r w) b = Work-busy w (Star-busy r b)

start-busy :
    (s : Session) (server connection : Option ℕ) (n now : ℕ)
    → s.transaction_state ≢ idle
    → (start s server connection n now ≡ err transaction_already)
      ⊎ (start s server connection n now ≡ err session_not_active)
unfolding start
start-busy s server connection n now b = ground arith

-- Once a transaction has started, no other starts on the session, whatever is called, until the
-- transaction state is reset: not even after a commit or an abort.
pub start_once :
    (s : Session) {t u : Session} (server connection : Option ℕ) (n now : ℕ)
    → start s server connection n now ≡ ok t
    → Star Work t u
    → (server' connection' : Option ℕ) (n' later : ℕ)
    → (start u server' connection' n' later ≡ err transaction_already)
      ⊎ (start u server' connection' n' later ≡ err session_not_active)
unfolding start
start_once s {t} {u} server connection n now e r server' connection' n' later =
    start-busy u server' connection' n' later (Star-busy r (ground arith))

Step-ended : {s t : Session} → Step s t → s.state ≡ ended → t.state ≡ ended
unfolding start commit abort unpin reset finish
Step-ended (works (starts s {t} server connection n now e)) b = ground arith
Step-ended (works (commits s now e)) b = ground arith
Step-ended (works (aborts s now e)) b = ground arith
Step-ended (works (unpins s)) b = ground arith
Step-ended (works (finishes s now)) b = ground arith
Step-ended (resets s) b = ground arith

Star-ended : {s t : Session} → Star Step s t → s.state ≡ ended → t.state ≡ ended
Star-ended here b = b
Star-ended (next r st) b = Step-ended st (Star-ended r b)

-- An ended session stays ended, and no transaction starts on it, whatever is called after.
finish_final :
    (s : Session) {t : Session} (now : ℕ)
    → Star Step (finish s now) t
    → (t.state ≡ ended)
      × ((server connection : Option ℕ) (n later : ℕ)
          → start t server connection n later ≡ err session_not_active)
unfolding finish start
finish_final s now r = let e = Star-ended r refl in (e, λ server connection n later. rw e refl)
