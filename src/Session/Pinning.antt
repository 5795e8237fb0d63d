-- ===== src/Session/Pinning.antt =====
-- The server and the connection that a transaction of mongo/session_manager.go pins.
use mongobouncer.Base.{ℕ, ◌≡◌, refl, ◌≢◌, Option, none, false, arith}
use mongobouncer.Session.States.{IsConsistent}
use mongobouncer.Session.{
  Session, Result, TransactionState, committed, aborted, in_progress, ok, start, commit, abort,
  unpin, reset, get_pinned_server, get_pinned_connection, is_transaction_active,
}

-- The two ways to end a transaction.
pub data End : Type 0 where
  commits aborts : End

unfoldable pub end_transaction : End → Session → ℕ → Result Session
unfolding commit abort
end_transaction commits s now = commit s now
end_transaction aborts s now = abort s now

-- What is pinned while a transaction runs, and after its end until it is unpinned.
pub record Pinned (s : Session) (server connection : Option ℕ) : Type 0 where
  pub server_pinned : get_pinned_server s ≡ server
  pub connection_pinned : get_pinned_connection s ≡ connection

abbrev outcome : End → TransactionState
outcome commits = committed
outcome aborts = aborted

-- The session after the end of its transaction.
abbrev after : End → Session → ℕ → Session
after how s now = record s { transaction_state = outcome how; last_activity = now }

end_transaction-in_progress :
    (how : End) (s : Session) (now : ℕ)
    → s.transaction_state ≡ in_progress
    → end_transaction how s now ≡ ok (after how s now)
unfolding end_transaction
end_transaction-in_progress commits s now h = ground arith
end_transaction-in_progress aborts s now h = ground arith

end_transaction-finished :
    (again how : End) (s t : Session) (now later : ℕ)
    → end_transaction again (after how s now) later ≢ ok t
unfolding end_transaction
end_transaction-finished commits commits s t now later e = cc
end_transaction-finished commits aborts s t now later e = cc
end_transaction-finished aborts commits s t now later e = cc
end_transaction-finished aborts aborts s t now later e = cc

after-Pinned :
    (how : End) (s : Session) (now : ℕ)
    → Pinned (after how s now) none s.pinned_connection
      × (is_transaction_active (after how s now) ≡ false)
      × Pinned (unpin (after how s now)) none none
unfolding get_pinned_server get_pinned_connection is_transaction_active unpin
after-Pinned commits s now = (
  record { server_pinned = refl; connection_pinned = refl },
  refl,
  record { server_pinned = refl; connection_pinned = refl },
)
after-Pinned aborts s now = (
  record { server_pinned = refl; connection_pinned = refl },
  refl,
  record { server_pinned = refl; connection_pinned = refl },
)

start-Pinned :
    (s t : Session) (server connection : Option ℕ) (n now : ℕ)
    → start s server connection n now ≡ ok t
    → Pinned t server connection
      × (t.transaction_state ≡ in_progress)
      × (t.pinned_connection ≡ connection)
unfolding start get_pinned_server get_pinned_connection
start-Pinned s t server connection n now e = (
  record { server_pinned = ground arith; connection_pinned = ground arith },
  ground arith,
  ground arith,
)

-- A transaction that started has its server and connection pinned. Ending it, either way, succeeds
-- once; it keeps the connection, on which the command is still to be sent, and gives up the server.
-- A second end fails, and `UnpinTransaction` gives up the connection too.
pub start-end_transaction :
    (s : Session) {t : Session} (server connection : Option ℕ) (n now : ℕ) (how : End) (later : ℕ)
    → start s server connection n now ≡ ok t
    → Pinned t server connection
      × (u : Session) × (end_transaction how t later ≡ ok u)
      × Pinned u none connection
      × (is_transaction_active u ≡ false)
      × ((again : End) (last : ℕ) (v : Session) → end_transaction again u last ≢ ok v)
      × Pinned (unpin u) none none
start-end_transaction s {t} server connection n now how later e =
    let (pinned, running, kept) = start-Pinned s t server connection n now e in
    let (given_up, over, free) = after-Pinned how t later in
    (
      pinned,
      after how t later,
      end_transaction-in_progress how t later running,
      rw (← kept) given_up,
      over,
      λ again last v. end_transaction-finished again how t v later last,
      free,
    )

-- On a session that pins nothing and has number 0 while it has no transaction, once a
-- transaction has started and has ended, a reset and an unpin, in either order, give the session
-- back as it was before, but for the time of its last activity, so that the next transaction can
-- start.
pub reset-end_transaction :
    (s : Session) {t : Session} (server connection : Option ℕ) (n now : ℕ) (how : End) (later : ℕ)
    {u : Session}
    → IsConsistent s
    → start s server connection n now ≡ ok t
    → end_transaction how t later ≡ ok u
    → (reset (unpin u) ≡ record s { last_activity = later })
      × (unpin (reset u) ≡ record s { last_activity = later })
unfolding start end_transaction reset unpin
reset-end_transaction s server connection n now commits later v e f = ground arith
reset-end_transaction s server connection n now aborts later v e f = ground arith
