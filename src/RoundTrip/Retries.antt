-- ===== src/RoundTrip/Retries.antt =====
-- The retries of RoundTrip in mongo/mongo.go for the first statement of a transaction.
use mongobouncer.Base.Text.{Text}
use mongobouncer.Base.{ℕ, suc, ◌≡◌, refl, ◌∙◌, ap, true, false, Option, some, [], ◌∷◌, arith}
use mongobouncer.Errors.{is_retryable_error}
use mongobouncer.RoundTrip.InTransaction.{
  IsStatement, follow_command-statement, fresh, still_open, active_running,
}
use mongobouncer.RoundTrip.Pinned.{Holds, attempts-done, choose-pinned, taken-pinned}
use mongobouncer.RoundTrip.Sessions.{manage, checkout_connection, pinned_connection, start_first}
use mongobouncer.RoundTrip.Faults.{with_connection-stopped, attempt_once-chosen, with_server-taken}
use mongobouncer.RoundTrip.State.{
  Mongo, Services, failed, Attempt, checked_out, sent, processed, close_later, Run, session_failed,
  stopped, going, failure, again, done, note, defer, with_sessions,
}
use mongobouncer.RoundTrip.{
  answered, exchange, with_connection, with_server, taken, choose, attempt_once, attempts, perform,
  max_retries,
}
use mongobouncer.Selection.{chosen}
use mongobouncer.Session.{
  Session, Result, ok, err, active, idle, in_progress, transaction_already, start, is_in_progress,
  is_idle, is_active, get_pinned_connection, get_pinned_server,
}
use mongobouncer.SessionManager.Lookup.{update_self, heap-distribute}
use mongobouncer.SessionManager.{SessionManager, start_transaction, write, distribute}
use mongobouncer.Wire.Methods.{Methods}
use mongobouncer.Wire.Operations.{TransactionDetails}

begun_session : Session → ℕ → ℕ → ℕ → ℕ → Session
begun_session s server connection n now = record s {
  current_txn_number = n;
  transaction_state = in_progress;
  pinned_server = some server;
  pinned_connection = some connection;
  last_activity = now;
}

start-ready :
    (s : Session) (server connection n now : ℕ)
    → s.state ≡ active
    → s.transaction_state ≡ idle
    → start s (some server) (some connection) n now ≡ ok (begun_session s server connection n now)
unfolding start begun_session is_active is_idle
start-ready s server connection n now live waiting = simp (live, waiting, start, is_active, is_idle)

start-again :
    (s : Session) (server connection n now : ℕ)
    → s.state ≡ active
    → s.transaction_state ≡ in_progress
    → start s (some server) (some connection) n now ≡ err transaction_already
unfolding start is_active is_idle
start-again s server connection n now live running = simp (live, running, start, is_active, is_idle)

module _ {D E : Type 0} (services : Services D E) where
  open services use {unicode_lower, store}

  start_transaction-ready :
      (m : SessionManager D) (p server connection n now : ℕ)
      → (m.heap p).state ≡ active
      → (m.heap p).transaction_state ≡ idle
      → (begun : SessionManager D) × (start_transaction store m p
            (some server)
            (some connection)
            n
            now
          ≡ (begun, ok tt))
        × (begun.heap p ≡ begun_session (m.heap p) server connection n now)
  unfolding start_transaction write
  start_transaction-ready m p server connection n now live waiting =
      let s = begun_session (m.heap p) server connection n now in
      let f = λ (d : D).
        store.store_session (store.store_transaction d now s.ls_id (some server) n) now s in
      (
        distribute store f (write m p s),
        rw (start-ready (m.heap p) server connection n now live waiting, start_transaction) refl,
        rw (heap-distribute store f (write m p s)) (update_self store m.heap p s),
      )

  start_transaction-again :
      (m : SessionManager D) (p server connection n now : ℕ)
      → (m.heap p).state ≡ active
      → (m.heap p).transaction_state ≡ in_progress
      → start_transaction store m p (some server) (some connection) n now
        ≡ (m, err transaction_already)
  unfolding start_transaction
  start_transaction-again m p server connection n now live running =
      rw (start-again (m.heap p) server connection n now live running, start_transaction) refl

  start_first-now :
      (t : TransactionDetails) (p server connection now : ℕ) (m : SessionManager D)
      (result : SessionManager D × Result (Unit {0}))
      → t.is_start_transaction ≡ true
      → start_transaction store m p (some server) (some connection) t.txn_number now ≡ result
      → start_first services t p server connection now m ≡ result
  unfolding start_first
  start_first-now t p server connection now m result first e = simp (first, e, start_first)

  manage-first :
      (request : Methods E) (t : TransactionDetails) (p server connection now : ℕ) (run : Run D)
      (begun : SessionManager D)
      → request.transaction_details ≡ some t
      → t.is_start_transaction ≡ true
      → IsStatement (request.command_and_collection).0
      → start_transaction store run.mongo.sessions p
          (some server)
          (some connection)
          t.txn_number
          now
        ≡ (begun, ok tt)
      → manage services request (some p) server connection now run
        ≡ going (with_sessions begun run) false
  unfolding manage
  manage-first request t p server connection now run begun details first statement started = simp (
    details,
    start_first-now t p server connection now run.mongo.sessions (begun, ok tt) first started,
    follow_command-statement services (request.command_and_collection).0 p now begun statement,
    manage,
  )

  manage-again :
      (request : Methods E) (t : TransactionDetails) (p server connection now : ℕ) (run : Run D)
      → request.transaction_details ≡ some t
      → t.is_start_transaction ≡ true
      → start_transaction store run.mongo.sessions p
          (some server)
          (some connection)
          t.txn_number
          now
        ≡ (run.mongo.sessions, err transaction_already)
      → manage services request (some p) server connection now run
        ≡ stopped run (session_failed transaction_already)
  unfolding manage
  manage-again request t p server connection now run details first started = simp (
    details,
    start_first-now t p server connection now run.mongo.sessions
        (run.mongo.sessions, err transaction_already) first started,
    manage,
  )

  -- A turn whose answer fails with an error that is to be tried again.
  pub record FailsOnce (attempt : Attempt) (e : Text) : Type 0 where
    pub processor : attempt.is_error_processor ≡ true
    pub got : attempt.reply ≡ failed e
    pub retryable : is_retryable_error unicode_lower (some e) ≡ true

  answered-fails :
      (request : Methods E) (server connection : ℕ) (attempt : Attempt) (e : Text) (run : Run D)
      → FailsOnce attempt e
      → answered services true request server connection attempt run
        ≡ again (note (processed connection) run)
  unfolding answered
  answered-fails request server connection attempt e run fails =
      simp (fails.got, fails.retryable, answered)

  exchange-fails :
      (request : Methods E) (server connection : ℕ) (attempt : Attempt) (e : Text) (run : Run D)
      → FailsOnce attempt e
      → exchange services true request server connection attempt run
        ≡ again (note (processed connection) (note (sent connection) run))
  unfolding exchange
  exchange-fails request server connection attempt e run fails = simp (
    fails.processor,
    answered-fails request server connection attempt e (note (sent connection) run) fails,
  )

  with_connection-fails :
      (request : Methods E) (p server connection : ℕ) (attempt : Attempt) (e : Text)
      (run after : Run D)
      → FailsOnce attempt e
      → manage services request (some p) server connection attempt.now run ≡ going after false
      → with_connection services true request (some p) server connection attempt run
        ≡ again (
            note
              (processed connection)
              (note (sent connection) (defer (close_later false connection) after)))
  unfolding with_connection
  with_connection-fails request p server connection attempt e run after fails h =
      rw (h, with_connection)
        (exchange-fails request server connection attempt e
          (defer (close_later false connection) after) fails)

  with_server-pinned :
      (request : Methods E) (p server connection : ℕ) (attempt : Attempt) (run : Run D)
      → pinned_connection services run.mongo (some p) ≡ some connection
      → with_server services true request (some p) server attempt run
        ≡ with_connection services true request (some p) server connection attempt run
  unfolding with_server checkout_connection
  with_server-pinned request p server connection attempt run found =
      rw (found, with_server, checkout_connection)
        (rw (taken-pinned services p connection run found) refl)

  attempts-again :
      (left k : ℕ) (request : Methods E) (session : Option ℕ) (surroundings : ℕ → Attempt)
      (run after : Run D)
      → attempt_once services true request session (surroundings k) run ≡ again after
      → attempts services (suc left) k request session surroundings run
        ≡ attempts services left (suc k) request session surroundings after
  unfolding attempts
  attempts-again left k request session surroundings run after h = rw (h, attempts) refl

  -- The turn after it, on a session that is in progress.
  second_turn :
      (request : Methods E) (t : TransactionDetails) (p server connection : ℕ) (attempt : Attempt)
      (run : Run D)
      → request.transaction_details ≡ some t
      → t.is_start_transaction ≡ true
      → (run.mongo.sessions.heap p).state ≡ active
      → Holds (run.mongo.sessions.heap p) server connection
      → attempt_once services true request (some p) attempt run
        ≡ done run (failure (session_failed transaction_already))
  unfolding pinned_connection get_pinned_server get_pinned_connection is_in_progress
  second_turn request t p server connection attempt run details first live holds =
      let server_found : get_pinned_server (run.mongo.sessions.heap p) ≡ some server =
        ground (arith, holds.running, holds.server_pinned) in
      let connection_found : pinned_connection services run.mongo (some p) ≡ some connection =
        ground (arith, holds.running, holds.connection_pinned) in
      attempt_once-chosen services true request p server attempt run
        (choose-pinned services request attempt p server run server_found)
      ∙ (with_server-pinned request p server connection attempt run connection_found
          ∙ with_connection-stopped services true request p server connection attempt run run
              (session_failed transaction_already)
              (manage-again request t p server connection attempt.now run details first (
                start_transaction-again run.mongo.sessions p server connection t.txn_number
                  attempt.now live holds.running)))

  -- The first statement of a transaction is not sent again: where its answer fails with a retryable error, RoundTrip gives the error that a transaction is already in progress, whatever the next attempt would meet; the session stays in its transaction, and its connection open.
  pub perform_first_fails :
      (g : Mongo D) (request : Methods E) (t : TransactionDetails) (surroundings : ℕ → Attempt)
      (p server connection : ℕ) (e : Text)
      → request.transaction_details ≡ some t
      → t.is_start_transaction ≡ true
      → IsStatement (request.command_and_collection).0
      → (g.sessions.heap p).state ≡ active
      → (g.sessions.heap p).transaction_state ≡ idle
      → choose services g request (some p) (surroundings 0) ≡ chosen (some server)
      → (surroundings 0).connection ≡ some connection
      → FailsOnce (surroundings 0) e
      → let (run, outcome) = perform services request (some p) surroundings (fresh services g) in
        (outcome ≡ failure (session_failed transaction_already))
        × (run.events ≡ processed connection ∷ sent connection ∷ checked_out connection ∷ [])
        × ((run.mongo.sessions.heap p).transaction_state ≡ in_progress)
  unfolding perform max_retries begun_session
  perform_first_fails g request t surroundings p server connection e details first statement live
        waiting found taken fails =
      let start = fresh services g in
      let noted = note (checked_out connection) start in
      let now = (surroundings 0).now in
      let begun =
        start_transaction-ready g.sessions p server connection t.txn_number now live waiting in
      let after = with_sessions begun.0 noted in
      let last =
        note (processed connection)
          (note (sent connection) (defer (close_later false connection) after)) in
      let first_turn : attempt_once services true request (some p) (surroundings 0) start
          ≡ again last =
        attempt_once-chosen services true request p server (surroundings 0) start found
        ∙ (with_server-taken services true request p server connection (surroundings 0) start
              waiting taken
            ∙ with_connection-fails request p server connection (surroundings 0) e noted after fails
                (manage-first request t p server connection now noted begun.0 details first
                  statement begun.1)) in
      let running : (begun.0.heap p).transaction_state ≡ in_progress =
        ap (λ (s : Session). s.transaction_state) begun.2 in
      let holds : Holds (begun.0.heap p) server connection = record {
        running = running;
        server_pinned = ap (λ (s : Session). s.pinned_server) begun.2;
        connection_pinned = ap (λ (s : Session). s.pinned_connection) begun.2;
      } in
      let next =
        second_turn request t p server connection (surroundings 1) last details first
          (ap (λ (s : Session). s.state) begun.2 ∙ live) holds in
      rw
        (
          attempts-again 2 0 request (some p) surroundings start last first_turn,
          attempts-done services 1 1 request (some p) surroundings last last _ next,
          still_open services p connection last (active_running (begun.0.heap p) running) refl,
        )
        (refl, refl, running)
