-- ===== src/RoundTrip/Faults.antt =====
-- Two requests of a transaction that RoundTrip of mongo/mongo.go does not serve: a commit outside a
-- transaction, whose connection is not closed, and a first statement that is to be sent again.
use mongobouncer.Base.{ℕ, ◌≡◌, refl, ◌∙◌, Bool, true, false, none, some, [], ◌∷◌}
use mongobouncer.Command.{Command}
use mongobouncer.RoundTrip.InTransaction.{fresh}
use mongobouncer.RoundTrip.Pinned.{start_first-later, attempts-done}
use mongobouncer.RoundTrip.Sessions.{manage, checkout_connection, pinned_connection, follow_command}
use mongobouncer.RoundTrip.State.{
  Mongo, Services, Attempt, checked_out, Run, Failure, session_failed, stopped, failure, done, note,
}
use mongobouncer.RoundTrip.{
  with_connection, with_server, taken, choose, attempt_once, run_all, perform, max_retries,
}
use mongobouncer.Selection.{chosen}
use mongobouncer.Session.{
  Session, err, idle, nothing_to_commit, commit, is_in_progress, is_finished, get_pinned_connection,
}
use mongobouncer.SessionManager.{SessionManager, commit_transaction}
use mongobouncer.Wire.Methods.{Methods}
use mongobouncer.Wire.Operations.{TransactionDetails}

idle_commit :
    (s : Session) (now : ℕ) → s.transaction_state ≡ idle → commit s now ≡ err nothing_to_commit
unfolding commit is_in_progress
idle_commit s now h = rw (h, commit, is_in_progress) refl

idle_unpinned : (s : Session) → s.transaction_state ≡ idle → get_pinned_connection s ≡ none
unfolding get_pinned_connection is_in_progress is_finished
idle_unpinned s h = rw (h, get_pinned_connection, is_in_progress, is_finished) refl

module _ {D E : Type 0} (services : Services D E) where
  open services use {unicode_lower, store}

  -- A connection that comes from the server.
  pub with_server-taken :
      (b : Bool) (request : Methods E) (p server connection : ℕ) (attempt : Attempt) (run : Run D)
      → (run.mongo.sessions.heap p).transaction_state ≡ idle
      → attempt.connection ≡ some connection
      → with_server services b request (some p) server attempt run
        ≡ with_connection services b request
            (some p)
            server
            connection
            attempt
            (note (checked_out connection) run)
  unfolding with_server checkout_connection taken pinned_connection
  with_server-taken b request p server connection attempt run waiting found =
      let unpinned : pinned_connection services run.mongo (some p) ≡ none =
        idle_unpinned (run.mongo.sessions.heap p) waiting in
      simp (unpinned, found, with_server, checkout_connection, taken, pinned_connection)

  refused_commit :
      (p now : ℕ) (sessions : SessionManager D)
      → (sessions.heap p).transaction_state ≡ idle
      → commit_transaction sessions p now ≡ (sessions, err nothing_to_commit)
  unfolding commit_transaction
  refused_commit p now sessions waiting =
      rw (idle_commit (sessions.heap p) now waiting, commit_transaction) refl

  follow_refused :
      (c : Command) (p now : ℕ) (sessions : SessionManager D)
      → c ≡ Command.commit_transaction
      → (sessions.heap p).transaction_state ≡ idle
      → follow_command services c p now sessions ≡ (sessions, err nothing_to_commit)
  unfolding follow_command
  follow_refused c p now sessions command waiting =
      let e = refused_commit p now sessions waiting in rw (command, e, follow_command) (rw e refl)

  manage-refused :
      (request : Methods E) (t : TransactionDetails) (p server connection now : ℕ) (run : Run D)
      → request.transaction_details ≡ some t
      → t.is_start_transaction ≡ false
      → (request.command_and_collection).0 ≡ Command.commit_transaction
      → (run.mongo.sessions.heap p).transaction_state ≡ idle
      → manage services request (some p) server connection now run
        ≡ stopped run (session_failed nothing_to_commit)
  unfolding manage
  manage-refused request t p server connection now run details later command waiting = simp (
    details,
    start_first-later services t p server connection now run.mongo.sessions later,
    follow_refused (request.command_and_collection).0 p now run.mongo.sessions command waiting,
    manage,
  )

  -- A turn that the session's part ends.
  pub with_connection-stopped :
      (b : Bool) (request : Methods E) (p server connection : ℕ) (attempt : Attempt)
      (run after : Run D) (e : Failure)
      → manage services request (some p) server connection attempt.now run ≡ stopped after e
      → with_connection services b request (some p) server connection attempt run
        ≡ done after (failure e)
  unfolding with_connection
  with_connection-stopped b request p server connection attempt run after e h =
      rw (h, with_connection) refl

  pub attempt_once-chosen :
      (b : Bool) (request : Methods E) (p server : ℕ) (attempt : Attempt) (run : Run D)
      → choose services run.mongo request (some p) attempt ≡ chosen (some server)
      → attempt_once services b request (some p) attempt run
        ≡ with_server services b request (some p) server attempt run
  unfolding attempt_once
  attempt_once-chosen b request p server attempt run found = rw (found, attempt_once) refl

  -- A commit of a session that is in no transaction is refused, and the connection that was taken from the server for it is not closed.
  pub perform_commit_idle :
      (g : Mongo D) (request : Methods E) (t : TransactionDetails) (surroundings : ℕ → Attempt)
      (p server connection : ℕ)
      → request.transaction_details ≡ some t
      → t.is_start_transaction ≡ false
      → (request.command_and_collection).0 ≡ Command.commit_transaction
      → (g.sessions.heap p).transaction_state ≡ idle
      → choose services g request (some p) (surroundings 0) ≡ chosen (some server)
      → (surroundings 0).connection ≡ some connection
      → let (run, outcome) = perform services request (some p) surroundings (fresh services g) in
        (outcome ≡ failure (session_failed nothing_to_commit))
        × (run.events ≡ checked_out connection ∷ [])
  unfolding perform run_all max_retries
  perform_commit_idle g request t surroundings p server connection details later command waiting
        found taken =
      let start = fresh services g in
      let noted = note (checked_out connection) start in
      let turn : attempt_once services true request (some p) (surroundings 0) start
          ≡ done noted (failure (session_failed nothing_to_commit)) =
        attempt_once-chosen true request p server (surroundings 0) start found
        ∙ (with_server-taken true request p server connection (surroundings 0) start waiting taken
            ∙ with_connection-stopped true request p server connection (surroundings 0) noted noted
                (session_failed nothing_to_commit)
                (manage-refused request t p server connection (surroundings 0).now noted details
                  later command waiting)) in
      rw (attempts-done services 2 0 request (some p) surroundings start noted _ turn) (refl, refl)
