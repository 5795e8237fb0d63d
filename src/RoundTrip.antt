-- ===== src/RoundTrip.antt =====
-- RoundTrip of mongo/mongo.go: one request to a server and its answer, with its retries, and what
-- it does to the sessions, the cursors and the transactions. The waits between the attempts only
-- let time pass.
pub mod State
pub mod Sessions
pub mod Answers
pub mod Sends
pub mod Closing
pub mod Pinned
pub mod InTransaction
pub mod Tried
pub mod Statements
pub mod Spent
pub mod Ends
pub mod Faults
pub mod Retries
mod Tests
use State.{
  Mongo, Services, Reply, failed, replied, Attempt, Event, checked_out, sent, processed, closed,
  Deferred, unpin_later, close_later, Run, Failure, connection_closed, selection_failed, no_server,
  checkout_failed, no_error_processor, session_failed, sending_failed, decoding_failed,
  decoding_unfinished, retries_exceeded, Managed, stopped, going, Outcome, response, no_response,
  failure, Step, again, done, signed64, note, defer, with_sessions,
}
use mongobouncer.Base.Base64.{encode}
use mongobouncer.Base.Text.{Text, codes, text_eq}
use mongobouncer.Base.{
  ℕ, zero, suc, ◌+◌, Bool, true, false, not, ◌&&◌, ◌||◌, ◌==◌, Option, none, some, List, [], ◌∷◌,
  if◌then◌else◌,
}
use mongobouncer.Caches.{
  peek_cursor, add_cursor, remove_cursor, add_transaction, remove_transaction,
}
use mongobouncer.Command
use mongobouncer.Command.Bson.{ℤ, pos, negsuc}
use mongobouncer.Command.{Command}
use mongobouncer.Errors.{is_retryable_error}
use mongobouncer.Health.{check_health, is_healthy}
use mongobouncer.Parsing.{parse_collection_name}
use mongobouncer.Selection.{Choice, chosen, no_server as none_selected, select_server, is_zero}
use mongobouncer.Session.{
  Session, Result, ok, err, Error, new_session, get_pinned_server, get_pinned_connection,
  is_transaction_active,
}
use mongobouncer.SessionManager.{
  SessionManager, insert, get_session, start_transaction, commit_transaction, abort_transaction,
  unpin_transaction, reset_transaction_state, end_session,
}
use mongobouncer.Wire.Bytes.{Bytes}
use mongobouncer.Wire.Decode.{Decoded, decoded, malformed, unfinished, decode}
use mongobouncer.Wire.Methods.{Methods, methods_of}
use mongobouncer.Wire.Operations.{TransactionDetails, Operation}
use Sessions.{
  open_session, pinned_server, pinned_connection, checkout_connection, start_first, follow_command,
  manage,
}
use Answers.{
  cursor_of, cursor_database, remember_cursor, is_commit_or_abort, remember_transaction, accept,
}

module _ {D E : Type 0} (services : Services D E) where
  open services use {store, shared_cursors, shared_transactions, pkg, look, unicode_lower}

  -- The request is sent whatever the health check finds; `ping` is its answer, and how long it took.
  unfoldable pub check_before : Mongo D → Option Text → ℕ → ℕ → Mongo D
  check_before g ping response_time now =
      if is_healthy g.health_stats now
      then g
      else record g { health_stats = (check_health g.health_stats ping response_time now).0 }

  unfoldable pub choose : Mongo D → Methods E → Option ℕ → Attempt → Choice ℕ
  choose g request session attempt = elim (pinned_server services g session) [
    | some server ↦ chosen (some server)
    | none ↦
        select_server shared_cursors shared_transactions g.cursors g.transactions
          request.transaction_details (cursor_of services request)
          (request.command_and_collection).1 attempt.selected
  ]

  -- `if attempt < maxRetries { continue }`, or the error
  unfoldable pub retry_or : Bool → Failure → Run D → Step D
  retry_or true e run = again run
  retry_or false e run = done run (failure e)

  -- What the answer to a written request does.
  unfoldable pub answered : Bool → Methods E → ℕ → ℕ → Attempt → Run D → Step D
  answered can_retry request server connection attempt written = elim attempt.reply [
    | failed e ↦
        if can_retry && is_retryable_error unicode_lower (some e)
        then again (note (processed connection) written)
        else done (note (processed connection) written) (failure (sending_failed e))
    | replied wm ↦
        if request.unacknowledged then done written no_response else elim (decode pkg wm) [
          | malformed message ↦ retry_or can_retry (decoding_failed message) written
          | unfinished ↦ retry_or can_retry decoding_unfinished written
          | decoded op ↦
              done (accept services request op server connection attempt.now written)
                (response wm op)
        ]
  ]

  -- The request on its connection.
  unfoldable pub exchange : Bool → Methods E → ℕ → ℕ → Attempt → Run D → Step D
  exchange can_retry request server connection attempt run =
      if attempt.is_error_processor
      then answered can_retry request server connection attempt (note (sent connection) run)
      else retry_or can_retry no_error_processor run

  -- One turn of the retry loop. The server of a transaction is not looked for again.
  unfoldable pub with_connection : Bool → Methods E → Option ℕ → ℕ → ℕ → Attempt → Run D → Step D
  with_connection can_retry request session server connection attempt run =
      elim (manage services request session server connection attempt.now run) [
        | stopped after e ↦ done after (failure e)
        | going after ends ↦
            exchange can_retry request server connection attempt
              (defer (close_later ends connection) after)
      ]

  -- A connection that is not the pinned one comes from the server.
  unfoldable pub taken : Option ℕ → ℕ → Run D → Run D
  taken session connection run = elim (pinned_connection services run.mongo session) [
    | some _ ↦ run
    | none ↦ note (checked_out connection) run
  ]

  unfoldable pub with_server : Bool → Methods E → Option ℕ → ℕ → Attempt → Run D → Step D
  with_server can_retry request session server attempt run =
      elim (checkout_connection services run.mongo session attempt) [
        | none ↦ retry_or can_retry checkout_failed run
        | some connection ↦
            with_connection can_retry request session server connection attempt
              (taken session connection run)
      ]

  unfoldable pub attempt_once : Bool → Methods E → Option ℕ → Attempt → Run D → Step D
  attempt_once can_retry request session attempt run =
      elim (choose run.mongo request session attempt) [
        | none_selected ↦ elim session [
          | some p ↦ done run (failure selection_failed)
          | none ↦ retry_or can_retry selection_failed run
        ]
        | chosen none ↦ done run (failure no_server)
        | chosen (some server) ↦ with_server can_retry request session server attempt run
      ]

  -- The loop, with the retries that are left and the number of the attempt.
  unfoldable pub attempts : ℕ → ℕ → Methods E → Option ℕ → (ℕ → Attempt) → Run D → Run D × Outcome
  attempts zero k request session surroundings run =
      elim (attempt_once false request session (surroundings k) run) [
        | done after outcome ↦ (after, outcome)
        | again after ↦ (after, failure retries_exceeded)
      ]
  attempts (suc left) k request session surroundings run =
      elim (attempt_once true request session (surroundings k) run) [
        | done after outcome ↦ (after, outcome)
        | again after ↦ attempts left (suc k) request session surroundings after
      ]

  -- A deferred call.
  unfoldable pub run_deferred : Option ℕ → Deferred → Run D → Run D
  run_deferred none unpin_later run = run
  run_deferred (some p) unpin_later run = with_sessions (unpin_transaction run.mongo.sessions p) run
  run_deferred none (close_later ends connection) run = note (closed connection) run
  run_deferred (some p) (close_later true connection) run =
      with_sessions (reset_transaction_state run.mongo.sessions p) (note (closed connection) run)
  run_deferred (some p) (close_later false connection) run =
      if is_transaction_active (run.mongo.sessions.heap p)
      then run
      else note (closed connection) run

  unfoldable pub run_all : Option ℕ → List Deferred → Run D → Run D
  run_all session [] run = run
  run_all session (call ∷ calls) run = run_all session calls (run_deferred session call run)

  unfoldable pub max_retries : ℕ
  max_retries = 3

  -- The loop and the deferred calls.
  unfoldable pub perform : Methods E → Option ℕ → (ℕ → Attempt) → Run D → Run D × Outcome
  perform request session surroundings start =
      let (run, outcome) = attempts max_retries 0 request session surroundings start in
      (run_all session run.deferred run, outcome)

  unfoldable pub round_trip :
      Mongo D → Methods E → Option Text → ℕ → ℕ → (ℕ → Attempt) → Run D × Outcome
  round_trip g request ping response_time now surroundings = elim g.connected [
    | true ↦
        let (opened, session) =
          open_session services (check_before g ping response_time now) request.transaction_details
            now in
        perform request session surroundings (record { mongo = opened; events = []; deferred = [] })
    | false ↦ (record { mongo = g; events = []; deferred = [] }, failure connection_closed)
  ]
