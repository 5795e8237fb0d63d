-- ===== src/RoundTrip/Pinned.antt =====
-- RoundTrip of mongo/mongo.go in a running transaction: the request goes to the pinned server on the
-- pinned connection.
use mongobouncer.Base.{
  ℕ, suc, ◌≡◌, refl, ◌∙◌, Bool, true, false, Option, none, some, List, ◌∷◌, Option-cases, inl, inr,
  arith,
}
use mongobouncer.RoundTrip.Answers.{accept, remember_cursor, remember_transaction}
use mongobouncer.RoundTrip.Sessions.{
  manage, checkout_connection, pinned_server, pinned_connection, start_first, follow_command,
}
use mongobouncer.RoundTrip.State.{
  Mongo, Services, replied, Attempt, Event, sent, processed, unpin_later, close_later, Run, going,
  Outcome, response, done, note, defer, with_sessions,
}
use mongobouncer.RoundTrip.{
  answered, exchange, with_connection, with_server, taken, choose, attempt_once, attempts, run_all,
  perform, max_retries,
}
use mongobouncer.Selection.{chosen}
use mongobouncer.Session.{
  Session, ok, in_progress, is_in_progress, get_pinned_server, get_pinned_connection,
}
use mongobouncer.SessionManager.{SessionManager}
use mongobouncer.Wire.Bytes.{Bytes}
use mongobouncer.Wire.Decode.{decoded, decode}
use mongobouncer.Wire.Methods.{Methods, methods_of}
use mongobouncer.Wire.Operations.{TransactionDetails, Operation}

-- A transaction in progress, with its server and connection.
pub record Holds (s : Session) (server connection : ℕ) : Type 0 where
  pub running : s.transaction_state ≡ in_progress
  pub server_pinned : s.pinned_server ≡ some server
  pub connection_pinned : s.pinned_connection ≡ some connection

module _ {D E : Type 0} (services : Services D E) where
  open services use {pkg, look, unicode_lower}

  -- An acknowledged request whose answer is decoded, with or without an error in it.
  pub record Answers (request : Methods E) (attempt : Attempt) (wm : Bytes) (op : Operation)
      : Type 0 where
    pub acknowledged : request.unacknowledged ≡ false
    pub processor : attempt.is_error_processor ≡ true
    pub got : attempt.reply ≡ replied wm
    pub understood : decode pkg wm ≡ decoded op

  -- The events, with the processing of the error that an answer carries.
  unfoldable pub told : Operation → ℕ → List Event → List Event
  told op connection events = elim (methods_of pkg look unicode_lower op).error [
    | some e ↦ processed connection ∷ events
    | none ↦ events
  ]

  pub choose-pinned :
      (request : Methods E) (attempt : Attempt) (p server : ℕ) (run : Run D)
      → get_pinned_server (run.mongo.sessions.heap p) ≡ some server
      → choose services run.mongo request (some p) attempt ≡ chosen (some server)
  unfolding choose pinned_server
  choose-pinned request attempt p server run found = rw (found, choose, pinned_server) refl

  pub taken-pinned :
      (p connection : ℕ) (run : Run D)
      → pinned_connection services run.mongo (some p) ≡ some connection
      → taken services (some p) connection run ≡ run
  unfolding taken
  taken-pinned p connection run found = rw (found, taken) refl

  with_server-pinned :
      (request : Methods E) (attempt : Attempt) (b : Bool) (p server connection : ℕ)
      (run after : Run D) (ends : Bool)
      → pinned_connection services run.mongo (some p) ≡ some connection
      → manage services request (some p) server connection attempt.now run ≡ going after ends
      → with_server services b request (some p) server attempt run
        ≡ exchange services b request server connection attempt
            (defer (close_later ends connection) after)
  unfolding with_server checkout_connection with_connection
  with_server-pinned request attempt b p server connection run after ends found managed =
      rw (found, with_server, checkout_connection)
        (rw (taken-pinned p connection run found) (rw (managed, with_connection) refl))

  -- The turn of the loop, with what the session's part of it comes to.
  pub attempt_once-pinned :
      (request : Methods E) (attempt : Attempt) (b : Bool) (p server connection : ℕ)
      (run after : Run D) (ends : Bool)
      → Holds (run.mongo.sessions.heap p) server connection
      → manage services request (some p) server connection attempt.now run ≡ going after ends
      → attempt_once services b request (some p) attempt run
        ≡ exchange services b request server connection attempt
            (defer (close_later ends connection) after)
  unfolding attempt_once choose pinned_server pinned_connection get_pinned_server
      get_pinned_connection is_in_progress
  attempt_once-pinned request attempt b p server connection run after ends holds managed =
      let server_found : get_pinned_server (run.mongo.sessions.heap p) ≡ some server =
        ground (arith, holds.running, holds.server_pinned) in
      let connection_found : pinned_connection services run.mongo (some p) ≡ some connection =
        ground (arith, holds.running, holds.connection_pinned) in
      rw (choose-pinned request attempt p server run server_found, attempt_once)
        (with_server-pinned request attempt b p server connection run after ends connection_found
          managed)

  module _ {request : Methods E} {attempt : Attempt} {wm : Bytes} {op : Operation}
      (good : Answers request attempt wm op) where
    answered-good :
        (b : Bool) (server connection : ℕ) (run : Run D)
        → answered services b request server connection attempt run
          ≡ done (accept services request op server connection attempt.now run) (response wm op)
    unfolding answered
    answered-good b server connection run =
        simp (good.got, good.acknowledged, good.understood, answered)

    pub exchange-good :
        (b : Bool) (server connection : ℕ) (run : Run D)
        → exchange services b request server connection attempt run
          ≡ done
              (accept services request op server connection attempt.now
                (note (sent connection) run))
              (response wm op)
    unfolding exchange
    exchange-good b server connection run =
        simp (good.processor, answered-good b server connection (note (sent connection) run))

module _ {D E : Type 0} (services : Services D E) where
  open services use {pkg, look, unicode_lower}

  pub attempts-done :
      (left k : ℕ) (request : Methods E) (session : Option ℕ) (surroundings : ℕ → Attempt)
      (run after : Run D) (outcome : Outcome)
      → attempt_once services true request session (surroundings k) run ≡ done after outcome
      → attempts services (suc left) k request session surroundings run ≡ (after, outcome)
  unfolding attempts
  attempts-done left k request session surroundings run after outcome e = rw (e, attempts) refl

  sessions-remember_cursor :
      (request : Methods E) (op : Operation) (server now : ℕ) (g : Mongo D)
      → (remember_cursor services request op server now g).sessions ≡ g.sessions
  unfolding remember_cursor
  sessions-remember_cursor request op server now g = ground arith

  sessions-remember_transaction :
      (request : Methods E) (server now : ℕ) (g : Mongo D)
      → (remember_transaction services request server now g).sessions ≡ g.sessions
  unfolding remember_transaction
  sessions-remember_transaction request server now g = ground arith

  -- What an answer leaves as it is.
  pub accept-keeps :
      (request : Methods E) (op : Operation) (server connection now : ℕ) (run : Run D)
      → let after = accept services request op server connection now run in
        (after.events ≡ told services op connection run.events)
        × (after.deferred ≡ run.deferred)
        × (after.mongo.sessions ≡ run.mongo.sessions)
  unfolding accept told
  accept-keeps request op server connection now run =
      let kept = remember_cursor services request op server now run.mongo in
      let same =
        sessions-remember_transaction request server now kept
        ∙ sessions-remember_cursor request op server now run.mongo in
      elim (Option-cases (methods_of pkg look unicode_lower op).error) [
        | inl e ↦ (rw (e, accept, told) refl, rw (e, accept) refl, rw (e, accept) same)
        | inr (x, e) ↦ (rw (e, accept, told) refl, rw (e, accept) refl, rw (e, accept) same)
      ]

  -- A request whose first attempt is answered: the loop ends with it, and the deferred calls run.
  pub perform-pinned :
      (request : Methods E) (surroundings : ℕ → Attempt) (wm : Bytes) (op : Operation)
      (p server connection : ℕ) (run after : Run D) (ends : Bool)
      → Answers services request (surroundings 0) wm op
      → Holds (run.mongo.sessions.heap p) server connection
      → manage services request (some p) server connection (surroundings 0).now run
        ≡ going after ends
      → let last =
          accept services request op server connection
            (surroundings 0).now
            (note (sent connection) (defer (close_later ends connection) after)) in
        perform services request (some p) surroundings run
        ≡ (run_all services (some p) last.deferred last, response wm op)
  unfolding perform max_retries
  perform-pinned request surroundings wm op p server connection run after ends good holds managed =
      let last =
        accept services request op server connection (surroundings 0).now
          (note (sent connection) (defer (close_later ends connection) after)) in
      rw
        (attempts-done 2 0 request (some p) surroundings run last (response wm op) (
          attempt_once-pinned services request (surroundings 0) true p server connection run after
            ends holds managed
          ∙ exchange-good services good true server connection
              (defer (close_later ends connection) after)))
        refl

  pub start_first-later :
      (t : TransactionDetails) (p server connection now : ℕ) (sessions : SessionManager D)
      → t.is_start_transaction ≡ false
      → start_first services t p server connection now sessions ≡ (sessions, ok tt)
  unfolding start_first
  start_first-later t p server connection now sessions later = simp (later, start_first)

  abbrev pub ending : Bool → Run D → Run D
  ending true run = defer unpin_later run
  ending false run = run

  pub manage-later :
      (request : Methods E) (t : TransactionDetails) (p server connection now : ℕ) (run : Run D)
      (sessions : SessionManager D) (ends : Bool)
      → request.transaction_details ≡ some t
      → t.is_start_transaction ≡ false
      → follow_command services (request.command_and_collection).0 p now run.mongo.sessions
        ≡ (sessions, ok ends)
      → manage services request (some p) server connection now run
        ≡ going (ending ends (with_sessions sessions run)) ends
  unfolding manage
  manage-later request t p server connection now run sessions true details later same =
      simp (
        details,
        start_first-later t p server connection now run.mongo.sessions later,
        same,
        manage,
      )
  manage-later request t p server connection now run sessions false details later same =
      simp (
        details,
        start_first-later t p server connection now run.mongo.sessions later,
        same,
        manage,
      )
