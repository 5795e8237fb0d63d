-- ===== src/RoundTrip/InTransaction.antt =====
-- RoundTrip of mongo/mongo.go in a running transaction: what a statement is, and the end.
use mongobouncer.Base.{
  ℕ, ◌≡◌, refl, ◌∙◌, ap, true, false, none, some, [], ◌∷◌, Option-cases, inl, inr, arith,
}
use mongobouncer.Caches.{TransactionCache, remove_transaction}
use mongobouncer.Command.{Command}
use mongobouncer.RoundTrip.Answers.{
  accept, is_commit_or_abort, remember_cursor, remember_transaction,
}
use mongobouncer.RoundTrip.Pinned.{Holds, Answers, told, accept-keeps, perform-pinned, manage-later}
use mongobouncer.RoundTrip.Sessions.{follow_command}
use mongobouncer.RoundTrip.State.{
  Mongo, Services, Attempt, sent, closed, unpin_later, close_later, Run, response, note, defer,
  with_sessions,
}
use mongobouncer.RoundTrip.{run_deferred, run_all, perform}
use mongobouncer.Session.{
  Session, ok, in_progress, committed, aborted, idle, commit, abort, unpin, reset, is_in_progress,
  is_transaction_active,
}
use mongobouncer.SessionManager.{
  SessionManager, commit_transaction, abort_transaction, write, update, unpin_transaction,
  reset_transaction_state,
}
use mongobouncer.SessionManager.Lookup.{update_self}
use mongobouncer.Wire.Bytes.{Bytes}
use mongobouncer.Wire.Methods.{Methods, methods_of}
use mongobouncer.Wire.Operations.{TransactionDetails, Operation}

abbrev pub IsStatement : Command → Type 0
IsStatement Command.commit_transaction = ⊥
IsStatement Command.abort_transaction = ⊥
IsStatement Command.end_sessions = ⊥
IsStatement _ = Unit

commit_running :
    (s : Session) (now : ℕ)
    → s.transaction_state ≡ in_progress
    → commit s now ≡ ok (record s { transaction_state = committed; last_activity = now })
unfolding commit is_in_progress
commit_running s now h = simp (h, commit)

abort_running :
    (s : Session) (now : ℕ)
    → s.transaction_state ≡ in_progress
    → abort s now ≡ ok (record s { transaction_state = aborted; last_activity = now })
unfolding abort is_in_progress
abort_running s now h = simp (h, abort)

pub active_running :
    (s : Session) → s.transaction_state ≡ in_progress → is_transaction_active s ≡ true
unfolding is_transaction_active is_in_progress
active_running s h = rw (h, is_transaction_active, is_in_progress) refl

module _ {D E : Type 0} (services : Services D E) where
  pub follow_command-statement :
      (c : Command) (p now : ℕ) (sessions : SessionManager D)
      → IsStatement c
      → follow_command services c p now sessions ≡ (sessions, ok false)
  unfolding follow_command
  follow_command-statement Command.commit_transaction p now sessions h = elim h [ ]
  follow_command-statement Command.abort_transaction p now sessions h = elim h [ ]
  follow_command-statement Command.end_sessions p now sessions h = elim h [ ]
  follow_command-statement _ p now sessions h = refl

  follow_commit :
      (p now : ℕ) (sessions after : SessionManager D)
      → commit_transaction sessions p now ≡ (after, ok tt)
      → follow_command services Command.commit_transaction p now sessions ≡ (after, ok true)
  unfolding follow_command
  follow_commit p now sessions after e = rw (e, follow_command) (rw e refl)

  follow_abort :
      (p now : ℕ) (sessions after : SessionManager D)
      → abort_transaction sessions p now ≡ (after, ok tt)
      → follow_command services Command.abort_transaction p now sessions ≡ (after, ok true)
  unfolding follow_command
  follow_abort p now sessions after e = rw (e, follow_command) (rw e refl)

  pub ending_session :
      (c : Command) (p now : ℕ) (sessions : SessionManager D)
      → is_commit_or_abort services c ≡ true
      → (sessions.heap p).transaction_state ≡ in_progress
      → (s : Session) × ((follow_command services c p now sessions ≡ (write sessions p s, ok true))
          × (is_in_progress s.transaction_state ≡ false))
  unfolding is_commit_or_abort commit_transaction abort_transaction is_in_progress
  ending_session Command.commit_transaction p now sessions h running =
      let s : Session = record (sessions.heap p) {
        transaction_state = committed;
        last_activity = now;
      } in
      (
        s,
        (
          follow_commit p now sessions (write sessions p s)
              (rw (commit_running (sessions.heap p) now running, commit_transaction) refl),
          refl,
        ),
      )
  ending_session Command.abort_transaction p now sessions h running =
      let s : Session = record (sessions.heap p) {
        transaction_state = aborted;
        last_activity = now;
      } in
      (
        s,
        (
          follow_abort p now sessions (write sessions p s)
              (rw (abort_running (sessions.heap p) now running, abort_transaction) refl),
          refl,
        ),
      )
  ending_session _ p now sessions h running = ground arith

  abbrev pub fresh : Mongo D → Run D
  fresh g = record { mongo = g; events = []; deferred = [] }

  pub still_open :
      (p connection : ℕ) (last : Run D)
      → is_transaction_active (last.mongo.sessions.heap p) ≡ true
      → last.deferred ≡ close_later false connection ∷ []
      → run_all services (some p) last.deferred last ≡ last
  unfolding run_all run_deferred
  still_open p connection last active calls = rw calls (simp active)

  closed_at_end :
      (p connection : ℕ) (last : Run D)
      → last.deferred ≡ close_later true connection ∷ unpin_later ∷ []
      → let run = run_all services (some p) last.deferred last in
        (run.events ≡ closed connection ∷ last.events)
        × (run.mongo.sessions.heap p ≡ unpin (reset (last.mongo.sessions.heap p)))
        × (run.mongo.transactions ≡ last.mongo.transactions)
  unfolding run_all run_deferred unpin_transaction reset_transaction_state write
  closed_at_end p connection last calls = rw calls (
    refl,
    update_self services.store
          (update last.mongo.sessions.heap p (reset (last.mongo.sessions.heap p))) p _
        ∙ ap unpin (
            update_self services.store last.mongo.sessions.heap p
              (reset (last.mongo.sessions.heap p))),
    refl,
  )

  transactions-remember_cursor :
      (request : Methods E) (op : Operation) (server now : ℕ) (g : Mongo D)
      → (remember_cursor services request op server now g).transactions ≡ g.transactions
  unfolding remember_cursor
  transactions-remember_cursor request op server now g = ground arith

  transactions-remember_transaction :
      (request : Methods E) (t : TransactionDetails) (server now : ℕ) (g : Mongo D)
      → request.transaction_details ≡ some t
      → t.is_start_transaction ≡ false
      → is_commit_or_abort services (request.command_and_collection).0 ≡ true
      → (remember_transaction services request server now g).transactions
        ≡ remove_transaction services.shared_transactions g.transactions t.ls_id
  unfolding remember_transaction
  transactions-remember_transaction request t server now g details later ends =
      simp (details, later, ends, remember_transaction)

  forgotten :
      (request : Methods E) (t : TransactionDetails) (op : Operation) (server connection now : ℕ)
      (run : Run D)
      → request.transaction_details ≡ some t
      → t.is_start_transaction ≡ false
      → is_commit_or_abort services (request.command_and_collection).0 ≡ true
      → (accept services request op server connection now run).mongo.transactions
        ≡ remove_transaction services.shared_transactions run.mongo.transactions t.ls_id
  unfolding accept
  forgotten request t op server connection now run details later ends =
      let kept = remember_cursor services request op server now run.mongo in
      let removed =
        transactions-remember_transaction request t server now kept details later ends
        ∙ ap
            (λ (x : TransactionCache ℕ D).
              remove_transaction services.shared_transactions x t.ls_id)
            (transactions-remember_cursor request op server now run.mongo) in
      elim (Option-cases (methods_of services.pkg services.look services.unicode_lower op).error) [
        | inl e ↦ rw (e, accept) removed
        | inr (x, e) ↦ rw (e, accept) removed
      ]

  -- A commit or an abort whose first attempt is answered.
  pub perform_end_first :
      (g : Mongo D) (request : Methods E) (t : TransactionDetails) (surroundings : ℕ → Attempt)
      (wm : Bytes) (op : Operation) (p server connection : ℕ)
      → request.transaction_details ≡ some t
      → t.is_start_transaction ≡ false
      → is_commit_or_abort services (request.command_and_collection).0 ≡ true
      → Holds (g.sessions.heap p) server connection
      → Answers services request (surroundings 0) wm op
      → let (run, outcome) = perform services request (some p) surroundings (fresh g) in
        (outcome ≡ response wm op)
        × (run.events ≡ closed connection ∷ told services op connection (sent connection ∷ []))
        × ((run.mongo.sessions.heap p).transaction_state ≡ idle)
        × ((run.mongo.sessions.heap p).pinned_server ≡ none)
        × ((run.mongo.sessions.heap p).pinned_connection ≡ none)
        × (run.mongo.transactions
            ≡ remove_transaction services.shared_transactions g.transactions t.ls_id)
  unfolding unpin reset
  perform_end_first g request t surroundings wm op p server connection details later ends holds
        good =
      let start = fresh g in
      let now = (surroundings 0).now in
      let session =
        ending_session (request.command_and_collection).0 p now g.sessions ends holds.running in
      let sessions = write g.sessions p session.0 in
      let after = defer unpin_later (with_sessions sessions start) in
      let queued = note (sent connection) (defer (close_later true connection) after) in
      let last = accept services request op server connection now queued in
      let kept = accept-keeps services request op server connection now queued in
      let managed =
        manage-later services request t p server connection now start sessions true details later
          session.1.0 in
      let finished = closed_at_end p connection last kept.1 in
      rw
        (perform-pinned services request surroundings wm op p server connection start after true
          good holds managed)
        (
          refl,
          finished.0 ∙ ap (λ l. closed connection ∷ l) kept.0,
          ap (λ (s : Session). s.transaction_state) finished.1,
          ap (λ (s : Session). s.pinned_server) finished.1,
          ap (λ (s : Session). s.pinned_connection) finished.1,
          finished.2 ∙ forgotten request t op server connection now queued details later ends,
        )
