-- ===== src/RoundTrip/Statements.antt =====
-- The statements of a running transaction in RoundTrip of mongo/mongo.go, with their retries.
use mongobouncer.Base.{
  ℕ, zero, suc, ◌+◌, ◌≤◌, ◌≡◌, refl, sym, subst, ◌∙◌, Bool, true, false, Option, some, List, [],
  ◌∷◌, arith,
}
use mongobouncer.RoundTrip.Answers.{accept}
use mongobouncer.RoundTrip.InTransaction.{
  IsStatement, follow_command-statement, fresh, active_running,
}
use mongobouncer.RoundTrip.Pinned.{Holds, attempt_once-pinned, exchange-good, manage-later}
use mongobouncer.RoundTrip.Sends.{sends}
use mongobouncer.RoundTrip.State.{
  Mongo, Services, Attempt, sent, Deferred, close_later, Run, Outcome, response, again, done, note,
  defer,
}
use mongobouncer.RoundTrip.{
  exchange, attempt_once, attempts, run_deferred, run_all, perform, max_retries,
}
use mongobouncer.Session.{is_transaction_active}
use mongobouncer.SessionManager.{SessionManager}
use mongobouncer.Wire.Bytes.{Bytes}
use mongobouncer.Wire.Methods.{Methods}
use mongobouncer.Wire.Operations.{TransactionDetails, Operation}
use mongobouncer.RoundTrip.Tried.{
  OnlyOn, StaysOpen, Tried, answered_at, retried_at, Steady, exchange_again, accept-Steady,
}

module _ {D E : Type 0} (services : Services D E) where
  open services use {pkg, look, unicode_lower}

  -- The turn of a statement comes down to its exchange.
  turn :
      (request : Methods E) (t : TransactionDetails) (attempt : Attempt) (b : Bool)
      (p server connection n : ℕ) (sessions : SessionManager D) (run : Run D)
      → request.transaction_details ≡ some t
      → t.is_start_transaction ≡ false
      → IsStatement (request.command_and_collection).0
      → Holds (sessions.heap p) server connection
      → Steady services sessions connection n run
      → attempt_once services b request (some p) attempt run
        ≡ exchange services b request server connection attempt
            (defer (close_later false connection) run)
  turn request t attempt b p server connection n sessions run details later statement holds steady =
      attempt_once-pinned services request attempt b p server connection run run false
        (subst (λ (s : SessionManager D). Holds (s.heap p) server connection)
          (sym steady.sessions_kept) holds)
        (manage-later services request t p server connection attempt.now run run.mongo.sessions
          false details later
          (follow_command-statement services (request.command_and_collection).0 p attempt.now
            run.mongo.sessions statement))

  later_closed :
      (connection n : ℕ) (sessions : SessionManager D) (run : Run D)
      → Steady services sessions connection n run
      → Steady services sessions connection n (defer (close_later false connection) run)
  later_closed connection n sessions run steady = record {
    sessions_kept = steady.sessions_kept;
    only = steady.only;
    bounded = steady.bounded;
    open_still = (refl, steady.open_still);
  }

  attempts_end :
      (left j : ℕ) (request : Methods E) (session : Option ℕ) (surroundings : ℕ → Attempt)
      (run after : Run D) (outcome : Outcome)
      → ((b : Bool)
          → attempt_once services b request session (surroundings j) run ≡ done after outcome)
      → attempts services left j request session surroundings run ≡ (after, outcome)
  unfolding attempts
  attempts_end zero j request session surroundings run after outcome e = rw (e false, attempts) refl
  attempts_end (suc left) j request session surroundings run after outcome e =
      rw (e true, attempts) refl

  attempts_again :
      (left j : ℕ) (request : Methods E) (session : Option ℕ) (surroundings : ℕ → Attempt)
      (run after : Run D)
      → attempt_once services true request session (surroundings j) run ≡ again after
      → attempts services (suc left) j request session surroundings run
        ≡ attempts services left (suc j) request session surroundings after
  unfolding attempts
  attempts_again left j request session surroundings run after e = rw (e, attempts) refl

  module _ (request : Methods E) (t : TransactionDetails) (surroundings : ℕ → Attempt) (wm : Bytes)
      (op : Operation) (p server connection : ℕ) (sessions : SessionManager D)
      (details : request.transaction_details ≡ some t) (later : t.is_start_transaction ≡ false)
      (statement : IsStatement (request.command_and_collection).0)
      (holds : Holds (sessions.heap p) server connection) where
    -- The loop, from an attempt on, up to the answer.
    attempts-Steady :
        (left n : ℕ) {j k : ℕ} (run : Run D)
        → Tried services request surroundings wm op j k
        → k ≤ left
        → Steady services sessions connection n run
        → (last : Run D) × ((attempts services left j request (some p) surroundings run
              ≡ (last, response wm op))
            × (Steady services sessions connection (n + suc k) last × (1 ≤ sends last.events)))
    attempts-Steady left n {j} run (answered_at good) h steady =
        let queued = defer (close_later false connection) run in
        let now = (surroundings j).now in
        let last =
          accept services request op server connection now (note (sent connection) queued) in
        let finished =
          accept-Steady services request op server connection now n sessions queued
            (later_closed connection n sessions run steady) in
        (
          last,
          (
            attempts_end left j request (some p) surroundings run last (response wm op) (λ b.
                turn request t (surroundings j) b p server connection n sessions run details later
                  statement holds steady
                ∙ exchange-good services good b server connection queued),
            (
              subst (λ (m : ℕ). Steady services sessions connection m last) (ground arith)
                  finished.0,
              finished.1,
            ),
          ),
        )
    attempts-Steady zero n run (retried_at failing tried) h steady = absurd (omega arith)
    attempts-Steady (suc left) n {j} run (retried_at failing tried) h steady =
        let queued = defer (close_later false connection) run in
        let (after, (exchanged, steady')) =
          exchange_again services request (surroundings j) server connection n sessions queued
            failing (later_closed connection n sessions run steady) in
        let (last, (same, (finished, written))) =
          attempts-Steady left (suc n) after tried (omega arith) steady' in
        (
          last,
          (
            attempts_again left j request (some p) surroundings run after (
                  turn request t (surroundings j) true p server connection n sessions run details
                    later statement holds steady
                  ∙ exchanged)
                ∙ same,
            (
              subst (λ (m : ℕ). Steady services sessions connection m last) (omega arith) finished,
              written,
            ),
          ),
        )

  -- The deferred calls leave a connection that stays open.
  run_all-StaysOpen :
      (p connection : ℕ) (calls : List Deferred) (last : Run D)
      → is_transaction_active (last.mongo.sessions.heap p) ≡ true
      → StaysOpen connection calls
      → run_all services (some p) calls last ≡ last
  unfolding run_all run_deferred
  run_all-StaysOpen p connection [] last active all = refl
  run_all-StaysOpen p connection (call ∷ calls) last active all =
      let e : run_deferred services (some p) call last ≡ last = rw all.0 (rw active refl) in
      rw (run_all, e) (run_all-StaysOpen p connection calls last active all.1)

  -- A statement of a running transaction that has its server and connection pinned (any command but a commit, an abort or endSessions, and not the transaction's first) goes through the retry loop and its deferred calls. Let it be one that asks for an answer and that gets one after `k` attempts that are retried, three at most (the server cannot process errors, the request fails with an error that may be retried, or the answer does not decode). Then the answer, with a server error in it or without, is passed on. The request is written at least once and at most once for each attempt, on the pinned connection, which stays open with the transaction: nothing else is done to any connection but processing errors on this one, and the sessions are as they were.
  pub perform_statement :
      (g : Mongo D) (request : Methods E) (t : TransactionDetails) (surroundings : ℕ → Attempt)
      (wm : Bytes) (op : Operation) (p server connection k : ℕ)
      → request.transaction_details ≡ some t
      → t.is_start_transaction ≡ false
      → IsStatement (request.command_and_collection).0
      → Holds (g.sessions.heap p) server connection
      → k ≤ 3
      → Tried services request surroundings wm op 0 k
      → let (run, outcome) = perform services request (some p) surroundings (fresh services g) in
        (outcome ≡ response wm op)
        × OnlyOn connection run.events
        × (1 ≤ sends run.events)
        × (sends run.events ≤ suc k)
        × (run.mongo.sessions ≡ g.sessions)
  unfolding perform max_retries sends
  perform_statement g request t surroundings wm op p server connection k details later statement
        holds h tried =
      let start = fresh services g in
      let (last, (same, (finished, written))) =
        attempts-Steady request t surroundings wm op p server connection g.sessions details later
          statement holds 3 0 start tried h
          (record { sessions_kept = refl; only = tt; bounded = omega arith; open_still = tt }) in
      let few : sends last.events ≤ suc k = ground (arith, finished.bounded) in
      let active : is_transaction_active (last.mongo.sessions.heap p) ≡ true =
        subst (λ (x : SessionManager D). is_transaction_active (x.heap p) ≡ true)
          (sym finished.sessions_kept) (active_running (g.sessions.heap p) holds.running) in
      rw
        (
          same,
          perform,
          run_all-StaysOpen p connection last.deferred last active finished.open_still,
        )
        (refl, finished.only, written, few, finished.sessions_kept)
