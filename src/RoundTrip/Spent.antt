-- ===== src/RoundTrip/Spent.antt =====
-- RoundTrip of mongo/mongo.go once a commit or an abort has ended the session's transaction: no
-- later attempt is answered.
use mongobouncer.Base.Text.{Text}
use mongobouncer.Base.{
  ℕ, zero, suc, ◌≡◌, ◌≢◌, refl, sym, subst, ap, ◌⊎◌, inl, inr, Bool, true, false, some,
  Option-cases, arith,
}
use mongobouncer.Command.{Command}
use mongobouncer.RoundTrip.Answers.{is_commit_or_abort}
use mongobouncer.RoundTrip.Pinned.{start_first-later}
use mongobouncer.RoundTrip.Sessions.{manage, follow_command, checkout_connection}
use mongobouncer.RoundTrip.State.{
  Mongo, Services, Reply, failed, replied, Attempt, Run, Failure, session_failed, checkout_failed,
  stopped, Outcome, response, no_response, failure, Step, again, done, Choice-cases, Step-cases,
  with_sessions,
}
use mongobouncer.RoundTrip.{
  retry_or, with_connection, with_server, taken, choose, attempt_once, attempts,
}
use mongobouncer.Session.{
  Error, err, nothing_to_commit, nothing_to_abort, commit, abort, is_in_progress,
}
use mongobouncer.SessionManager.{SessionManager, commit_transaction, abort_transaction}
use mongobouncer.Wire.Bytes.{Bytes}
use mongobouncer.Wire.Methods.{Methods}
use mongobouncer.Wire.Operations.{TransactionDetails, Operation}

pub Reply-cases : (r : Reply) → ((e : Text) × (r ≡ failed e)) ⊎ ((wm : Bytes) × (r ≡ replied wm))
Reply-cases (failed e) = inl (e, refl)
Reply-cases (replied wm) = inr (wm, refl)

pub response-injective :
    {v w : Bytes} {o op : Operation} → response v o ≡ response w op → (v ≡ w) × (o ≡ op)
response-injective {v = v} {o = o} e = (
  ap (λ (x : Outcome). elim x [ response wm op ↦ wm | no_response ↦ v | failure f ↦ v ]) e,
  ap (λ (x : Outcome). elim x [ response wm op ↦ op | no_response ↦ o | failure f ↦ o ]) e,
)

module _ {D E : Type 0} (services : Services D E) where
  open services use {pkg, unicode_lower}

  -- The session is no longer in a transaction, or the loop has ended without an answer.
  abbrev pub Unanswered : ℕ → Step D → Type 0
  Unanswered p (again run) = is_in_progress (run.mongo.sessions.heap p).transaction_state ≡ false
  Unanswered p (done run outcome) = (wm : Bytes) (op : Operation) → outcome ≢ response wm op

  retry_or-Unanswered :
      (b : Bool) (e : Failure) (p : ℕ) (run : Run D)
      → is_in_progress (run.mongo.sessions.heap p).transaction_state ≡ false
      → Unanswered p (retry_or services b e run)
  unfolding retry_or
  retry_or-Unanswered true e p run h = h
  retry_or-Unanswered false e p run h = λ wm op same. cc

  follow_command-spent :
      (c : Command) (p now : ℕ) (sessions : SessionManager D)
      → is_commit_or_abort services c ≡ true
      → is_in_progress (sessions.heap p).transaction_state ≡ false
      → (e : Error) × (follow_command services c p now sessions ≡ (sessions, err e))
  unfolding follow_command is_commit_or_abort commit_transaction abort_transaction commit abort
  follow_command-spent Command.commit_transaction p now sessions c h =
      (nothing_to_commit, ground (arith, h))
  follow_command-spent Command.abort_transaction p now sessions c h =
      (nothing_to_abort, ground (arith, h))
  follow_command-spent _ p now sessions c h = ground arith

  module _ (request : Methods E) (t : TransactionDetails) (p : ℕ)
      (details : request.transaction_details ≡ some t) (later : t.is_start_transaction ≡ false)
      (ends : is_commit_or_abort services (request.command_and_collection).0 ≡ true) where
    with_connection-spent :
        (b : Bool) (server connection : ℕ) (attempt : Attempt) (run : Run D)
        → is_in_progress (run.mongo.sessions.heap p).transaction_state ≡ false
        → Unanswered p (with_connection services b request (some p) server connection attempt run)
    unfolding with_connection manage
    with_connection-spent b server connection attempt run h =
        let sessions = run.mongo.sessions in
        let (e, refused) =
          follow_command-spent (request.command_and_collection).0 p attempt.now sessions ends h in
        let stops : manage services request (some p) server connection attempt.now run
            ≡ stopped (with_sessions sessions run) (session_failed e) =
          simp (
            details,
            start_first-later services t p server connection attempt.now sessions later,
            refused,
            manage,
          ) in
        rw (stops, with_connection) (λ wm op same. cc)

    mongo-taken :
        (connection : ℕ) (run : Run D) → (taken services (some p) connection run).mongo ≡ run.mongo
    unfolding taken
    mongo-taken connection run = ground arith

    -- A turn after the session's transaction has ended.
    attempt_once-spent :
        (b : Bool) (attempt : Attempt) (run : Run D)
        → is_in_progress (run.mongo.sessions.heap p).transaction_state ≡ false
        → Unanswered p (attempt_once services b request (some p) attempt run)
    unfolding attempt_once with_server
    attempt_once-spent b attempt run h =
        elim (Choice-cases (choose services run.mongo request (some p) attempt)) [
          | inl e ↦ rw (e, attempt_once) (λ wm op same. cc)
          | inr (inl e) ↦ rw (e, attempt_once) (λ wm op same. cc)
          | inr (inr (server, e)) ↦
              elim (Option-cases (checkout_connection services run.mongo (some p) attempt)) [
                | inl k ↦
                    rw (e, attempt_once, k, with_server)
                      (retry_or-Unanswered b checkout_failed p run h)
                | inr (connection, k) ↦
                    rw (e, attempt_once, k, with_server)
                      (with_connection-spent b server connection attempt
                        (taken services (some p) connection run)
                        (subst
                          (λ (g : Mongo D).
                            is_in_progress (g.sessions.heap p).transaction_state ≡ false)
                          (sym (mongo-taken connection run)) h))
              ]
        ]

    attempts-spent :
        (left k : ℕ) (surroundings : ℕ → Attempt) (run : Run D) (wm : Bytes) (op : Operation)
        → is_in_progress (run.mongo.sessions.heap p).transaction_state ≡ false
        → (attempts services left k request (some p) surroundings run).1 ≢ response wm op
    unfolding attempts
    attempts-spent zero k surroundings run wm op h =
        let turn = attempt_once services false request (some p) (surroundings k) run in
        let u = attempt_once-spent false (surroundings k) run h in
        elim (Step-cases turn) [
          | inl (after, e) ↦ rw (e, attempts) (λ same. cc)
          | inr (after, outcome, e) ↦ rw (e, attempts) (subst (Unanswered p) e u wm op)
        ]
    attempts-spent (suc left) k surroundings run wm op h =
        let turn = attempt_once services true request (some p) (surroundings k) run in
        let u = attempt_once-spent true (surroundings k) run h in
        elim (Step-cases turn) [
          | inl (after, e) ↦
              rw (e, attempts)
                (attempts-spent left (suc k) surroundings after wm op (subst (Unanswered p) e u))
          | inr (after, outcome, e) ↦ rw (e, attempts) (subst (Unanswered p) e u wm op)
        ]

    -- A loop whose first turn is not answered is not answered later.
    pub without_answer :
        (left k : ℕ) (surroundings : ℕ → Attempt) (run : Run D) (wm : Bytes) (op : Operation)
        → Unanswered p (attempt_once services true request (some p) (surroundings k) run)
        → (attempts services (suc left) k request (some p) surroundings run).1 ≢ response wm op
    unfolding attempts
    without_answer left k surroundings run wm op u =
        let turn = attempt_once services true request (some p) (surroundings k) run in
        elim (Step-cases turn) [
          | inl (after, e) ↦
              rw (e, attempts)
                (attempts-spent left (suc k) surroundings after wm op (subst (Unanswered p) e u))
          | inr (after, outcome, e) ↦ rw (e, attempts) (subst (Unanswered p) e u wm op)
        ]
