-- ===== src/RoundTrip/Ends.antt =====
-- The commit or abort of a running transaction in RoundTrip of mongo/mongo.go, with its retries.
use mongobouncer.Base.Text.{Text}
use mongobouncer.Base.{
  ℕ, ◌≡◌, refl, sym, subst, ◌∙◌, ◌⊎◌, inl, inr, true, false, none, some, [], ◌∷◌, Bool-cases,
}
use mongobouncer.Caches.{remove_transaction}
use mongobouncer.Errors.{is_retryable_error}
use mongobouncer.RoundTrip.Answers.{is_commit_or_abort}
use mongobouncer.RoundTrip.InTransaction.{fresh, ending_session, perform_end_first}
use mongobouncer.RoundTrip.Pinned.{Holds, Answers, told, attempt_once-pinned, manage-later}
use mongobouncer.RoundTrip.State.{
  Mongo, Services, Attempt, sent, closed, unpin_later, close_later, Run, response, note, defer,
  with_sessions,
}
use mongobouncer.RoundTrip.{answered, retry_or, exchange, attempts, perform, max_retries}
use mongobouncer.Session.{idle, is_in_progress}
use mongobouncer.SessionManager.{write}
use mongobouncer.SessionManager.Lookup.{update_self}
use mongobouncer.Wire.Bytes.{Bytes}
use mongobouncer.Wire.Decode.{Decoded, decoded, malformed, unfinished, decode}
use mongobouncer.Wire.Methods.{Methods}
use mongobouncer.Wire.Operations.{TransactionDetails, Operation}
use mongobouncer.RoundTrip.Spent.{Unanswered, without_answer, response-injective, Reply-cases}

module _ {D E : Type 0} (services : Services D E) where
  open services use {pkg, look, unicode_lower}

  Decoded-cases :
      (d : Decoded Operation)
      → ((op : Operation) × (d ≡ decoded op))
        ⊎ (((message : Text) × (d ≡ malformed message)) ⊎ (d ≡ unfinished))
  Decoded-cases (decoded op) = inl (op, refl)
  Decoded-cases (malformed message) = inr (inl (message, refl))
  Decoded-cases unfinished = inr (inr refl)

  answered-cases :
      (request : Methods E) (p server connection : ℕ) (attempt : Attempt) (run : Run D)
      → attempt.is_error_processor ≡ true
      → is_in_progress (run.mongo.sessions.heap p).transaction_state ≡ false
      → ((wm : Bytes) × (op : Operation) × Answers services request attempt wm op)
        ⊎ Unanswered services p (answered services true request server connection attempt run)
  unfolding answered retry_or
  answered-cases request p server connection attempt run able h = elim (Reply-cases attempt.reply) [
    | inl (e, k) ↦ elim (Bool-cases (is_retryable_error unicode_lower (some e))) [
      | inl r ↦ inr (rw (k, answered, r) h)
      | inr r ↦ inr (rw (k, answered, r) (λ wm op same. cc))
    ]
    | inr (wm, k) ↦ elim (Bool-cases request.unacknowledged) [
      | inl u ↦ inr (rw (k, answered, u) (λ w op same. cc))
      | inr u ↦ elim (Decoded-cases (decode pkg wm)) [
        | inl (op, d) ↦
            inl (wm, op, record { acknowledged = u; processor = able; got = k; understood = d })
        | inr (inl (message, d)) ↦ inr (rw (k, answered, u, d) h)
        | inr (inr d) ↦ inr (rw (k, answered, u, d) h)
      ]
    ]
  ]

  exchange-cases :
      (request : Methods E) (p server connection : ℕ) (attempt : Attempt) (run : Run D)
      → is_in_progress (run.mongo.sessions.heap p).transaction_state ≡ false
      → ((wm : Bytes) × (op : Operation) × Answers services request attempt wm op)
        ⊎ Unanswered services p (exchange services true request server connection attempt run)
  unfolding exchange retry_or answered
  exchange-cases request p server connection attempt run h =
      elim (Bool-cases attempt.is_error_processor) [
        | inr e ↦ inr (rw (e, exchange) h)
        | inl e ↦
            elim (answered-cases request p server connection attempt (note (sent connection) run) e
              h) [ inl good ↦ inl good | inr u ↦ inr (rw (e, exchange) u) ]
      ]

  -- An answered request has been answered at its first attempt: after it the transaction is over.
  first_answers :
      (g : Mongo D) (request : Methods E) (t : TransactionDetails) (surroundings : ℕ → Attempt)
      (wm : Bytes) (op : Operation) (p server connection : ℕ)
      → request.transaction_details ≡ some t
      → t.is_start_transaction ≡ false
      → is_commit_or_abort services (request.command_and_collection).0 ≡ true
      → Holds (g.sessions.heap p) server connection
      → (perform services request (some p) surroundings (fresh services g)).1 ≡ response wm op
      → (w : Bytes) × (o : Operation) × Answers services request (surroundings 0) w o
  unfolding perform max_retries attempts write
  first_answers g request t surroundings wm op p server connection details later ends holds got =
      let start = fresh services g in
      let attempt = surroundings 0 in
      let (s, (followed, over)) =
        ending_session services (request.command_and_collection).0 p attempt.now g.sessions ends
          holds.running in
      let after = defer unpin_later (with_sessions (write g.sessions p s) start) in
      let queued = defer (close_later true connection) after in
      let turn =
        attempt_once-pinned services request attempt true p server connection start after true holds
          (manage-later services request t p server connection attempt.now start
            (write g.sessions p s) true details later followed) in
      let spent : is_in_progress ((write g.sessions p s).heap p).transaction_state ≡ false =
        rw (update_self services.store g.sessions.heap p s) over in
      elim (exchange-cases request p server connection attempt queued spent) [
        | inl good ↦ good
        | inr u ↦ absurd (
            without_answer services request t p details later ends 2 0 surroundings start wm op
              (subst (Unanswered services p) (sym turn) u) got)
      ]

  first_answer :
      (g : Mongo D) (request : Methods E) (t : TransactionDetails) (surroundings : ℕ → Attempt)
      (wm : Bytes) (op : Operation) (p server connection : ℕ)
      → request.transaction_details ≡ some t
      → t.is_start_transaction ≡ false
      → is_commit_or_abort services (request.command_and_collection).0 ≡ true
      → Holds (g.sessions.heap p) server connection
      → (perform services request (some p) surroundings (fresh services g)).1 ≡ response wm op
      → Answers services request (surroundings 0) wm op
  first_answer g request t surroundings wm op p server connection details later ends holds got =
      let (w, o, good) =
        first_answers g request t surroundings wm op p server connection details later ends holds
          got in
      let finished =
        perform_end_first services g request t surroundings w o p server connection details later
          ends holds good in
      let same = response-injective (sym finished.0 ∙ got) in
      subst (λ (v : Bytes). Answers services request (surroundings 0) v op) same.0
        (subst (λ (x : Operation). Answers services request (surroundings 0) w x) same.1 good)

  -- A commit or an abort of a running transaction that has its server and connection pinned, not its first statement, goes through the retry loop and its deferred calls. Let it be one whose first attempt is answered (the request asks for an answer, the server can process errors, and the answer's bytes decode), or whose round trip ends with an answer. Then both are so, with the same answer, be there a server error in it or not. The request is sent once, on the pinned connection; an error in the answer is processed, and the connection is closed. The session is then out of its transaction, with nothing pinned, and the transaction's server is forgotten.
  pub perform_end :
      (g : Mongo D) (request : Methods E) (t : TransactionDetails) (surroundings : ℕ → Attempt)
      (wm : Bytes) (op : Operation) (p server connection : ℕ)
      → request.transaction_details ≡ some t
      → t.is_start_transaction ≡ false
      → is_commit_or_abort services (request.command_and_collection).0 ≡ true
      → Holds (g.sessions.heap p) server connection
      → Answers services request (surroundings 0) wm op
        ⊎ ((perform services request (some p) surroundings (fresh services g)).1 ≡ response wm op)
      → let (run, outcome) = perform services request (some p) surroundings (fresh services g) in
        Answers services request (surroundings 0) wm op
        × ((outcome ≡ response wm op)
            × (run.events ≡ closed connection ∷ told services op connection (sent connection ∷ []))
            × ((run.mongo.sessions.heap p).transaction_state ≡ idle)
            × ((run.mongo.sessions.heap p).pinned_server ≡ none)
            × ((run.mongo.sessions.heap p).pinned_connection ≡ none)
            × (run.mongo.transactions
                ≡ remove_transaction services.shared_transactions g.transactions t.ls_id))
  perform_end g request t surroundings wm op p server connection details later ends holds
        (inl good) =
      (
        good,
        perform_end_first services g request t surroundings wm op p server connection details later
            ends holds good,
      )
  perform_end g request t surroundings wm op p server connection details later ends holds
        (inr got) =
      let good =
        first_answer g request t surroundings wm op p server connection details later ends holds
          got in
      (
        good,
        perform_end_first services g request t surroundings wm op p server connection details later
            ends holds good,
      )
