-- ===== src/RoundTrip/Closing.antt =====
-- The connections that RoundTrip of mongo/mongo.go takes for a request outside a transaction.
use mongobouncer.Base.{
  ℕ, zero, suc, ◌+◌, ◌≡◌, refl, subst, Bool, true, false, ◌==◌, Option, none, some, List, [], ◌∷◌,
  arith, Option-cases, Bool-cases, inl, inr, if◌then◌else◌,
}
use mongobouncer.Base.Text.{Text}
use mongobouncer.RoundTrip.Answers.{accept}
use mongobouncer.RoundTrip.Sends.{reached}
use mongobouncer.RoundTrip.Sessions.{open_session, manage, checkout_connection, pinned_connection}
use mongobouncer.RoundTrip.State.{
  Mongo, Services, Attempt, Event, checked_out, sent, closed, Deferred, unpin_later, close_later,
  Run, Choice-cases, Step-cases,
}
use mongobouncer.RoundTrip.{
  retry_or, answered, exchange, with_connection, with_server, taken, choose, check_before,
  attempt_once, attempts, run_deferred, run_all, perform, round_trip, max_retries,
}
use mongobouncer.Wire.Methods.{Methods}
use mongobouncer.Wire.Operations.{TransactionDetails}

module _ (c : ℕ) where
  -- How often the connection is taken, closed, and to be closed at the return.
  pub takings : List Event → ℕ
  takings [] = 0
  takings (checked_out d ∷ events) = if d == c then suc (takings events) else takings events
  takings (_ ∷ events) = takings events

  pub closings : List Event → ℕ
  closings [] = 0
  closings (closed d ∷ events) = if d == c then suc (closings events) else closings events
  closings (_ ∷ events) = closings events

  pending : List Deferred → ℕ
  pending [] = 0
  pending (close_later ends d ∷ calls) = if d == c then suc (pending calls) else pending calls
  pending (unpin_later ∷ calls) = pending calls

  IsBalanced : {D : Type 0} → Run D → Type 0
  IsBalanced run = takings run.events ≡ closings run.events + pending run.deferred

  empty-IsBalanced :
      {D : Type 0} (g : Mongo D)
      → IsBalanced {D = D} (record { mongo = g; events = []; deferred = [] })
  unfolding IsBalanced takings closings pending
  empty-IsBalanced g = refl

  module _ {D E : Type 0} (services : Services D E) where
    answered-IsBalanced :
        (b : Bool) (request : Methods E) (server connection : ℕ) (attempt : Attempt) (run : Run D)
        → IsBalanced run
        → IsBalanced (reached (answered services b request server connection attempt run))
    unfolding answered takings closings retry_or accept IsBalanced
    answered-IsBalanced b request server connection attempt run h = ground arith

    exchange-IsBalanced :
        (b : Bool) (request : Methods E) (server connection : ℕ) (attempt : Attempt) (run : Run D)
        → IsBalanced run
        → IsBalanced (reached (exchange services b request server connection attempt run))
    unfolding exchange IsBalanced takings closings retry_or
    exchange-IsBalanced b request server connection attempt run h = ground (
      arith,
      answered-IsBalanced b request server connection attempt
          (record run { events = sent connection ∷ run.events }),
    )

    with_server-IsBalanced :
        (b : Bool) (request : Methods E) (server : ℕ) (attempt : Attempt) (run : Run D)
        → IsBalanced run
        → IsBalanced (reached (with_server services b request none server attempt run))
    unfolding with_server with_connection manage checkout_connection pinned_connection taken
        retry_or IsBalanced takings closings pending
    with_server-IsBalanced b request server attempt run h = elim (Option-cases attempt.connection) [
      | inl e ↦ rw (e, with_server) (ground arith)
      | inr (connection, e) ↦
          rw (e, with_server)
            (exchange-IsBalanced b request server connection attempt
              (record run {
                events = checked_out connection ∷ run.events;
                deferred = close_later false connection ∷ run.deferred;
              })
              (ground arith))
    ]

    attempt_once-IsBalanced :
        (b : Bool) (request : Methods E) (attempt : Attempt) (run : Run D)
        → IsBalanced run
        → IsBalanced (reached (attempt_once services b request none attempt run))
    unfolding attempt_once retry_or IsBalanced
    attempt_once-IsBalanced b request attempt run h =
        elim (Choice-cases (choose services run.mongo request none attempt)) [
          | inl e ↦ rw (e, attempt_once) (ground arith)
          | inr (inl e) ↦ rw (e, attempt_once) h
          | inr (inr (server, e)) ↦
              rw (e, attempt_once) (with_server-IsBalanced b request server attempt run h)
        ]

    attempts-IsBalanced :
        (left k : ℕ) (request : Methods E) (surroundings : ℕ → Attempt) (run : Run D)
        → IsBalanced run
        → IsBalanced (attempts services left k request none surroundings run).0
    unfolding attempts
    attempts-IsBalanced zero k request surroundings run h =
        let kept = attempt_once-IsBalanced false request (surroundings k) run h in
        elim (Step-cases (attempt_once services false request none (surroundings k) run)) [
          | inl (after, e) ↦ rw (e, attempts) (subst (λ step. IsBalanced (reached step)) e kept)
          | inr (after, outcome, e) ↦
              rw (e, attempts) (subst (λ step. IsBalanced (reached step)) e kept)
        ]
    attempts-IsBalanced (suc left) k request surroundings run h =
        let kept = attempt_once-IsBalanced true request (surroundings k) run h in
        elim (Step-cases (attempt_once services true request none (surroundings k) run)) [
          | inl (after, e) ↦
              rw (e, attempts)
                (attempts-IsBalanced left (suc k) request surroundings after
                  (subst (λ step. IsBalanced (reached step)) e kept))
          | inr (after, outcome, e) ↦
              rw (e, attempts) (subst (λ step. IsBalanced (reached step)) e kept)
        ]

    -- A deferred call closes what it was to close.
    run_all-IsBalanced :
        (calls : List Deferred) (run : Run D)
        → takings run.events ≡ closings run.events + pending calls
        → takings (run_all services none calls run).events
          ≡ closings (run_all services none calls run).events
    unfolding run_all run_deferred takings closings pending
    run_all-IsBalanced [] run h = omega arith
    run_all-IsBalanced (unpin_later ∷ calls) run h = run_all-IsBalanced calls run h
    run_all-IsBalanced (close_later ends d ∷ calls) run h =
        run_all-IsBalanced calls (record run { events = closed d ∷ run.events }) (ground arith)

    no_session :
        (g : Mongo D) (details : Option TransactionDetails) (now : ℕ)
        → details ≡ none
        → open_session services g details now ≡ (g, none)
    unfolding open_session
    no_session g none now e = refl
    no_session g (some t) now e = ground arith

    tried-IsBalanced :
        (request : Methods E) (surroundings : ℕ → Attempt) (g : Mongo D)
        → IsBalanced
            (attempts services
              (max_retries services)
              0
              request
              none
              surroundings
              (record { mongo = g; events = []; deferred = [] })).0
    tried-IsBalanced request surroundings g =
        attempts-IsBalanced (max_retries services) 0 request surroundings
          (record { mongo = g; events = []; deferred = [] }) (empty-IsBalanced g)

    perform-balanced :
        (request : Methods E) (surroundings : ℕ → Attempt) (g : Mongo D)
        → let start : Run D = record { mongo = g; events = []; deferred = [] } in
          let events = (perform services request none surroundings start).0.events in
          takings events ≡ closings events
    unfolding perform IsBalanced
    perform-balanced request surroundings g =
        let start : Run D = record { mongo = g; events = []; deferred = [] } in
        let tried = attempts services (max_retries services) 0 request none surroundings start in
        run_all-IsBalanced tried.0.deferred tried.0 (tried-IsBalanced request surroundings g)

    -- After RoundTrip of a request without transaction details, each connection has been closed as often as it was taken from a server, whatever went wrong on the way.
    pub round_trip-closes :
        (g : Mongo D) (request : Methods E) (ping : Option Text) (response_time now : ℕ)
        (surroundings : ℕ → Attempt)
        → request.transaction_details ≡ none
        → let events =
            (round_trip services g request ping response_time now surroundings).0.events in
          takings events ≡ closings events
    unfolding round_trip takings closings
    round_trip-closes g request ping response_time now surroundings plain =
        elim (Bool-cases g.connected) [
          | inr h ↦ rw (h, round_trip) refl
          | inl h ↦
              let checked = check_before services g ping response_time now in
              rw (h, round_trip)
                (rw (no_session checked request.transaction_details now plain)
                  (perform-balanced request surroundings checked))
        ]
