-- ===== src/RoundTrip/Sends.antt =====
-- How often RoundTrip of mongo/mongo.go writes its request.
use mongobouncer.Base.Text.{Text}
use mongobouncer.Base.{
  ℕ, zero, suc, ◌+◌, ◌≤◌, ◌≡◌, refl, ◌∙◌, Bool, true, false, Option, none, some, List, [], ◌∷◌,
  arith, Option-cases, Bool-cases, inl, inr,
}
use mongobouncer.RoundTrip.Answers.{accept}
use mongobouncer.RoundTrip.Sessions.{open_session, manage, checkout_connection}
use mongobouncer.RoundTrip.State.{
  Mongo, Services, Attempt, Event, sent, Deferred, unpin_later, close_later, Run, Managed, stopped,
  going, Managed-cases, Choice-cases, Step-cases, Step, again, done,
}
use mongobouncer.RoundTrip.{
  retry_or, answered, exchange, with_connection, attempt_once, attempts, run_deferred, run_all,
  check_before, choose, taken, with_server, perform, round_trip, max_retries,
}
use mongobouncer.Wire.Methods.{Methods}

unfoldable pub sends : List Event → ℕ
sends [] = 0
sends (sent c ∷ events) = suc (sends events)
sends (_ ∷ events) = sends events

module _ {D : Type 0} where
  abbrev pub reached : Step D → Run D
  reached (again run) = run
  reached (done run outcome) = run

  abbrev managed : Managed D → Run D
  managed (stopped run e) = run
  managed (going run ends) = run

module _ {D E : Type 0} (services : Services D E) where
  events-manage :
      (request : Methods E) (session : Option ℕ) (server connection now : ℕ) (run : Run D)
      → (managed (manage services request session server connection now run)).events ≡ run.events
  unfolding manage
  events-manage request none server connection now run = refl
  events-manage request (some p) server connection now run = ground arith

  sends-answered :
      (b : Bool) (request : Methods E) (server connection : ℕ) (attempt : Attempt) (run : Run D)
      → sends (reached (answered services b request server connection attempt run)).events
        ≤ sends run.events
  unfolding answered sends retry_or accept
  sends-answered b request server connection attempt run = ground arith

  sends-exchange :
      (b : Bool) (request : Methods E) (server connection : ℕ) (attempt : Attempt) (run : Run D)
      → sends (reached (exchange services b request server connection attempt run)).events
        ≤ suc (sends run.events)
  unfolding exchange sends retry_or
  sends-exchange b request server connection attempt run = ground (
    arith,
    sends-answered b request server connection attempt
        (record run { events = sent connection ∷ run.events }),
  )

  sends-with_connection :
      (b : Bool) (request : Methods E) (session : Option ℕ) (server connection : ℕ)
      (attempt : Attempt) (run : Run D)
      → sends
          (reached
            (with_connection services b request session server connection attempt run)).events
        ≤ suc (sends run.events)
  unfolding with_connection
  sends-with_connection b request session server connection attempt run =
      let m = manage services request session server connection attempt.now run in
      let same = events-manage request session server connection attempt.now run in
      elim (Managed-cases m) [
        | inl (after, e, h) ↦ rw (h, with_connection) (ground (arith, h, same))
        | inr (after, ends, h) ↦
            rw (h, with_connection)
              (ground (
                arith,
                h,
                same,
                sends-exchange b request server connection attempt
                    (record after { deferred = close_later ends connection ∷ after.deferred }),
              ))
      ]

  sends-taken :
      (session : Option ℕ) (connection : ℕ) (run : Run D)
      → sends (taken services session connection run).events ≡ sends run.events
  unfolding taken sends
  sends-taken session connection run = ground arith

  sends-with_server :
      (b : Bool) (request : Methods E) (session : Option ℕ) (server : ℕ) (attempt : Attempt)
      (run : Run D)
      → sends (reached (with_server services b request session server attempt run)).events
        ≤ suc (sends run.events)
  unfolding with_server retry_or
  sends-with_server b request session server attempt run =
      elim (Option-cases (checkout_connection services run.mongo session attempt)) [
        | inl h ↦ rw (h, with_server) (ground arith)
        | inr (connection, h) ↦
            rw (h, with_server)
              (ground (
                arith,
                sends-taken session connection run,
                sends-with_connection b request session server connection attempt
                    (taken services session connection run),
              ))
      ]

  sends-attempt_once :
      (b : Bool) (request : Methods E) (session : Option ℕ) (attempt : Attempt) (run : Run D)
      → sends (reached (attempt_once services b request session attempt run)).events
        ≤ suc (sends run.events)
  unfolding attempt_once retry_or
  sends-attempt_once b request session attempt run =
      elim (Choice-cases (choose services run.mongo request session attempt)) [
        | inl h ↦ rw (h, attempt_once) (ground arith)
        | inr (inl h) ↦ rw (h, attempt_once) (ground arith)
        | inr (inr (server, h)) ↦
            rw (h, attempt_once) (sends-with_server b request session server attempt run)
      ]

  sends-attempts :
      (left k : ℕ) (request : Methods E) (session : Option ℕ) (surroundings : ℕ → Attempt)
      (run : Run D)
      → sends (attempts services left k request session surroundings run).0.events
        ≤ suc left + sends run.events
  unfolding attempts
  sends-attempts zero k request session surroundings run =
      ground (arith, sends-attempt_once false request session (surroundings k) run)
  sends-attempts (suc left) k request session surroundings run =
      elim (Step-cases (attempt_once services true request session (surroundings k) run)) [
        | inl (after, h) ↦
            rw (h, attempts)
              (ground (
                arith,
                h,
                sends-attempt_once true request session (surroundings k) run,
                sends-attempts left (suc k) request session surroundings after,
              ))
        | inr (after, outcome, h) ↦
            rw (h, attempts)
              (ground (arith, h, sends-attempt_once true request session (surroundings k) run))
      ]

  sends-run_deferred :
      (session : Option ℕ) (call : Deferred) (run : Run D)
      → sends (run_deferred services session call run).events ≡ sends run.events
  unfolding run_deferred sends
  sends-run_deferred none unpin_later run = refl
  sends-run_deferred (some p) unpin_later run = refl
  sends-run_deferred none (close_later ends connection) run = refl
  sends-run_deferred (some p) (close_later true connection) run = refl
  sends-run_deferred (some p) (close_later false connection) run = ground arith

  sends-run_all :
      (session : Option ℕ) (calls : List Deferred) (run : Run D)
      → sends (run_all services session calls run).events ≡ sends run.events
  unfolding run_all
  sends-run_all session [] run = refl
  sends-run_all session (call ∷ calls) run =
      sends-run_all session calls (run_deferred services session call run)
      ∙ sends-run_deferred session call run

  sends-perform :
      (request : Methods E) (session : Option ℕ) (surroundings : ℕ → Attempt) (run : Run D)
      → sends (perform services request session surroundings run).0.events ≤ 4 + sends run.events
  unfolding perform max_retries
  sends-perform request session surroundings run =
      let tried = attempts services 3 0 request session surroundings run in
      omega (
        arith,
        sends-run_all session tried.0.deferred tried.0,
        sends-attempts 3 0 request session surroundings run,
      )

  -- RoundTrip writes its request at most four times, whatever the driver does.
  pub sends-round_trip-le :
      (g : Mongo D) (request : Methods E) (ping : Option Text) (response_time now : ℕ)
      (surroundings : ℕ → Attempt)
      → sends (round_trip services g request ping response_time now surroundings).0.events ≤ 4
  unfolding round_trip sends
  sends-round_trip-le g request ping response_time now surroundings =
      elim (Bool-cases g.connected) [
        | inr h ↦ rw (h, round_trip) (omega arith)
        | inl h ↦
            let opened =
              open_session services (check_before services g ping response_time now)
                request.transaction_details now in
            rw (h, round_trip)
              (sends-perform request opened.1 surroundings
                (record { mongo = opened.0; events = []; deferred = [] }))
      ]
