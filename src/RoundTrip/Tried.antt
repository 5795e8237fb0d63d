-- ===== src/RoundTrip/Tried.antt =====
-- The attempts of a statement of a running transaction in RoundTrip of mongo/mongo.go: those that are
-- retried, and the one that is answered.
use mongobouncer.Base.Lists.{All}
use mongobouncer.Base.Text.{Text}
use mongobouncer.Base.{
  ℕ, suc, ◌≤◌, ◌≡◌, refl, sym, subst, ◌∙◌, ◌⊎◌, inl, inr, true, false, some, List, Option-cases,
  arith,
}
use mongobouncer.Errors.{is_retryable_error}
use mongobouncer.RoundTrip.Answers.{accept}
use mongobouncer.RoundTrip.Pinned.{Answers, told, accept-keeps}
use mongobouncer.RoundTrip.Sends.{sends}
use mongobouncer.RoundTrip.State.{
  Services, failed, replied, Attempt, Event, sent, processed, Deferred, close_later, Run, again,
  note,
}
use mongobouncer.RoundTrip.{answered, retry_or, exchange}
use mongobouncer.SessionManager.{SessionManager}
use mongobouncer.Wire.Bytes.{Bytes}
use mongobouncer.Wire.Decode.{malformed, decode}
use mongobouncer.Wire.Methods.{Methods, methods_of}
use mongobouncer.Wire.Operations.{Operation}

-- Requests are written and errors processed on the connection, and nothing else happens.
abbrev pub OnlyOn : ℕ → List Event → Type 0
OnlyOn c = All (λ e. (e ≡ sent c) ⊎ (e ≡ processed c))

-- The connection stays open with the transaction.
abbrev pub StaysOpen : ℕ → List Deferred → Type 0
StaysOpen c = All (λ call. call ≡ close_later false c)

module _ {D E : Type 0} (services : Services D E) where
  open services use {pkg, look, unicode_lower}

  -- An attempt after which the loop goes on: the server cannot process errors, the request fails
  -- with an error that may be retried, or the bytes of its answer do not decode.
  pub data Retried (request : Methods E) (attempt : Attempt) : Type 0 where
    no_processor : attempt.is_error_processor ≡ false → Retried request attempt
    not_sent :
        (e : Text)
        → attempt.is_error_processor ≡ true
        → attempt.reply ≡ failed e
        → is_retryable_error unicode_lower (some e) ≡ true
        → Retried request attempt
    not_read :
        (wm : Bytes) (message : Text)
        → attempt.is_error_processor ≡ true
        → request.unacknowledged ≡ false
        → attempt.reply ≡ replied wm
        → decode pkg wm ≡ malformed message
        → Retried request attempt

  -- From the attempt `j` on, the request is answered after `k` attempts that are retried.
  pub data Tried (request : Methods E) (surroundings : ℕ → Attempt) (wm : Bytes) (op : Operation)
      : ℕ → ℕ → Type 0 where
    answered_at :
        {j : ℕ}
        → Answers services request (surroundings j) wm op
        → Tried request surroundings wm op j 0
    retried_at :
        {j k : ℕ}
        → Retried request (surroundings j)
        → Tried request surroundings wm op (suc j) k
        → Tried request surroundings wm op j (suc k)

  -- How a run stands after at most `n` requests that are written.
  pub record Steady (sessions : SessionManager D) (connection n : ℕ) (run : Run D) : Type 0 where
    pub sessions_kept : run.mongo.sessions ≡ sessions
    pub only : OnlyOn connection run.events
    pub bounded : sends run.events ≤ n
    pub open_still : StaysOpen connection run.deferred

  pub exchange_again :
      (request : Methods E) (attempt : Attempt) (server connection n : ℕ)
      (sessions : SessionManager D) (run : Run D)
      → Retried request attempt
      → Steady sessions connection n run
      → (after : Run D) × ((exchange services true request server connection attempt run
            ≡ again after)
          × Steady sessions connection (suc n) after)
  unfolding exchange answered retry_or sends
  exchange_again request attempt server connection n sessions run (no_processor p) steady = (
    run,
    (
      simp (p, exchange),
      record {
        sessions_kept = steady.sessions_kept;
        only = steady.only;
        bounded = ground (arith, steady.bounded);
        open_still = steady.open_still;
      },
    ),
  )
  exchange_again request attempt server connection n sessions run (not_sent e p f r) steady = (
    note (processed connection) (note (sent connection) run),
    (
      simp (p, f, r, exchange, answered),
      record {
        sessions_kept = steady.sessions_kept;
        only = (inr refl, (inl refl, steady.only));
        bounded = ground (arith, steady.bounded);
        open_still = steady.open_still;
      },
    ),
  )
  exchange_again request attempt server connection n sessions run (not_read wm m p a f d) steady = (
    note (sent connection) run,
    (
      simp (p, a, f, d, exchange, answered),
      record {
        sessions_kept = steady.sessions_kept;
        only = (inl refl, steady.only);
        bounded = ground (arith, steady.bounded);
        open_still = steady.open_still;
      },
    ),
  )

  pub sends-told :
      (op : Operation) (connection : ℕ) (events : List Event)
      → sends (told services op connection events) ≡ sends events
  unfolding told sends
  sends-told op connection events =
      elim (Option-cases (methods_of pkg look unicode_lower op).error) [
        | inl e ↦ rw (e, told) refl
        | inr (x, e) ↦ rw (e, told) refl
      ]

  pub told-OnlyOn :
      (op : Operation) (connection : ℕ) (events : List Event)
      → OnlyOn connection events
      → OnlyOn connection (told services op connection events)
  unfolding told
  told-OnlyOn op connection events only =
      elim (Option-cases (methods_of pkg look unicode_lower op).error) [
        | inl e ↦ rw (e, told) only
        | inr (x, e) ↦ rw (e, told) (inr refl, only)
      ]

  -- The answer leaves the run steady, with one more request written.
  pub accept-Steady :
      (request : Methods E) (op : Operation) (server connection now n : ℕ)
      (sessions : SessionManager D) (run : Run D)
      → Steady sessions connection n run
      → let after = accept services request op server connection now (note (sent connection) run) in
        Steady sessions connection (suc n) after × (1 ≤ sends after.events)
  unfolding sends
  accept-Steady request op server connection now n sessions run steady =
      let written = note (sent connection) run in
      let kept = accept-keeps services request op server connection now written in
      let count = sends-told op connection written.events in
      (
        record {
          sessions_kept = kept.2 ∙ steady.sessions_kept;
          only =
              subst (OnlyOn connection) (sym kept.0)
                (told-OnlyOn op connection written.events (inl refl, steady.only));
          bounded = ground (arith, kept.0, count, steady.bounded);
          open_still = subst (StaysOpen connection) (sym kept.1) steady.open_still;
        },
        ground (arith, kept.0, count),
      )
