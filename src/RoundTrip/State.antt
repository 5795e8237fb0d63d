-- ===== src/RoundTrip/State.antt =====
-- What RoundTrip of mongo/mongo.go keeps, is given by its surroundings, and answers. Servers and
-- connections are handles. The parts of a server (the sessions, the two caches) each have the part
-- of the distributed cache that they use.
use mongobouncer.Base.Text.{Text}
use mongobouncer.Base.{
  ◌≡◌, refl, ◌⊎◌, inl, inr, ℕ, ◌-◌, ◌^◌, Bool, Option, none, some, List, ◌∷◌, ltb, if◌then◌else◌,
}
use mongobouncer.Caches.Shared.{SharedCursors, SharedTransactions}
use mongobouncer.Caches.{CursorCache, TransactionCache}
use mongobouncer.Command.Bson.{ℤ, pos, negsuc}
use mongobouncer.Health.{HealthStats}
use mongobouncer.Selection.{Choice, chosen, no_server as none_selected}
use mongobouncer.Session.{Error}
use mongobouncer.SessionManager.Store.{SessionStore}
use mongobouncer.SessionManager.{SessionManager}
use mongobouncer.Wire.Bytes.{Bytes}
use mongobouncer.Wire.Operations.{Operation}
use mongobouncer.Wire.Package.{Package, Lookups}

-- The struct Mongo; `connected` is whether its client is not nil.
pub record Mongo (D : Type 0) : Type 0 where
  pub connected : Bool
  pub database_name : Text
  pub health_stats : Option (HealthStats Text)
  pub sessions : SessionManager D
  pub cursors : CursorCache ℕ D
  pub transactions : TransactionCache ℕ D

-- The code outside mongo/mongo.go that RoundTrip calls.
pub record Services (D E : Type 0) : Type 0 where
  pub store : SessionStore D
  pub shared_cursors : SharedCursors ℕ D
  pub shared_transactions : SharedTransactions ℕ D
  pub pkg : Package
  pub look : Lookups E
  pub unicode_lower : ℕ → ℕ

-- How writing the request and reading the answer went.
pub data Reply : Type 0 where
  failed : Text → Reply
  replied : Bytes → Reply

-- What one turn of the retry loop meets: the topology's choice and the server's connection, `none`
-- for an error; whether the server is an ErrorProcessor; the answer; the time.
pub record Attempt : Type 0 where
  pub selected : Option ℕ
  pub connection : Option ℕ
  pub is_error_processor : Bool
  pub reply : Reply
  pub now : ℕ

-- What is done to a connection.
pub data Event : Type 0 where
  checked_out sent processed closed : ℕ → Event

-- The deferred calls: UnpinTransaction, and the function that closes the connection, which knows
-- whether the command was a commit or an abort.
pub data Deferred : Type 0 where
  unpin_later : Deferred
  close_later : Bool → ℕ → Deferred

-- The server, what has been done so far, and the deferred calls, the last one first.
pub record Run (D : Type 0) : Type 0 where
  pub mongo : Mongo D
  pub events : List Event
  pub deferred : List Deferred

pub data Failure : Type 0 where
  connection_closed selection_failed no_server checkout_failed no_error_processor : Failure
  session_failed : Error → Failure
  sending_failed decoding_failed : Text → Failure
  decoding_unfinished retries_exceeded : Failure

-- An answer, an empty message, or an error.
pub data Outcome : Type 0 where
  response : Bytes → Operation → Outcome
  no_response : Outcome
  failure : Failure → Outcome

-- What the transaction's part of a turn comes to: an error, or whether the command was a commit or
-- an abort.
pub data Managed (D : Type 0) : Type 0 where
  stopped : Run D → Failure → Managed D
  going : Run D → Bool → Managed D

-- A turn of the loop goes on or returns.
pub data Step (D : Type 0) : Type 0 where
  again : Run D → Step D
  done : Run D → Outcome → Step D

-- The int64 that a bit pattern stands for.
unfoldable pub signed64 : ℕ → ℤ
signed64 w = if ltb w (2 ^ 63) then pos w else negsuc (2 ^ 64 - w - 1)

pub Choice-cases :
    (c : Choice ℕ)
    → (c ≡ none_selected) ⊎ ((c ≡ chosen none) ⊎ ((server : ℕ) × (c ≡ chosen (some server))))
Choice-cases none_selected = inl refl
Choice-cases (chosen none) = inr (inl refl)
Choice-cases (chosen (some server)) = inr (inr (server, refl))

module _ {D : Type 0} where
  abbrev pub note : Event → Run D → Run D
  note event run = record run { events = event ∷ run.events }

  abbrev pub defer : Deferred → Run D → Run D
  defer call run = record run { deferred = call ∷ run.deferred }

  abbrev pub with_sessions : SessionManager D → Run D → Run D
  with_sessions sessions run = record run { mongo = record run.mongo { sessions = sessions } }

  pub Managed-cases :
      (m : Managed D)
      → ((run : Run D) × (e : Failure) × (m ≡ stopped run e))
        ⊎ ((run : Run D) × (ends : Bool) × (m ≡ going run ends))
  Managed-cases (stopped run e) = inl (run, e, refl)
  Managed-cases (going run ends) = inr (run, ends, refl)

  pub Step-cases :
      (step : Step D)
      → ((run : Run D) × (step ≡ again run))
        ⊎ ((run : Run D) × (outcome : Outcome) × (step ≡ done run outcome))
  Step-cases (again run) = inl (run, refl)
  Step-cases (done run outcome) = inr (run, outcome, refl)
