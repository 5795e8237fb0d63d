-- ===== src/SessionManager.antt =====
-- mongo/session_manager.go: the manager. Sessions are shared by pointer: the map leads from a
-- session's key to a pointer, and the heap from a pointer to the session, so that what one caller
-- writes the next one reads. The distributed cache is an interface; the manager logs its errors
-- and goes on, so its writes return no error here. `now` is what `time.Now()` reads.
pub mod Store
pub mod Invariant
pub mod Steps
pub mod Lookup
pub mod Cleanup
mod Tests
use Store.{SessionStore}
use mathlib.Core.List.{lookup}
use mongobouncer.Base.Assoc.{put, delete, delete_all, keys_where}
use mongobouncer.Base.Base64.{encode}
use mongobouncer.Base.Lists.{length}
use mongobouncer.Base.Text.{Text, text_discrete}
use mongobouncer.Base.{
  ℕ, zero, suc, ◌+◌, ◌-◌, Bool, true, false, ◌||◌, Option, none, some, List, [], ◌∷◌, ite, ltb,
  if◌then◌else◌, ℕ_discrete,
}
use mongobouncer.Session.{
  Session, Result, ok, err, no_random_bytes, is_ended, new_session, start, commit, abort, unpin,
  reset, finish, is_transaction_active,
}

pub record SessionManager (D : Type 0) : Type 0 where
  pub sessions : List (Text × ℕ)
  pub heap : ℕ → Session
  pub next : ℕ
  pub distributed : Option D

-- A write through a pointer.
unfoldable pub update : (ℕ → Session) → ℕ → Session → ℕ → Session
update heap p s q = ite (ℕ_discrete q p) s (heap q)

pub count_active : (ℕ → Session) → List (Text × ℕ) → ℕ
count_active heap [] = 0
count_active heap ((_, p) ∷ l) =
    let rest = count_active heap l in if is_transaction_active (heap p) then rest + 1 else rest

module _ {D : Type 0} where
  pub new_manager : (ℕ → Session) → Option D → SessionManager D
  new_manager heap distributed = record {
    sessions = [];
    heap = heap;
    next = 0;
    distributed = distributed;
  }

  abbrev pub find : SessionManager D → Text → Option ℕ
  find m id = lookup text_discrete id m.sessions

  unfoldable pub write : SessionManager D → ℕ → Session → SessionManager D
  write m p s = record m { heap = update m.heap p s }

  -- `sm.sessions[id] = session`, for a session that is new to the heap
  unfoldable pub insert : SessionManager D → Text → Session → SessionManager D × ℕ
  insert m id s = (
    record m {
      sessions = put text_discrete id m.next m.sessions;
      heap = update m.heap m.next s;
      next = suc m.next;
    },
    m.next,
  )

  unfoldable pub commit_transaction :
      SessionManager D → ℕ → ℕ → SessionManager D × Result (Unit {0})
  commit_transaction m p now = elim (commit (m.heap p) now) [
    | err e ↦ (m, err e)
    | ok s ↦ (write m p s, ok tt)
  ]

  unfoldable pub abort_transaction : SessionManager D → ℕ → ℕ → SessionManager D × Result (Unit {0})
  abort_transaction m p now = elim (abort (m.heap p) now) [
    | err e ↦ (m, err e)
    | ok s ↦ (write m p s, ok tt)
  ]

  unfoldable pub unpin_transaction : SessionManager D → ℕ → SessionManager D
  unpin_transaction m p = write m p (unpin (m.heap p))

  unfoldable pub reset_transaction_state : SessionManager D → ℕ → SessionManager D
  reset_transaction_state m p = write m p (reset (m.heap p))

  -- Whether the session is ended or has been idle for longer than `max`.
  abbrev pub stale : SessionManager D → ℕ → ℕ → ℕ → Bool
  stale m max now p = is_ended (m.heap p).state || ltb max (now - (m.heap p).last_activity)

  pub cleanup_inactive_sessions : SessionManager D → ℕ → ℕ → SessionManager D
  cleanup_inactive_sessions m max now = record m {
    sessions =
        delete_all text_discrete (keys_where text_discrete (stale m max now) m.sessions) m.sessions;
  }

  abbrev pub old : SessionManager D → ℕ → ℕ → ℕ → Bool
  old m max now p = ltb max (now - (m.heap p).last_activity)

  -- Deleting during the iteration comes to deleting after it.
  pub cleanup_expired_sessions : SessionManager D → ℕ → ℕ → SessionManager D
  cleanup_expired_sessions m max now = record m {
    sessions =
        delete_all text_discrete (keys_where text_discrete (old m max now) m.sessions) m.sessions;
  }

  pub get_session_count : SessionManager D → ℕ
  get_session_count m = length m.sessions

  pub get_active_transaction_count : SessionManager D → ℕ
  get_active_transaction_count m = count_active m.heap m.sessions

module _ {D : Type 0} (store : SessionStore D) where
  open store use {is_enabled, get_stored, store_session, remove_session, store_transaction}

  -- A write to the distributed cache, if there is one and it is enabled.
  unfoldable pub distribute : (D → D) → SessionManager D → SessionManager D
  distribute write_to m = elim m.distributed [
    | none ↦ m
    | some d ↦ if is_enabled d then record m { distributed = some (write_to d) } else m
  ]

  -- CreateSession; `random` is the outcome of `GenerateLogicalSessionID`.
  pub create_session : SessionManager D → Option Text → Text → ℕ → SessionManager D × Result ℕ
  create_session m none client_id now = (m, err no_random_bytes)
  create_session m (some lsid) client_id now =
      let id = encode lsid in
      let s = new_session id lsid client_id now in
      let (m', p) = insert m id s in (distribute (λ d. store_session d now s) m', ok p)

  -- The distributed copy of a session that the map does not hold, kept in the map from now on.
  unfoldable pub adopt : SessionManager D → Text → ℕ → SessionManager D × Option ℕ
  adopt m id now = elim m.distributed [
    | none ↦ (m, none)
    | some d ↦
        if is_enabled d
        then elim (get_stored d now id) [
          | none ↦ (m, none)
          | some s ↦ let (m', p) = insert m id s in (m', some p)
        ]
        else (m, none)
  ]

  -- GetSession
  unfoldable pub get_session : SessionManager D → Text → ℕ → SessionManager D × Option ℕ
  get_session m lsid now = elim (find m (encode lsid)) [
    | none ↦ adopt m (encode lsid) now
    | some p ↦
        if is_ended (m.heap p).state
        then adopt m (encode lsid) now
        else (write m p (record (m.heap p) { last_activity = now }), some p)
  ]

  -- StartTransaction
  unfoldable pub start_transaction :
      SessionManager D → ℕ → Option ℕ → Option ℕ → ℕ → ℕ → SessionManager D × Result (Unit {0})
  start_transaction m p server connection txn_number now =
      elim (start (m.heap p) server connection txn_number now) [
        | err e ↦ (m, err e)
        | ok s ↦ (
          distribute (λ d. store_session (store_transaction d now s.ls_id server txn_number) now s)
              (write m p s),
          ok tt,
        )
      ]

  -- EndSession
  unfoldable pub end_session : SessionManager D → ℕ → ℕ → SessionManager D
  end_session m p now =
      if is_ended (m.heap p).state
      then m
      else let s = finish (m.heap p) now in
        distribute (λ d. remove_session d s.id)
          (record (write m p s) { sessions = delete text_discrete s.id m.sessions })
