-- ===== src/SessionManager/Steps.antt =====
-- Histories of the session manager of mongo/session_manager.go: any calls, on any pointers.
use mongobouncer.Base.Assoc.{delete, lookup-delete, delete-Unique}
use mongobouncer.Base.Base64.{encode}
use mongobouncer.Base.Text.{Text, text_discrete}
use mongobouncer.Base.{
  ℕ, ◌≡◌, refl, Option, none, some, List, [], ◌∷◌, arith, inl, inr, Option-cases, Bool-cases,
}
use mongobouncer.Session.{Session, is_ended, new_session, start}
use mongobouncer.Session.Keeps.{Result-cases, start-Keeps, unpin-Keeps, reset-Keeps, id-finish}
use mongobouncer.SessionManager.Invariant.{
  IsIndexed, IsFaithful, new_manager-IsIndexed, insert-IsIndexed, keeping-IsIndexed,
  commit_transaction-IsIndexed, abort_transaction-IsIndexed, cleanup-IsIndexed,
  distribute-IsIndexed,
}
use mongobouncer.SessionManager.Store.{SessionStore}
use mongobouncer.SessionManager.{
  SessionManager, new_manager, find, update, write, adopt, create_session, get_session,
  start_transaction, commit_transaction, abort_transaction, unpin_transaction,
  reset_transaction_state, end_session, cleanup_inactive_sessions, cleanup_expired_sessions, stale,
  old,
}

-- A call of the manager, with the time at which it is made. A session is named by its pointer.
pub data Call : Type 0 where
  create : Option Text → Text → Call
  get : Text → Call
  starts : ℕ → Option ℕ → Option ℕ → ℕ → Call
  commits aborts unpins resets ends : ℕ → Call
  cleans_inactive cleans_expired : ℕ → Call

module _ {D : Type 0} (store : SessionStore D) where
  unfoldable pub step : SessionManager D → ℕ → Call → SessionManager D
  step m now (create random client_id) = (create_session store m random client_id now).0
  step m now (get lsid) = (get_session store m lsid now).0
  step m now (starts p server connection n) =
      (start_transaction store m p server connection n now).0
  step m now (commits p) = (commit_transaction m p now).0
  step m now (aborts p) = (abort_transaction m p now).0
  step m now (unpins p) = unpin_transaction m p
  step m now (resets p) = reset_transaction_state m p
  step m now (ends p) = end_session store m p now
  step m now (cleans_inactive max) = cleanup_inactive_sessions m max now
  step m now (cleans_expired max) = cleanup_expired_sessions m max now

  unfoldable pub run : SessionManager D → List (ℕ × Call) → SessionManager D
  run m [] = m
  run m ((now, call) ∷ calls) = run (step m now call) calls

  create_session-IsIndexed :
      (m : SessionManager D) (random : Option Text) (client_id : Text) (now : ℕ)
      → IsIndexed m
      → IsIndexed (create_session store m random client_id now).0
  unfolding create_session new_session
  create_session-IsIndexed m none client_id now v = v
  create_session-IsIndexed m (some lsid) client_id now v =
      distribute-IsIndexed store _ _ (insert-IsIndexed m (encode lsid) _ v refl (λ e. cc))

  finished-IsIndexed :
      (m : SessionManager D) (p : ℕ) (s : Session)
      → IsIndexed m
      → s.id ≡ (m.heap p).id
      → IsIndexed (record (write m p s) { sessions = delete text_discrete s.id m.sessions })
  unfolding write update
  finished-IsIndexed m p s v e = record {
    unique = delete-Unique text_discrete s.id m.sessions v.unique;
    allocated =
        λ id q h. ground (arith, lookup-delete text_discrete s.id id m.sessions, v.allocated id q);
    keyed = λ id q h. ground (arith, lookup-delete text_discrete s.id id m.sessions, v.keyed id q);
    live = λ id q h.
        ground (arith, lookup-delete text_discrete s.id id m.sessions, v.live id q, v.keyed id q);
  }

  end_session-IsIndexed :
      (m : SessionManager D) (p now : ℕ) → IsIndexed m → IsIndexed (end_session store m p now)
  unfolding end_session
  end_session-IsIndexed m p now v = elim (Bool-cases (is_ended (m.heap p).state)) [
    | inl h ↦ rw (h, end_session) v
    | inr h ↦
        rw (h, end_session)
          (distribute-IsIndexed store _ _ (finished-IsIndexed m p _ v (id-finish (m.heap p) now)))
  ]

  adopt-IsIndexed :
      (m : SessionManager D) (id : Text) (now : ℕ)
      → IsFaithful store
      → IsIndexed m
      → IsIndexed (adopt store m id now).0
  unfolding adopt
  adopt-IsIndexed m id now f v = elim (Option-cases m.distributed) [
    | inl h ↦ rw (h, adopt) v
    | inr (d, h) ↦ elim (Bool-cases (store.is_enabled d)) [
      | inr off ↦ rw (h, adopt, off) v
      | inl on ↦ elim (Option-cases (store.get_stored d now id)) [
        | inl missing ↦ rw (h, adopt, on, missing) v
        | inr (s, found) ↦
            rw (h, adopt, on, found)
              (insert-IsIndexed m id s v (f.stored_id d now id s found)
                (f.stored_live d now id s found))
      ]
    ]
  ]

  get_session-IsIndexed :
      (m : SessionManager D) (lsid : Text) (now : ℕ)
      → IsFaithful store
      → IsIndexed m
      → IsIndexed (get_session store m lsid now).0
  unfolding get_session
  get_session-IsIndexed m lsid now f v = elim (Option-cases (find m (encode lsid))) [
    | inl missing ↦ rw (missing, get_session) (adopt-IsIndexed m (encode lsid) now f v)
    | inr (p, found) ↦ elim (Bool-cases (is_ended (m.heap p).state)) [
      | inl h ↦ rw (found, get_session, h) (adopt-IsIndexed m (encode lsid) now f v)
      | inr h ↦ rw (found, get_session, h) (keeping-IsIndexed m p _ v (refl, refl))
    ]
  ]

  start_transaction-IsIndexed :
      (m : SessionManager D) (p : ℕ) (server connection : Option ℕ) (n now : ℕ)
      → IsIndexed m
      → IsIndexed (start_transaction store m p server connection n now).0
  unfolding start_transaction
  start_transaction-IsIndexed m p server connection n now v =
      elim (Result-cases (start (m.heap p) server connection n now)) [
        | inl (e, h) ↦ rw (h, start_transaction) v
        | inr (s, h) ↦
            rw (h, start_transaction)
              (distribute-IsIndexed store _ _
                (keeping-IsIndexed m p s v (start-Keeps (m.heap p) s server connection n now h)))
      ]

  step-IsIndexed :
      (m : SessionManager D) (now : ℕ) (call : Call)
      → IsFaithful store
      → IsIndexed m
      → IsIndexed (step m now call)
  unfolding step unpin_transaction reset_transaction_state cleanup_inactive_sessions
      cleanup_expired_sessions
  step-IsIndexed m now (create random client_id) f v =
      create_session-IsIndexed m random client_id now v
  step-IsIndexed m now (get lsid) f v = get_session-IsIndexed m lsid now f v
  step-IsIndexed m now (starts p server connection n) f v =
      start_transaction-IsIndexed m p server connection n now v
  step-IsIndexed m now (commits p) f v = commit_transaction-IsIndexed m p now v
  step-IsIndexed m now (aborts p) f v = abort_transaction-IsIndexed m p now v
  step-IsIndexed m now (unpins p) f v = keeping-IsIndexed m p _ v (unpin-Keeps (m.heap p))
  step-IsIndexed m now (resets p) f v = keeping-IsIndexed m p _ v (reset-Keeps (m.heap p))
  step-IsIndexed m now (ends p) f v = end_session-IsIndexed m p now v
  step-IsIndexed m now (cleans_inactive max) f v = cleanup-IsIndexed m (stale m max now) v
  step-IsIndexed m now (cleans_expired max) f v = cleanup-IsIndexed m (old m max now) v

  run_keeps :
      (m : SessionManager D) (calls : List (ℕ × Call))
      → IsFaithful store
      → IsIndexed m
      → IsIndexed (run m calls)
  unfolding run
  run_keeps m [] f v = v
  run_keeps m ((now, call) ∷ calls) f v =
      run_keeps (step m now call) calls f (step-IsIndexed m now call f v)

  -- After any calls on a new manager, with any pointers and at any times, each key of the map is
  -- there once and leads to an allocated session with that key that is not ended, provided that
  -- the distributed cache hands out only such sessions.
  pub run-IsIndexed :
      (heap : ℕ → Session) (d : Option D) (calls : List (ℕ × Call))
      → IsFaithful store
      → IsIndexed (run (new_manager heap d) calls)
  run-IsIndexed heap d calls f =
      run_keeps (new_manager heap d) calls f (new_manager-IsIndexed heap d)
