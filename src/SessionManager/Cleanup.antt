-- ===== src/SessionManager/Cleanup.antt =====
-- The two clean-ups of mongo/session_manager.go.
use mongobouncer.Base.Assoc.{keys_where, lookup-delete_where, length-delete_all-le}
use mongobouncer.Base.Text.{Text, text_discrete}
use mongobouncer.Base.{
  ℕ, ◌-◌, ◌≡◌, ◌≤◌, Option, none, some, ltb, if◌then◌else◌, arith, inl, inr, Option-cases,
}
use mongobouncer.Session.{is_ended}
use mongobouncer.SessionManager.Invariant.{IsIndexed}
use mongobouncer.SessionManager.{
  SessionManager, find, cleanup_inactive_sessions, cleanup_expired_sessions, stale, old,
  get_session_count,
}

module _ {D : Type 0} (m : SessionManager D) (max now : ℕ) where
  -- What a clean-up leaves under a key: the session, unless its last activity lies too far back.
  unfoldable pub survivor : Text → Option ℕ
  survivor id = elim (find m id) [
    | none ↦ none
    | some p ↦ if ltb max (now - (m.heap p).last_activity) then none else some p
  ]

module _ {D : Type 0} (m : SessionManager D) (max now : ℕ) (v : IsIndexed m) where
  live_stale : (id : Text) (p : ℕ) → find m id ≡ some p → stale m max now p ≡ old m max now p
  unfolding is_ended
  live_stale id p h = ground (arith, v.live id p h)

  -- Both clean-ups drop exactly the sessions whose last activity is more than `max` ago, whether
  -- a transaction is open on them or not, and leave the others where they were: in a map of live
  -- sessions the test for an ended one makes no difference.
  pub find-cleanup :
      (id : Text)
      → (find (cleanup_inactive_sessions m max now) id ≡ survivor m max now id)
        × (find (cleanup_expired_sessions m max now) id ≡ survivor m max now id)
  unfolding cleanup_inactive_sessions cleanup_expired_sessions survivor
  find-cleanup id =
      let inactive = lookup-delete_where text_discrete (stale m max now) id m.sessions v.unique in
      let expired = lookup-delete_where text_discrete (old m max now) id m.sessions v.unique in
      elim (Option-cases (find m id)) [
        | inl h ↦ (ground arith, ground arith)
        | inr (p, h) ↦ (ground (arith, live_stale id p h), ground arith)
      ]

  pub get_session_count-cleanup-le :
      get_session_count (cleanup_inactive_sessions m max now) ≤ get_session_count m
  unfolding cleanup_inactive_sessions get_session_count
  get_session_count-cleanup-le =
      length-delete_all-le text_discrete (keys_where text_discrete (stale m max now) m.sessions)
        m.sessions
