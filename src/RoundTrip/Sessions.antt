-- ===== src/RoundTrip/Sessions.antt =====
-- The part of RoundTrip in mongo/mongo.go that deals with the session of a transaction.
use mongobouncer.RoundTrip.State.{
  Mongo, Services, Attempt, unpin_later, Run, session_failed, Managed, stopped, going, defer,
  with_sessions,
}
use mongobouncer.Base.Base64.{encode}
use mongobouncer.Base.Text.{codes}
use mongobouncer.Base.{ℕ, Bool, true, false, Option, none, some, if◌then◌else◌}
use mongobouncer.Command.{Command}
use mongobouncer.Session.{Result, ok, err, new_session, get_pinned_server, get_pinned_connection}
use mongobouncer.SessionManager.{
  SessionManager, insert, get_session, start_transaction, commit_transaction, abort_transaction,
  end_session,
}
use mongobouncer.Wire.Methods.{Methods}
use mongobouncer.Wire.Operations.{TransactionDetails}

module _ {D E : Type 0} (services : Services D E) where
  open services use {store, shared_cursors, shared_transactions, pkg, look, unicode_lower}

  -- The session of the request's transaction, made if there is none.
  unfoldable pub open_session : Mongo D → Option TransactionDetails → ℕ → Mongo D × Option ℕ
  open_session g none now = (g, none)
  open_session g (some t) now =
      let (sessions, found) = get_session store g.sessions t.ls_id now in
      elim found [
        | some p ↦ (record g { sessions = sessions }, some p)
        | none ↦
            let id = encode t.ls_id in
            let (grown, p) = insert sessions id (new_session id t.ls_id (codes "unknown") now) in
            (record g { sessions = grown }, some p)
      ]

  unfoldable pub pinned_server : Mongo D → Option ℕ → Option ℕ
  pinned_server g none = none
  pinned_server g (some p) = get_pinned_server (g.sessions.heap p)

  unfoldable pub pinned_connection : Mongo D → Option ℕ → Option ℕ
  pinned_connection g none = none
  pinned_connection g (some p) = get_pinned_connection (g.sessions.heap p)

  -- checkoutConnection, on a server that is not nil
  unfoldable pub checkout_connection : Mongo D → Option ℕ → Attempt → Option ℕ
  checkout_connection g session attempt = elim (pinned_connection g session) [
    | some connection ↦ some connection
    | none ↦ attempt.connection
  ]

  -- The transaction's start, if the request is its first.
  unfoldable pub start_first :
      TransactionDetails → ℕ → ℕ → ℕ → ℕ → SessionManager D → SessionManager D × Result (Unit {0})
  start_first t p server connection now sessions =
      if t.is_start_transaction
      then start_transaction store sessions p (some server) (some connection) t.txn_number now
      else (sessions, ok tt)

  -- The switch on the command: the session's state, and whether it is a commit or an abort.
  unfoldable pub follow_command :
      Command → ℕ → ℕ → SessionManager D → SessionManager D × Result Bool
  follow_command Command.commit_transaction p now sessions =
      let (after, result) = commit_transaction sessions p now in
      elim result [ ok _ ↦ (after, ok true) | err e ↦ (after, err e) ]
  follow_command Command.abort_transaction p now sessions =
      let (after, result) = abort_transaction sessions p now in
      elim result [ ok _ ↦ (after, ok true) | err e ↦ (after, err e) ]
  follow_command Command.end_sessions p now sessions = (end_session store sessions p now, ok false)
  follow_command _ p now sessions = (sessions, ok false)

  -- The transaction's part of a turn, once it has a connection.
  unfoldable pub manage : Methods E → Option ℕ → ℕ → ℕ → ℕ → Run D → Managed D
  manage request none server connection now run = going run false
  manage request (some p) server connection now run = elim request.transaction_details [
    | none ↦ going run false
    | some t ↦
        let (begun, started) = start_first t p server connection now run.mongo.sessions in
        elim started [
          | err e ↦ stopped (with_sessions begun run) (session_failed e)
          | ok _ ↦
              let (after, followed) =
                follow_command (request.command_and_collection).0 p now begun in
              elim followed [
                | err e ↦ stopped (with_sessions after run) (session_failed e)
                | ok true ↦ going (defer unpin_later (with_sessions after run)) true
                | ok false ↦ going (with_sessions after run) false
              ]
        ]
  ]
