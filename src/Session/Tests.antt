-- ===== src/Session/Tests.antt =====
-- One session of mongo/session_manager.go at concrete calls.
use mongobouncer.Base.Text.{codes}
use mongobouncer.Base.{ℕ, ◌≡◌, refl, ◌≢◌, ◌⊎◌, none, some, false}
use mongobouncer.Session.{
  Session, active, idle, in_progress, committed, ok, err, transaction_already, session_not_active,
  new_session, start, commit, unpin, is_transaction_active,
}
use mongobouncer.Session.Pinning.{End, commits, end_transaction, Pinned, start-end_transaction}
use mongobouncer.Session.States.{
  Star, here, next, Step, Work, works, starts, finishes, resets, IsConsistent,
  new_session-IsConsistent, start_once,
}
use mongobouncer.Session.States

abbrev fresh : Session
fresh = record {
  id = codes "bGlk";
  ls_id = codes "lid";
  client_id = codes "client";
  state = active;
  created_at = 1;
  last_activity = 1;
  transaction_state = idle;
  current_txn_number = 0;
  pinned_server = none;
  pinned_connection = none;
}

abbrev begun : Session
begun = record fresh {
  transaction_state = in_progress;
  current_txn_number = 7;
  pinned_server = some 3;
  pinned_connection = some 4;
  last_activity = 2;
}

abbrev over : Session
over = record begun { transaction_state = committed; last_activity = 3 }

starting : start fresh (some 3) (some 4) 7 2 ≡ ok begun
unfolding start
starting = refl

committing : commit begun 3 ≡ ok over
unfolding commit
committing = refl

new_session-IsConsistent_example : IsConsistent begun
unfolding new_session
new_session-IsConsistent_example =
    new_session-IsConsistent (codes "bGlk") (codes "lid") (codes "client") 1
      (next here (works (starts fresh (some 3) (some 4) 7 2 starting)))

start_once_example :
    (start over (some 5) none 8 9 ≡ err transaction_already)
    ⊎ (start over (some 5) none 8 9 ≡ err session_not_active)
start_once_example =
    start_once fresh (some 3) (some 4) 7 2 starting (next here (States.commits begun 3 committing))
      (some 5) none 8 9

start-end_transaction_example :
    Pinned begun (some 3) (some 4)
    × (u : Session) × (end_transaction commits begun 3 ≡ ok u)
    × Pinned u none (some 4)
    × (is_transaction_active u ≡ false)
    × ((again : End) (last : ℕ) (v : Session) → end_transaction again u last ≢ ok v)
    × Pinned (unpin u) none none
start-end_transaction_example = start-end_transaction fresh (some 3) (some 4) 7 2 commits 3 starting
