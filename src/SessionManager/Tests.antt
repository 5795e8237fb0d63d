-- ===== src/SessionManager/Tests.antt =====
-- The manager of mongo/session_manager.go at concrete calls.
use mathlib.Core.List.{lookup}
use mongobouncer.Base.Base64.{encode}
use mongobouncer.Base.Text.{Text, codes, text_discrete}
use mongobouncer.Base.{ℕ, ◌≡◌, refl, ◌≢◌, Bool, true, false, none, some, List, [], ◌∷◌, arith}
use mongobouncer.Session.{
  Session, active, idle, new_session, start, get_pinned_server, get_pinned_connection,
}
use mongobouncer.SessionManager.Cleanup.{survivor, find-cleanup}
use mongobouncer.SessionManager.Invariant.{IsIndexed, IsFaithful}
use mongobouncer.SessionManager.Lookup.{get-end, get-start}
use mongobouncer.SessionManager.Steps.{Call, create, starts, cleans_inactive, run, run-IsIndexed}
use mongobouncer.SessionManager.Store.{SessionStore, Removes}
use mongobouncer.SessionManager.{
  SessionManager, new_manager, find, get_session, start_transaction, end_session,
  cleanup_inactive_sessions, cleanup_expired_sessions,
}

-- A distributed cache that has every session or none.
abbrev all_or_none : SessionStore Bool
all_or_none = record {
  is_enabled = λ d. true;
  get_stored = λ d now id. elim d [ true ↦ some (new_session id id [] now) | false ↦ none ];
  store_session = λ d now s. true;
  remove_session = λ d id. false;
  store_transaction = λ d now id server n. d;
}

all_or_none-IsFaithful : IsFaithful all_or_none
unfolding new_session
all_or_none-IsFaithful = record {
  stored_id = λ d now id s h. ground arith;
  stored_live = λ d now id s h. ground arith;
}

all_or_none-Removes : Removes all_or_none
all_or_none-Removes = record { removed = λ d id now. refl; still_enabled = λ d id. refl }

abbrev lsid : Text
lsid = 1 ∷ 2 ∷ 3 ∷ []

abbrev no_session : Session
no_session = record {
  id = [];
  ls_id = [];
  client_id = [];
  state = active;
  created_at = 0;
  last_activity = 0;
  transaction_state = idle;
  current_txn_number = 0;
  pinned_server = none;
  pinned_connection = none;
}

abbrev empty : SessionManager Bool
empty = new_manager (λ p. no_session) (some false)

abbrev calls : List (ℕ × Call)
calls =
    (1, create (some lsid) (codes "client"))
    ∷ (2, starts 0 (some 3) (some 4) 7)
    ∷ (9, cleans_inactive 2)
    ∷ []

run-IsIndexed_example : IsIndexed (run all_or_none empty calls)
run-IsIndexed_example =
    run-IsIndexed all_or_none (λ p. no_session) (some false) calls all_or_none-IsFaithful

-- One session, with a transaction.
abbrev held : SessionManager Bool
held = record {
  sessions = (encode lsid, 0) ∷ [];
  heap = λ p. record no_session { id = encode lsid };
  next = 1;
  distributed = some true;
}

get-end_example :
    ((get_session all_or_none (end_session all_or_none held 0 5) lsid 6).1 ≡ none)
    × ((id : Text) → id ≢ encode lsid → find (end_session all_or_none held 0 5) id ≡ find held id)
    × (end_session all_or_none (end_session all_or_none held 0 5) 0 6
        ≡ end_session all_or_none held 0 5)
get-end_example = get-end all_or_none held 0 lsid 5 6 all_or_none-Removes refl (λ e. cc)

get-start_example :
    let m' = (start_transaction all_or_none held 0 (some 3) (some 4) 7 5).0 in
    ((get_session all_or_none m' lsid 6).1 ≡ some 0)
    × (get_pinned_server ((get_session all_or_none m' lsid 6).0.heap 0) ≡ some 3)
    × (get_pinned_connection ((get_session all_or_none m' lsid 6).0.heap 0) ≡ some 4)
unfolding start_transaction start lookup text_discrete encode
get-start_example = get-start all_or_none held 0 lsid (some 3) (some 4) 7 5 6 refl refl

find-cleanup_example :
    let m = run all_or_none empty calls in
    (find (cleanup_inactive_sessions m 3 20) (encode lsid) ≡ survivor m 3 20 (encode lsid))
    × (find (cleanup_expired_sessions m 3 20) (encode lsid) ≡ survivor m 3 20 (encode lsid))
find-cleanup_example =
    find-cleanup (run all_or_none empty calls) 3 20
      (run-IsIndexed all_or_none (λ p. no_session) (some false) calls all_or_none-IsFaithful)
      (encode lsid)
