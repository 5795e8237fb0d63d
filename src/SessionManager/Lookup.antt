-- ===== src/SessionManager/Lookup.antt =====
-- What `GetSession` of mongo/session_manager.go finds after the other calls.
use mongobouncer.Base.Assoc.{delete, lookup-put_self, lookup-delete_self, lookup-delete_ne}
use mongobouncer.Base.Base64.{encode}
use mongobouncer.Base.Text.{Text, text_discrete}
use mongobouncer.Base.{
  ℕ, ◌≡◌, refl, ap, subst, ◌∙◌, ◌≢◌, false, Option, none, some, if_pos, ℕ_discrete, arith, inl, inr,
  Option-cases,
}
use mongobouncer.Session.{
  Session, ok, ended, is_ended, new_session, start, finish, get_pinned_server,
  get_pinned_connection,
}
use mongobouncer.Session.Keeps.{Result-cases, id-finish}
use mongobouncer.SessionManager.Store.{SessionStore, Removes}
use mongobouncer.SessionManager.{
  SessionManager, find, update, write, insert, distribute, adopt, create_session, get_session,
  start_transaction, end_session,
}

module _ {D : Type 0} (store : SessionStore D) where
  module _ (f : D → D) (m : SessionManager D) where
    sessions-distribute : (distribute store f m).sessions ≡ m.sessions
    unfolding distribute
    sessions-distribute = ground arith

    pub heap-distribute : (distribute store f m).heap ≡ m.heap
    unfolding distribute
    heap-distribute = ground arith

  -- A session in the map that is not ended is found, and its activity is noted.
  get_session_hit :
      (m : SessionManager D) (lsid : Text) (now p : ℕ)
      → find m (encode lsid) ≡ some p
      → is_ended (m.heap p).state ≡ false
      → get_session store m lsid now
        ≡ (write m p (record (m.heap p) { last_activity = now }), some p)
  unfolding get_session
  get_session_hit m lsid now p found live = rw (found, get_session, live) refl

  get_session_found :
      (m : SessionManager D) (lsid : Text) (now p : ℕ) (s : Session)
      → find m (encode lsid) ≡ some p
      → m.heap p ≡ s
      → is_ended s.state ≡ false
      → ((get_session store m lsid now).1 ≡ some p)
        × ((get_session store m lsid now).0.heap p ≡ record s { last_activity = now })
  unfolding write update
  get_session_found m lsid now p s found at live =
      let hit = get_session_hit m lsid now p found (ground arith) in (ground arith, ground arith)

  -- A session that was just created is found under its logical session id, by the pointer that
  -- was returned for it, with its activity noted.
  pub get-create :
      (m : SessionManager D) (lsid client_id : Text) (now later : ℕ)
      → (m' : SessionManager D) × (p : ℕ) × (create_session store m (some lsid) client_id now
          ≡ (m', ok p))
        × ((get_session store m' lsid later).1 ≡ some p)
        × ((get_session store m' lsid later).0.heap p
            ≡ record (new_session (encode lsid) lsid client_id now) { last_activity = later })
  unfolding create_session insert update new_session is_ended
  get-create m lsid client_id now later =
      let s = new_session (encode lsid) lsid client_id now in
      let grown = (insert m (encode lsid) s).0 in
      let f = λ (d : D). store.store_session d now s in
      let m' = distribute store f grown in
      let (found, at) =
        get_session_found m' lsid later m.next s
          (rw (sessions-distribute f grown)
            (lookup-put_self text_discrete (encode lsid) m.next m.sessions))
          (rw (heap-distribute f grown) (if_pos (ℕ_discrete m.next m.next) refl s (m.heap m.next)))
          refl in
      (m', m.next, refl, found, at)

  get_stored-distribute :
      (m : SessionManager D) (id : Text) (now : ℕ)
      → Removes store
      → adopt store (distribute store (λ d. store.remove_session d id) m) id now
        ≡ (distribute store (λ d. store.remove_session d id) m, none)
  unfolding distribute adopt
  get_stored-distribute m id now r = elim (Option-cases m.distributed) [
    | inl h ↦ rw h (ground arith)
    | inr (d, h) ↦ ground (arith, r.removed d id now, r.still_enabled d id)
  ]

  get_session_miss :
      (m : SessionManager D) (lsid : Text) (now : ℕ)
      → find m (encode lsid) ≡ none
      → get_session store m lsid now ≡ adopt store m (encode lsid) now
  unfolding get_session
  get_session_miss m lsid now missing = rw (missing, get_session) refl

  end_session_ended :
      (m : SessionManager D) (p now : ℕ) → (m.heap p).state ≡ ended → end_session store m p now ≡ m
  unfolding end_session is_ended
  end_session_ended m p now h = ground arith

  -- The manager after the end of a session, before the distributed cache is told.
  abbrev without_session : SessionManager D → ℕ → ℕ → SessionManager D
  without_session m p now = record (write m p (finish (m.heap p) now)) {
    sessions = delete text_discrete (finish (m.heap p) now).id m.sessions;
  }

  end_session_live :
      (m : SessionManager D) (p now : ℕ)
      → (m.heap p).state ≢ ended
      → end_session store m p now
        ≡ distribute store
            (λ d. store.remove_session d (finish (m.heap p) now).id)
            (without_session m p now)
  unfolding end_session is_ended
  end_session_live m p now h = ground arith

  state-finished :
      (m : SessionManager D) (p now : ℕ) → ((without_session m p now).heap p).state ≡ ended
  unfolding write update finish
  state-finished m p now = ground arith

  -- `EndSession` on a session that is not ended takes its key out of the map, so that `GetSession`
  -- does not find it any more, here or in a distributed cache that removes what it is told to
  -- remove; every other key leads where it led, and ending the session again changes nothing.
  pub get-end :
      (m : SessionManager D) (p : ℕ) (lsid : Text) (now later : ℕ)
      → Removes store
      → (m.heap p).id ≡ encode lsid
      → (m.heap p).state ≢ ended
      → ((get_session store (end_session store m p now) lsid later).1 ≡ none)
        × ((id : Text) → id ≢ encode lsid → find (end_session store m p now) id ≡ find m id)
        × (end_session store (end_session store m p now) p later ≡ end_session store m p now)
  get-end m p lsid now later r key live =
      let id = (finish (m.heap p) now).id in
      let same : id ≡ encode lsid = id-finish (m.heap p) now ∙ key in
      let rest = without_session m p now in
      let f = λ (d : D). store.remove_session d id in
      let m' = distribute store f rest in
      rw (end_session_live m p now live) (
        ap (λ (x : SessionManager D × Option ℕ). x.1)
            (get_session_miss m' lsid later (
                rw (sessions-distribute f rest, ← same)
                  (lookup-delete_self text_discrete id m.sessions))
              ∙ subst (λ k. adopt store m' k later ≡ (m', none)) same
                  (get_stored-distribute rest id later r)),
        λ k h.
            rw (sessions-distribute f rest)
              (lookup-delete_ne text_discrete id k m.sessions (λ e. h (e ∙ same))),
        end_session_ended m' p later (rw (heap-distribute f rest) (state-finished m p now)),
      )

  pub update_self : (heap : ℕ → Session) (p : ℕ) (s : Session) → update heap p s p ≡ s
  unfolding update
  update_self heap p s = if_pos (ℕ_discrete p p) refl s (heap p)

  begun_session :
      (s t : Session) (server connection : Option ℕ) (n now later : ℕ)
      → start s server connection n now ≡ ok t
      → (is_ended t.state ≡ false)
        × (get_pinned_server (record t { last_activity = later }) ≡ server)
        × (get_pinned_connection (record t { last_activity = later }) ≡ connection)
  unfolding start is_ended get_pinned_server get_pinned_connection
  begun_session s t server connection n now later h = ground arith

  -- What one caller does to a session through its pointer is what the next one finds under its
  -- key: after `StartTransaction`, `GetSession` gives the same session, with the server and the
  -- connection pinned.
  pub get-start :
      (m : SessionManager D) (p : ℕ) (lsid : Text) (server connection : Option ℕ) (n now later : ℕ)
      → find m (encode lsid) ≡ some p
      → (start_transaction store m p server connection n now).1 ≡ ok tt
      → let m' = (start_transaction store m p server connection n now).0 in
        ((get_session store m' lsid later).1 ≡ some p)
        × (get_pinned_server ((get_session store m' lsid later).0.heap p) ≡ server)
        × (get_pinned_connection ((get_session store m' lsid later).0.heap p) ≡ connection)
  unfolding start_transaction write
  get-start m p lsid server connection n now later found started =
      elim (Result-cases (start (m.heap p) server connection n now)) [
        | inl (e, h) ↦ absurd (ground arith)
        | inr (s, h) ↦
            let f = λ (d : D).
              store.store_session (store.store_transaction d now s.ls_id server n) now s in
            let written = write m p s in
            let begun = begun_session (m.heap p) s server connection n now later h in
            let (same, at) =
              get_session_found (distribute store f written) lsid later p s
                (rw (sessions-distribute f written) found)
                (rw (heap-distribute f written) (update_self m.heap p s)) begun.0 in
            rw (h, start_transaction) (same, rw at begun.1, rw at begun.2)
      ]
