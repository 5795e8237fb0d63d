-- ===== src/SessionManager/Invariant.antt =====
-- The map of mongo/session_manager.go and the sessions that its pointers lead to.
use mathlib.Core.List.{lookup}
use mongobouncer.Base.Assoc.{
  delete_all, keys_where, lookup-put, lookup-delete_where, Unique, put-Unique, delete_all-Unique,
}
use mongobouncer.Base.Text.{Text, text_discrete}
use mongobouncer.Base.{
  ℕ, ◌≡◌, ◌≢◌, ◌<◌, Bool, Option, some, List, arith, inl, inr, Option-cases, Bool-cases,
}
use mongobouncer.Session.{Session, ended, commit, abort}
use mongobouncer.Session.Keeps.{Keeps, Result-cases, commit-Keeps, abort-Keeps}
use mongobouncer.SessionManager.Store.{SessionStore}
use mongobouncer.SessionManager.{
  SessionManager, new_manager, find, update, write, insert, distribute, commit_transaction,
  abort_transaction,
}

-- Each key of the map leads to an allocated session with that key, which is not ended.
pub record IsIndexed {D : Type 0} (m : SessionManager D) : Type 0 where
  pub unique : Unique text_discrete m.sessions
  pub allocated : (id : Text) (p : ℕ) → find m id ≡ some p → p < m.next
  pub keyed : (id : Text) (p : ℕ) → find m id ≡ some p → (m.heap p).id ≡ id
  pub live : (id : Text) (p : ℕ) → find m id ≡ some p → (m.heap p).state ≢ ended

module _ {D : Type 0} where
  pub new_manager-IsIndexed : (heap : ℕ → Session) (d : Option D) → IsIndexed (new_manager heap d)
  unfolding new_manager lookup
  new_manager-IsIndexed heap d = record {
    unique = tt;
    allocated = λ id p h. cc;
    keyed = λ id p h. cc;
    live = λ id p h. cc;
  }

  -- A write that keeps a session's key and does not end it.
  pub write-IsIndexed :
      (m : SessionManager D) (p : ℕ) (s : Session)
      → IsIndexed m
      → s.id ≡ (m.heap p).id
      → (s.state ≡ ended → (m.heap p).state ≡ ended)
      → IsIndexed (write m p s)
  unfolding write update
  write-IsIndexed m p s v e f = record {
    unique = v.unique;
    allocated = v.allocated;
    keyed = λ id q h. ground (arith, v.keyed id q h);
    live = λ id q h. ground (arith, v.live id q h);
  }

  pub insert-IsIndexed :
      (m : SessionManager D) (id : Text) (s : Session)
      → IsIndexed m
      → s.id ≡ id
      → s.state ≢ ended
      → IsIndexed (insert m id s).0
  unfolding insert update
  insert-IsIndexed m id s v e f = record {
    unique = put-Unique text_discrete id m.next m.sessions v.unique;
    allocated =
        λ k p h. ground (arith, lookup-put text_discrete id k m.next m.sessions, v.allocated k p);
    keyed = λ k p h.
        ground
          (arith, lookup-put text_discrete id k m.next m.sessions, v.keyed k p, v.allocated k p);
    live = λ k p h.
        ground
          (arith, lookup-put text_discrete id k m.next m.sessions, v.live k p, v.allocated k p);
  }

  -- Taking keys out of the map.
  pub shrink-IsIndexed :
      (m : SessionManager D) (l : List (Text × ℕ))
      → IsIndexed m
      → Unique text_discrete l
      → ((id : Text) (p : ℕ) → lookup text_discrete id l ≡ some p → find m id ≡ some p)
      → IsIndexed (record m { sessions = l })
  shrink-IsIndexed m l v u f = record {
    unique = u;
    allocated = λ id p h. v.allocated id p (f id p h);
    keyed = λ id p h. v.keyed id p (f id p h);
    live = λ id p h. v.live id p (f id p h);
  }

  pub keeping-IsIndexed :
      (m : SessionManager D) (p : ℕ) (s : Session)
      → IsIndexed m
      → Keeps (m.heap p) s
      → IsIndexed (write m p s)
  keeping-IsIndexed m p s v k = write-IsIndexed m p s v k.0 (λ e. ground arith)

  pub commit_transaction-IsIndexed :
      (m : SessionManager D) (p now : ℕ) → IsIndexed m → IsIndexed (commit_transaction m p now).0
  unfolding commit_transaction
  commit_transaction-IsIndexed m p now v = elim (Result-cases (commit (m.heap p) now)) [
    | inl (e, h) ↦ rw (h, commit_transaction) v
    | inr (s, h) ↦
        rw (h, commit_transaction) (keeping-IsIndexed m p s v (commit-Keeps (m.heap p) s now h))
  ]

  pub abort_transaction-IsIndexed :
      (m : SessionManager D) (p now : ℕ) → IsIndexed m → IsIndexed (abort_transaction m p now).0
  unfolding abort_transaction
  abort_transaction-IsIndexed m p now v = elim (Result-cases (abort (m.heap p) now)) [
    | inl (e, h) ↦ rw (h, abort_transaction) v
    | inr (s, h) ↦
        rw (h, abort_transaction) (keeping-IsIndexed m p s v (abort-Keeps (m.heap p) s now h))
  ]

  pub cleanup-IsIndexed :
      (m : SessionManager D) (test : ℕ → Bool)
      → IsIndexed m
      → IsIndexed (record m {
        sessions = delete_all text_discrete (keys_where text_discrete test m.sessions) m.sessions;
      })
  cleanup-IsIndexed m test v =
      let ks = keys_where text_discrete test m.sessions in
      shrink-IsIndexed m _ v (delete_all-Unique text_discrete ks m.sessions v.unique)
        (λ id p h. ground (arith, lookup-delete_where text_discrete test id m.sessions v.unique))

module _ {D : Type 0} (store : SessionStore D) where
  -- What the distributed cache hands out for a key is a session with that key, not ended.
  pub record IsFaithful : Type 0 where
    pub stored_id :
        (d : D) (now : ℕ) (id : Text) (s : Session) → store.get_stored d now id ≡ some s → s.id ≡ id
    pub stored_live :
        (d : D) (now : ℕ) (id : Text) (s : Session)
        → store.get_stored d now id ≡ some s
        → s.state ≢ ended

  pub distribute-IsIndexed :
      (f : D → D) (m : SessionManager D) → IsIndexed m → IsIndexed (distribute store f m)
  unfolding distribute
  distribute-IsIndexed f m v = elim (Option-cases m.distributed) [
    | inl h ↦ rw (h, distribute) v
    | inr (d, h) ↦ elim (Bool-cases (store.is_enabled d)) [
      | inl on ↦ rw (h, distribute, on) (rebase v)
      | inr off ↦ rw (h, distribute, off) v
    ]
  ]
    where
      rebase : {d : Option D} → IsIndexed m → IsIndexed (record m { distributed = d })
      rebase w = record {
        unique = w.unique;
        allocated = w.allocated;
        keyed = w.keyed;
        live = w.live;
      }
