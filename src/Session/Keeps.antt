-- ===== src/Session/Keeps.antt =====
-- What the calls on a session of mongo/session_manager.go leave alone.
use mongobouncer.Base.{ℕ, ◌≡◌, refl, ◌⊎◌, inl, inr, Option, arith}
use mongobouncer.Session.{
  Session, Error, Result, ok, err, start, commit, abort, unpin, reset, finish,
}

pub Result-cases :
    {A : Type 0} (r : Result A) → ((e : Error) × (r ≡ err e)) ⊎ ((a : A) × (r ≡ ok a))
Result-cases (err e) = inl (e, refl)
Result-cases (ok a) = inr (a, refl)

-- The same key and the same session state.
abbrev pub Keeps : Session → Session → Type 0
Keeps s t = (t.id ≡ s.id) × (t.state ≡ s.state)

pub start-Keeps :
    (s t : Session) (server connection : Option ℕ) (n now : ℕ)
    → start s server connection n now ≡ ok t
    → Keeps s t
unfolding start
start-Keeps s t server connection n now e = ground arith

pub commit-Keeps : (s t : Session) (now : ℕ) → commit s now ≡ ok t → Keeps s t
unfolding commit
commit-Keeps s t now e = ground arith

pub abort-Keeps : (s t : Session) (now : ℕ) → abort s now ≡ ok t → Keeps s t
unfolding abort
abort-Keeps s t now e = ground arith

pub unpin-Keeps : (s : Session) → Keeps s (unpin s)
unfolding unpin
unpin-Keeps s = (refl, refl)

pub reset-Keeps : (s : Session) → Keeps s (reset s)
unfolding reset
reset-Keeps s = (refl, refl)

pub id-finish : (s : Session) (now : ℕ) → (finish s now).id ≡ s.id
unfolding finish
id-finish s now = ground arith
