-- ===== src/Connection/Runs.antt =====
-- The pool manager over all messages of a connection of proxy/connection.go.
use mongobouncer.Base.Text.{Text}
use mongobouncer.Base.{
  ℕ, ◌≡◌, ◌⊎◌, inl, inr, refl, sym, ◌∙◌, Option, some, List, [], ◌∷◌, arith, Option-cases,
  Bool-cases,
}
use mongobouncer.Connection.Clients.{
  create_client, get_or_create_credential_client, create_lazy_mongo_client,
}
use mongobouncer.Connection.Names.{extract_database_name}
use mongobouncer.Connection.Pooling.{round_trip_with_pool}
use mongobouncer.Connection.Pools.{round_trip_with_pool-IsValid}
use mongobouncer.Connection.State.{
  Connection, Request, Answer, fails, answers, Message, Servers, Shared, Answer-cases,
}
use mongobouncer.Connection.{
  Packages, Handled, ended, wrote, silent, is_handshake, client_for, drop_client, serve, on_route,
  forward_to_route, shake_hands, round_trip, handle_message, process_messages, use_passthrough,
}
use mongobouncer.Errors.{is_connection_error}
use mongobouncer.Pool.Invariant.{IsValid}
use mongobouncer.Pool.{Manager}
use mongobouncer.Router.{get_route}
use mongobouncer.Wire.Bytes.{Bytes}

-- The pool manager, if there is one, is valid.
abbrev pub HasValid : {W : Type 0} → Shared W → Type 0
HasValid g = (m : Manager ℕ) → g.pool_manager ≡ some m → IsValid m

pub Handled-cases :
    (h : Handled)
    → ((message : Text) × (h ≡ ended message))
      ⊎ (((bytes : Bytes) × (h ≡ wrote bytes)) ⊎ (h ≡ silent))
Handled-cases (ended message) = inl (message, refl)
Handled-cases (wrote bytes) = inr (inl (bytes, refl))
Handled-cases silent = inr (inr refl)

module _ {W E : Type 0} (packages : Packages) (servers : Servers W E) where
  drop_client-HasValid :
      (g : Shared W) (p : ℕ) (answer : Answer (Option Message))
      → HasValid g
      → HasValid (drop_client {E = E} packages servers g p answer)
  unfolding drop_client
  drop_client-HasValid g p (answers message) v = v
  drop_client-HasValid g p (fails message) v =
      elim (Bool-cases (is_connection_error packages.unicode_lower (some message))) [
        | inl e ↦ rw (e, drop_client) v
        | inr e ↦ rw (e, drop_client) v
      ]

  -- Getting a client changes nothing of the pool manager.
  pool_manager-client_for :
      (g : Shared W) (c : Connection) (p : ℕ) (name : Text) (now : ℕ)
      → (client_for packages servers g c p name now).0.pool_manager ≡ g.pool_manager
  unfolding client_for get_or_create_credential_client create_client create_lazy_mongo_client
  pool_manager-client_for g c p name now = ground arith

  serve-HasValid :
      (g : Shared W) (c : Connection) (request : Request E) (p : ℕ) (name : Text) (client now : ℕ)
      → HasValid g
      → HasValid (serve packages servers g c request p name client now).0
  unfolding serve
  serve-HasValid g c request p name client now v = elim (Option-cases g.pool_manager) [
    | inl e ↦
        let (served, answer) = servers.round_trip g.servers (some client) request now in
        rw (e, serve) (drop_client-HasValid (record g { servers = served }) p answer v)
    | inr (m, e) ↦ elim (Bool-cases c.is_using_credential_passthrough) [
      | inl b ↦
          let (served, answer) = servers.round_trip g.servers (some client) request now in
          rw (e, b, serve) (drop_client-HasValid (record g { servers = served }) p answer v)
      | inr b ↦
          let result = round_trip_with_pool servers g.servers m c request name (some client) now in
          rw (e, b, serve)
            (drop_client-HasValid
              (record g { servers = result.0; pool_manager = some (result.1.0) }) p result.1.1
              (λ m' h. ground (
                arith,
                round_trip_with_pool-IsValid servers g.servers m c request name (some client) now
                    (v m e),
              )))
    ]
  ]

  on_route-HasValid :
      (g : Shared W) (c : Connection) (request : Request E) (p : ℕ) (name : Text) (now : ℕ)
      → HasValid g
      → HasValid (on_route packages servers g c request p name now).0
  unfolding on_route
  on_route-HasValid g c request p name now v =
      let c' = record c {
        intended_database = name;
        is_using_credential_passthrough = use_passthrough packages servers c (g.routes p) name;
      } in
      let got = client_for packages servers g c' p name now in
      let same = pool_manager-client_for g c' p name now in
      let valid = λ (m : Manager ℕ) (h : got.0.pool_manager ≡ some m). v m (sym same ∙ h) in
      elim (Answer-cases got.1) [
        | inl (message, e) ↦ rw (e, on_route) valid
        | inr (client, e) ↦
            rw (e, on_route) (serve-HasValid got.0 c' request p name client now valid)
      ]

  forward_to_route-HasValid :
      (g : Shared W) (c : Connection) (request : Request E) (name : Text) (now : ℕ)
      → HasValid g
      → HasValid (forward_to_route packages servers g c request name now).0
  unfolding forward_to_route
  forward_to_route-HasValid g c request name now v = elim (Option-cases g.router) [
    | inl e ↦ rw (e, forward_to_route) v
    | inr (router, e) ↦
        let looked = get_route packages.unicode_lower packages.match_regexp router name now in
        elim (Option-cases looked.1) [
          | inl k ↦ rw (e, k, forward_to_route) v
          | inr (p, k) ↦
              rw (e, k, forward_to_route)
                (on_route-HasValid (record g { router = some looked.0 }) c request p name now v)
        ]
  ]

  -- A handshake leaves the pool manager alone.
  pool_manager-shake_hands :
      (g : Shared W) (c : Connection) (request : Request E) (now : ℕ)
      → (shake_hands packages servers g c request now).0.pool_manager ≡ g.pool_manager
  unfolding shake_hands
  pool_manager-shake_hands g c request now = ground arith

  round_trip-HasValid :
      (g : Shared W) (c : Connection) (request : Request E) (now : ℕ)
      → HasValid g
      → HasValid (round_trip packages servers g c request now).0
  unfolding round_trip
  round_trip-HasValid g c request now v =
      let found = extract_database_name packages.unicode_lower packages.find_string c request in
      elim (Bool-cases (is_handshake request.methods)) [
        | inl e ↦
            rw (e, round_trip)
              (λ m h. v m (sym (pool_manager-shake_hands g found.0 request now) ∙ h))
        | inr e ↦ rw (e, round_trip) (forward_to_route-HasValid g found.0 request found.1 now v)
      ]

  handle_message-HasValid :
      (g : Shared W) (c : Connection) (request : Request E) (now : ℕ)
      → HasValid g
      → HasValid (handle_message packages servers g c request now).0
  unfolding handle_message
  handle_message-HasValid g c request now v =
      round_trip-HasValid g
        (extract_database_name packages.unicode_lower packages.find_string c request).0 request now
        v

  -- Whatever messages a connection handles, in whatever order and with whatever answers of the
  -- servers and the forwarder, a valid pool manager is valid afterwards.
  pub process_messages-HasValid :
      (g : Shared W) (c : Connection) (messages : List (Request E × ℕ))
      → HasValid g
      → HasValid (process_messages packages servers g c messages).0
  unfolding process_messages
  process_messages-HasValid g c [] v = v
  process_messages-HasValid g c ((request, now) ∷ later) v =
      let valid = handle_message-HasValid g c request now v in
      let handled = handle_message packages servers g c request now in
      let rest = process_messages-HasValid handled.0 handled.1.0 later valid in
      elim (Handled-cases handled.1.1) [
        | inl (message, e) ↦ rw (e, process_messages) valid
        | inr (inl (bytes, e)) ↦ rw (e, process_messages) rest
        | inr (inr e) ↦ rw (e, process_messages) rest
      ]
