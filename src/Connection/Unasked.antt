-- ===== src/Connection/Unasked.antt =====
-- What the setting for authentication means for the commands outside the handshake in
-- proxy/connection.go.
use mongobouncer.Base.Text.{Text}
use mongobouncer.Base.{ℕ, ◌≡◌, refl, Bool, false, Option, some, arith, Option-cases, inl, inr}
use mongobouncer.Connection.Clients.{
  connect_with_credentials, credential_string, credential_key, create_client,
  get_or_create_credential_client,
}
use mongobouncer.Connection.Names.{extract_database_name, fallback_database}
use mongobouncer.Connection.Pooling.{
  round_trip_with_pool, try_forward, serve_pooled, with_registered, use_pooled, register_for,
}
use mongobouncer.Connection.State.{
  Connection, Request, Answer, Message, Servers, Shared, Answer-cases,
}
use mongobouncer.Connection.{
  Packages, is_handshake, client_for, serve, on_route, forward_to_route, round_trip,
  use_passthrough,
}
use mongobouncer.Router.{get_route}

-- What a round trip does to the surroundings, and its answer.
abbrev pub seen :
    {W : Type 0}
    → Shared W × (Connection × Answer (Option Message))
    → Shared W × Answer (Option Message)
seen x = (x.0, x.1.1)

abbrev pub with_auth : Bool → Connection → Connection
with_auth b c = record c { auth_enabled = b }

module _ {W E : Type 0} (packages : Packages) (servers : Servers W E) where
  client_for-with_auth :
      (b : Bool) (g : Shared W) (c : Connection) (p : ℕ) (name : Text) (now : ℕ)
      → client_for packages servers g (with_auth b c) p name now
        ≡ client_for packages servers g c p name now
  unfolding client_for get_or_create_credential_client create_client connect_with_credentials
      credential_string credential_key
  client_for-with_auth b g c p name now = refl

  serve-with_auth :
      (b : Bool) (g : Shared W) (c : Connection) (request : Request E) (p : ℕ) (name : Text)
      (client now : ℕ)
      → serve packages servers g (with_auth b c) request p name client now
        ≡ serve packages servers g c request p name client now
  unfolding serve round_trip_with_pool try_forward serve_pooled with_registered use_pooled
      register_for
  serve-with_auth b g c request p name client now = refl

  on_route-with_auth :
      (b : Bool) (g : Shared W) (c : Connection) (request : Request E) (p : ℕ) (name : Text)
      (now : ℕ)
      → seen (on_route packages servers g (with_auth b c) request p name now)
        ≡ seen (on_route packages servers g c request p name now)
  unfolding on_route use_passthrough
  on_route-with_auth b g c request p name now =
      let c' = record c {
        intended_database = name;
        is_using_credential_passthrough = use_passthrough packages servers c (g.routes p) name;
      } in
      let got = client_for packages servers g c' p name now in
      let same = client_for-with_auth b g c' p name now in
      elim (Answer-cases got.1) [
        | inl (message, e) ↦ ground (arith, e, same)
        | inr (client, e) ↦
            ground (arith, e, same, serve-with_auth b got.0 c' request p name client now)
      ]

  -- Outside the handshake the setting for authentication does not matter: a command on a connection
  -- that has never been authenticated has the same answer, and the same effect on the routes, the
  -- pool manager and the servers, whether or not authentication is enabled.
  pub round_trip-with_auth :
      (b : Bool) (g : Shared W) (c : Connection) (request : Request E) (now : ℕ)
      → is_handshake request.methods ≡ false
      → seen (round_trip packages servers g (with_auth b c) request now)
        ≡ seen (round_trip packages servers g c request now)
  unfolding round_trip forward_to_route extract_database_name fallback_database
  round_trip-with_auth b g c request now h =
      let found = extract_database_name packages.unicode_lower packages.find_string c request in
      elim (Option-cases g.router) [
        | inl e ↦ rw (h, round_trip, e, forward_to_route) refl
        | inr (router, e) ↦
            let looked =
              get_route packages.unicode_lower packages.match_regexp router found.1 now in
            elim (Option-cases looked.1) [
              | inl k ↦ rw (h, round_trip, e, k, forward_to_route) refl
              | inr (p, k) ↦
                  rw (h, round_trip, e, k, forward_to_route)
                    (on_route-with_auth b (record g { router = some looked.0 }) found.0 request p
                      found.1 now)
            ]
      ]
