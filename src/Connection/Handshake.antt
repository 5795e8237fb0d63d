-- ===== src/Connection/Handshake.antt =====
-- What the handshake of proxy/connection.go asks for.
use mongobouncer.Base.Text.{Text, text_eq, text_discrete}
use mongobouncer.Base.{
  ℕ, ◌≡◌, refl, subst, ◌&&◌, Bool, true, false, Option, none, some, [], arith, Option-cases,
  Bool-cases, inl, inr,
}
use mongobouncer.Connection.Credentials.{
  Credentials, authenticate, parse_app_name_credentials, authenticate_on,
  validate_credentials_against_database, validate_against_route, keep_found, keep_credentials,
}
use mongobouncer.Connection.Names.{extract_app_name, extract_database_name}
use mongobouncer.Connection.State.{
  Connection, RouteConfig, Request, Answer, answers, Message, Servers, Shared, Answer-cases,
}
use mongobouncer.Connection.{Packages, is_handshake, shake_hands, round_trip}
use mongobouncer.Errors.{TopologyKind}
use mongobouncer.Router.{DatabaseRouter, get_route}

-- The connection keeps the given credentials, and they are those of the route's connection string.
pub record HasCredentials (user_of : Text → Answer (Text × Text)) (route : RouteConfig)
    (found : Credentials) (c : Connection) : Type 0 where
  pub users : user_of route.connection_string ≡ answers (found.username, found.password)
  pub username_kept : c.client_username ≡ found.username
  pub password_kept : c.client_password ≡ found.password

module _ (user_of : Text → Answer (Text × Text)) where
  validate-HasCredentials :
      (c : Connection) (route : RouteConfig) (found : Credentials)
      → c.regex_credential_passthrough ≡ false
      → (validate_against_route user_of c route found.username found.password found.database
          found.database).1
        ≡ none
      → HasCredentials user_of route found
          (validate_against_route user_of c route found.username found.password found.database
            found.database).0
  unfolding validate_against_route keep_credentials
  validate-HasCredentials c route found off h =
      elim (Answer-cases (user_of route.connection_string)) [
        | inl (message, e) ↦ absurd (ground (arith, h, off, e))
        | inr (user, e) ↦ record {
          users = ground (
            arith,
            h,
            off,
            e,
            text_discrete found.username user.0,
            text_discrete found.password user.1,
          );
          username_kept = ground (arith, h, off, e);
          password_kept = ground (arith, h, off, e);
        }
      ]

-- How credentials get in, where `first` and `second` are the routes that the handshake and the
-- validation look up: at an exact route, as those of a route; at any other, kept unread.
pub data Admits (user_of : Text → Answer (Text × Text)) (routes : ℕ → RouteConfig)
    (first second : Option ℕ) (c : Connection) (found : Credentials) : Connection → Type 0 where
  at_exact :
      (p q : ℕ) {c' : Connection}
      → first ≡ some p
      → text_eq (routes p).database_name found.database ≡ true
      → second ≡ some q
      → HasCredentials user_of (routes q) found c'
      → Admits user_of routes first second c found c'
  at_pattern :
      (p : ℕ)
      → first ≡ some p
      → text_eq (routes p).database_name found.database ≡ false
      → Admits user_of routes first second c found (keep_found c found)

module _ (unicode_lower : ℕ → ℕ) (match_regexp : Text → Text → Option Bool)
    (user_of : Text → Answer (Text × Text)) (routes : ℕ → RouteConfig) where
  validated-HasCredentials :
      (router : DatabaseRouter ℕ) (c : Connection) (found : Credentials) (now : ℕ)
      → c.regex_credential_passthrough ≡ false
      → (validate_credentials_against_database unicode_lower match_regexp user_of routes router c
          found.username found.password found.database found.database now).1.1
        ≡ none
      → (q : ℕ) × (((get_route unicode_lower match_regexp router found.database now).1 ≡ some q)
          × HasCredentials user_of
              (routes q)
              found
              (validate_credentials_against_database unicode_lower match_regexp user_of routes
                router c found.username found.password found.database found.database now).1.0)
  unfolding validate_credentials_against_database
  validated-HasCredentials router c found now off h =
      let looked = get_route unicode_lower match_regexp router found.database now in
      elim (Option-cases looked.1) [
        | inl e ↦ absurd (ground (arith, h, e))
        | inr (q, e) ↦ (
          q,
          (
            e,
            rw (e, validate_credentials_against_database)
                (validate-HasCredentials user_of c (routes q) found off (ground (arith, h, e))),
          ),
        )
      ]

  admitted_on :
      (router : DatabaseRouter ℕ) (c : Connection) (p : ℕ) (found : Credentials) (now : ℕ)
      (first : Option ℕ) {topology : TopologyKind}
      → first ≡ some p
      → c.regex_credential_passthrough ≡ false
      → (authenticate_on unicode_lower match_regexp user_of routes router c
          (routes p)
          found
          now).1.1
        ≡ answers topology
      → Admits user_of routes first
          (get_route unicode_lower match_regexp router found.database now).1
          c
          found
          (authenticate_on unicode_lower match_regexp user_of routes router c
            (routes p)
            found
            now).1.0
  unfolding authenticate_on
  admitted_on router c p found now first l off h =
      let checked =
        validate_credentials_against_database unicode_lower match_regexp user_of routes router c
          found.username found.password found.database found.database now in
      elim (Bool-cases (text_eq (routes p).database_name found.database)) [
        | inr e ↦ rw (e, authenticate_on) (at_pattern p l e)
        | inl e ↦ elim (Option-cases checked.1.1) [
          | inl k ↦
              let (q, (looked, has)) = validated-HasCredentials router c found now off k in
              rw (e, k, authenticate_on) (at_exact p q l e looked has)
          | inr (message, k) ↦ absurd (ground (arith, h, e, k))
        ]
      ]

  -- What is found when `authenticate` answers.
  authenticate-Admits :
      (router : DatabaseRouter ℕ) (c : Connection) (op_string : Text) (now : ℕ)
      {topology : TopologyKind}
      → c.regex_credential_passthrough ≡ false
      → (authenticate unicode_lower match_regexp user_of routes router c op_string now).1.1
        ≡ answers topology
      → (found : Credentials) × ((parse_app_name_credentials unicode_lower
              (extract_app_name op_string)
            ≡ answers found)
          × Admits user_of routes
              (get_route unicode_lower match_regexp router found.database now).1
              (get_route unicode_lower match_regexp
                (get_route unicode_lower match_regexp router found.database now).0
                found.database
                now).1
              c
              found
              (authenticate unicode_lower match_regexp user_of routes router c op_string now).1.0)
  unfolding authenticate
  authenticate-Admits router c op_string now {topology} off h =
      let name = extract_app_name op_string in
      elim (Bool-cases (text_eq name [])) [
        | inl e ↦ absurd (ground (arith, h, e))
        | inr e ↦ elim (Answer-cases (parse_app_name_credentials unicode_lower name)) [
          | inl (message, k) ↦ absurd (ground (arith, h, e, k))
          | inr (found, k) ↦
              let looked = get_route unicode_lower match_regexp router found.database now in
              elim (Option-cases looked.1) [
                | inl l ↦ absurd (ground (arith, h, e, k, l))
                | inr (p, l) ↦ (
                  found,
                  (
                    k,
                    rw (e, k, l, authenticate)
                        (admitted_on looked.0 c p found now (some p) {topology = topology} refl off
                          (ground (arith, h, e, k, l))),
                  ),
                )
              ]
        ]
      ]

module _ {W E : Type 0} (packages : Packages) (servers : Servers W E) where
  -- The routes that a lookup of a database finds, first and with the router that it leaves.
  abbrev pub AdmitsOn : Shared W → DatabaseRouter ℕ → Connection → Text → ℕ → Connection → Type 0
  AdmitsOn g router c op_string now after =
      let find = λ (r : DatabaseRouter ℕ) (found : Credentials).
        get_route packages.unicode_lower packages.match_regexp r found.database now in
      (found : Credentials) × ((parse_app_name_credentials packages.unicode_lower
            (extract_app_name op_string)
          ≡ answers found)
        × Admits packages.user_of g.routes (find router found).1
            (find (find router found).0 found).1 c found after)

  shake_hands-Admits :
      (g : Shared W) (router : DatabaseRouter ℕ) (c : Connection) (request : Request E) (now : ℕ)
      {message : Option Message}
      → g.router ≡ some router
      → c.auth_enabled ≡ true
      → c.client_username ≡ []
      → c.regex_credential_passthrough ≡ false
      → (shake_hands packages servers g c request now).1.1 ≡ answers message
      → AdmitsOn g router c request.op_string now (shake_hands packages servers g c request now).1.0
  unfolding shake_hands text_discrete
  shake_hands-Admits g router c request now routed asked nobody off h =
      let checked =
        authenticate packages.unicode_lower packages.match_regexp packages.user_of g.routes router c
          request.op_string now in
      let unnamed : (c.auth_enabled && text_eq c.client_username []) ≡ true =
        rw (asked, nobody) refl in
      elim (Answer-cases checked.1.1) [
        | inl (text, e) ↦ absurd (ground (arith, h, unnamed, routed, e))
        | inr (topology, e) ↦
            rw (unnamed, routed, e, shake_hands)
              (authenticate-Admits packages.unicode_lower packages.match_regexp packages.user_of
                g.routes router c request.op_string now off e)
      ]

  -- While authentication is enabled, no user is known on the connection, the connection has a router
  -- and the client's own credentials are not passed on, a command of the handshake that is answered
  -- has brought credentials in its application name. Either the route of their database is named as the
  -- database, and they are those of the connection string of the route that is looked up next, which
  -- the connection then keeps, or the route has another name, and the connection keeps the
  -- credentials unread.
  pub round_trip-Admits :
      (g : Shared W) (router : DatabaseRouter ℕ) (c : Connection) (request : Request E) (now : ℕ)
      {message : Option Message}
      → g.router ≡ some router
      → is_handshake request.methods ≡ true
      → c.auth_enabled ≡ true
      → c.client_username ≡ []
      → c.regex_credential_passthrough ≡ false
      → (round_trip packages servers g c request now).1.1 ≡ answers message
      → AdmitsOn g router
          (extract_database_name packages.unicode_lower packages.find_string c request).0
          request.op_string
          now
          (round_trip packages servers g c request now).1.0
  unfolding round_trip extract_database_name
  round_trip-Admits g router c request now {message} routed shakes asked nobody off h =
      let tracked =
        (extract_database_name packages.unicode_lower packages.find_string c request).0 in
      let same = shake_hands packages servers g tracked request now in
      let e : round_trip packages servers g c request now ≡ same = rw (shakes, round_trip) refl in
      rw (shakes, round_trip)
        (shake_hands-Admits g router tracked request now {message = message} routed asked nobody off
          (subst (λ r. r.1.1 ≡ answers message) e h))
