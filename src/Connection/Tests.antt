-- ===== src/Connection/Tests.antt =====
-- proxy/connection.go with concrete routes, pools and servers.
use mathlib.Core.List.{lookup}
use mongobouncer.Base.Assoc.{put}
use mongobouncer.Base.Text.{Text, codes, text_discrete, to_lower}
use mongobouncer.Base.{
  ℕ, ◌≡◌, refl, ap, subst, Bool, true, false, Option, none, some, [], ◌∷◌, ◌++◌, arith,
}
use mongobouncer.Command.{Command, text_of}
use mongobouncer.Connection.Credentials.{authenticate, is_space}
use mongobouncer.Connection.Forwarded.{write_answer-forwarded}
use mongobouncer.Connection.Handshake.{AdmitsOn, round_trip-Admits}
use mongobouncer.Connection.Hosts.{extract_host_from_route-parts}
use mongobouncer.Connection.Names.{extract_host_from_route}
use mongobouncer.Connection.Pooling.{hex, round_trip_with_pool}
use mongobouncer.Connection.Whole.{IsLeft, handle_connection-IsLeft}
use mongobouncer.Connection.Stale.{round_trip_with_pool-other}
use mongobouncer.Connection.State.{
  Connection, RouteConfig, Request, Answer, answers, Servers, Shared,
}
use mongobouncer.Connection.Names.{extract_database_name, or_else}
use mongobouncer.Connection.Tracking.{extract-extract}
use mongobouncer.Connection.Unasked.{seen, with_auth, round_trip-with_auth}
use mongobouncer.Connection.{
  Packages, is_handshake, shake_hands, handle_connection, round_trip, wrote, write_answer,
}
use mongobouncer.Lru
use mongobouncer.Pool.Invariant.{IsValid, new_manager-IsValid}
use mongobouncer.Pool.{Manager, new_manager, session_mode, new_pool}
use mongobouncer.Parsing.{cut_text, cut, split, push, parse_app_name, normalize_database_name}
use mongobouncer.Router.{DatabaseRouter, get_route, resolve}
use mongobouncer.Wire.Bytes.{Bytes, append_i32, read_i32}
use mongobouncer.Wire.Decode.{decode, required}
use mongobouncer.Wire.Operations.{TransactionDetails, Operation, msg_op}
use mongobouncer.Wire.Package.{op_msg}
use mongobouncer.Wire.Plain.{plain, read_header, op_of}

abbrev ascii : ℕ → ℕ
ascii c = c

abbrev no_match : Text → Text → Option Bool
no_match pattern text = some false

abbrev connection : Connection
connection = record {
  client_id = codes "c1";
  address = codes "localhost:27017";
  intended_database = [];
  client_username = [];
  client_password = [];
  client_auth_source = [];
  auth_enabled = true;
  regex_credential_passthrough = false;
  database_used = [];
  is_using_credential_passthrough = false;
}

abbrev route : RouteConfig
route = record {
  database_name = codes "shop";
  mongo_client = some 9;
  connection_string = codes "mongodb://u@db:27/s";
  topology = none;
  credential_clients = none;
}

abbrev router : DatabaseRouter ℕ
router = record {
  routes = (codes "shop", 0) ∷ [];
  wildcard_route = none;
  pattern_routes = [];
  route_cache = Lru.new 1000 300_000_000_000;
}

abbrev packages : Packages
packages = record {
  unicode_lower = ascii;
  match_regexp = no_match;
  find_string = λ pattern s. [];
  user_of = λ s. answers (codes "ann", codes "pw");
  query_of = λ s. answers ([], []);
}

abbrev answer : Bytes
answer =
    append_i32 [] 20
    ++ (append_i32 [] 6 ++ (append_i32 [] 0 ++ (append_i32 [] 2013 ++ append_i32 [] 0)))

abbrev answer_op : Operation
answer_op = msg_op (record { req_id = 6; flags = 0; sections = []; checksum = 0 })

abbrev forward : ℕ → Text → Bytes → Text → ℕ × Answer (Option Bytes)
forward w id bytes address = (w, answers (some answer))

abbrev servers_with : Option (ℕ → Text → Bytes → Text → ℕ × Answer (Option Bytes)) → Servers ℕ ℕ
servers_with f = record {
  round_trip = λ w client request now. (w, answers (some (record { wm = answer; op = answer_op })));
  connect = λ w uri database. (w, answers 9);
  forward = f;
  mock = λ kind. answers (some (record { wm = answer; op = answer_op }));
  pkg = plain;
}

abbrev details : TransactionDetails
details = record {
  ls_id = 1 ∷ 2 ∷ [];
  txn_number = 1;
  is_start_transaction = false;
  autocommit = false;
}

abbrev request : Request ℕ
request = record {
  methods = record {
    op_code = op_msg;
    encode = λ response_to. [];
    is_is_master = false;
    cursor_id = none;
    request_id = 7;
    error = none;
    unacknowledged = false;
    command_and_collection = (Command.finds, codes "users");
    transaction_details = some details;
    database_name = codes "shop";
  };
  op_string = [];
}

abbrev manager : Manager ℕ
manager = new_manager (codes "session") 1 10 2

abbrev shared : Shared ℕ
shared = record {
  router = some router;
  routes = λ p. route;
  pool_manager = some manager;
  servers = 0;
}

extract-extract_example :
    extract_database_name ascii
      (λ p s. [])
      (extract_database_name ascii (λ p s. []) connection request).0
      request
    ≡ extract_database_name ascii (λ p s. []) connection request
extract-extract_example = extract-extract ascii (λ p s. []) connection request

handle_connection-IsLeft_example :
    IsLeft
      (codes "c1")
      (handle_connection packages
        (servers_with none)
        shared
        connection
        ((request, 5) ∷ (request, 6) ∷ [])
        4
        7).0
handle_connection-IsLeft_example =
    handle_connection-IsLeft packages (servers_with none) shared connection
      ((request, 5) ∷ (request, 6) ∷ []) 4 7
      (λ m e.
        subst IsValid (ap (λ x. elim x [ none ↦ manager | some n ↦ n ]) e)
          (new_manager-IsValid (codes "session") 1 10 2))

-- A manager with a pool for the database.
abbrev pooled : Manager ℕ
pooled = record manager {
  pools = (codes "shop", new_pool (codes "shop") (some 9) session_mode 1) ∷ [];
}

round_trip_with_pool-other_example :
    round_trip_with_pool (servers_with none) 0 pooled connection request (codes "shop") (some 9) 5
    ≡ round_trip_with_pool
        (servers_with none)
        0
        pooled
        connection
        request
        (codes "shop")
        (some 11)
        5
unfolding lookup or_else text_discrete
round_trip_with_pool-other_example =
    round_trip_with_pool-other (servers_with none) 0 pooled connection request (codes "shop")
      (some 9) (some 11) 5 (λ e. ground (arith, e))

round_trip-with_auth_example :
    seen (round_trip packages (servers_with none) shared connection request 5)
    ≡ seen (round_trip packages (servers_with none) shared (with_auth false connection) request 5)
unfolding is_handshake text_discrete text_of
round_trip-with_auth_example =
    round_trip-with_auth packages (servers_with none) true shared (with_auth false connection)
      request 5 refl

write_answer-forwarded_example :
    write_answer packages
      (servers_with (some forward))
      request
      (round_trip_with_pool
        (servers_with (some forward))
        0
        manager
        connection
        request
        (codes "shop")
        (some 9)
        5).1.1
    ≡ wrote []
unfolding append_i32 read_i32 read_header op_of decode required hex
write_answer-forwarded_example =
    write_answer-forwarded packages (servers_with (some forward)) 0 manager connection request
      (codes "shop") (some 9) 5 details 48 (codes "102") answer answer_op forward refl refl refl
      refl refl refl

extract_host_from_route-parts_example : extract_host_from_route route ≡ (codes "db", codes "27")
extract_host_from_route-parts_example =
    extract_host_from_route-parts (codes "u") (codes "b") (codes "27") (codes "s") b'd' route refl
      (λ e. omega arith, tt) refl (λ e. omega arith, (λ e. omega arith, tt))
      (λ e. omega arith, (λ e. omega arith, tt)) (λ e. omega arith, (λ e. omega arith, tt))

abbrev hello : Text
hello = codes "application \"name\": \"shop:ann:pw\" "

abbrev hello_request : Request ℕ
hello_request = record {
  methods = record request.methods { is_is_master = true };
  op_string = hello;
}

round_trip-Admits_example :
    AdmitsOn packages
      (servers_with none)
      shared
      router
      (extract_database_name packages.unicode_lower packages.find_string connection hello_request).0
      hello
      5
      (round_trip packages (servers_with none) shared connection hello_request 5).1.0
unfolding round_trip shake_hands extract_database_name authenticate is_handshake text_discrete
    cut_text cut split push parse_app_name normalize_database_name to_lower get_route resolve lookup
    is_space put Lru.get Lru.element_at Lru.new Lru.add Lru.evict Lru.push_new Lru.find Lru.unlink
    Lru.move_to_front
round_trip-Admits_example =
    round_trip-Admits packages (servers_with none) shared router connection hello_request 5
      {message = some (record { wm = answer; op = answer_op })} refl refl refl refl refl refl
