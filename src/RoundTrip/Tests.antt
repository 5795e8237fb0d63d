-- ===== src/RoundTrip/Tests.antt =====
-- RoundTrip of mongo/mongo.go with concrete servers and answers.
use mathlib.Core.List.{lookup}
use mongobouncer.Base.Text.{codes, to_lower, contains, has_prefix}
use mongobouncer.Base.{
  inl, ◌==◌, if◌then◌else◌, arith, ℕ, ◌≤◌, ◌≡◌, refl, Bool, true, false, Option, none, some, [],
  ◌∷◌, ◌++◌,
}
use mongobouncer.Caches.Shared.{SharedCursors, SharedTransactions}
use mongobouncer.Caches.{
  peek_transaction, elsewhere, remove_transaction, max_cached, transaction_expiry, cursor_expiry,
  CursorCache, TransactionCache,
}
use mongobouncer.Command.{Command}
use mongobouncer.Lru
use mongobouncer.RoundTrip.Answers.{cursor_of, is_commit_or_abort}
use mongobouncer.RoundTrip.Sessions.{pinned_server}
use mongobouncer.Selection.{select_server, select_cursor, is_zero, from_topology}
use mongobouncer.Errors.{is_retryable_error, contains_any}
use mongobouncer.RoundTrip.Closing.{takings, closings, round_trip-closes}
use mongobouncer.RoundTrip.Faults.{perform_commit_idle}
use mongobouncer.RoundTrip.InTransaction.{fresh}
use mongobouncer.RoundTrip.Ends.{perform_end}
use mongobouncer.RoundTrip.Pinned.{Answers, told}
use mongobouncer.RoundTrip.Statements.{perform_statement}
use mongobouncer.RoundTrip.Tried.{OnlyOn, not_sent, answered_at, retried_at}
use mongobouncer.RoundTrip.Retries.{perform_first_fails}
use mongobouncer.RoundTrip.Sends.{sends, sends-round_trip-le}
use mongobouncer.RoundTrip.State.{
  Mongo, Services, Reply, failed, replied, Attempt, checked_out, sent, processed, closed,
  session_failed, response, failure,
}
use mongobouncer.RoundTrip.{choose, perform, round_trip}
use mongobouncer.Session.{
  get_pinned_server, Session, active, idle, in_progress, nothing_to_commit, transaction_already,
  TransactionState,
}
use mongobouncer.SessionManager.Store.{SessionStore}
use mongobouncer.Wire.Bytes.{Bytes, append_i32, read_i32}
use mongobouncer.Wire.Decode.{decode, required}
use mongobouncer.Wire.Methods.{Methods, methods_of, msg_methods}
use mongobouncer.Wire.Operations.{TransactionDetails, Operation, msg_op}
use mongobouncer.Wire.Package.{op_msg, Lookups}
use mongobouncer.Wire.Sections.{first_error}
use mongobouncer.Wire.Plain.{plain, read_header, op_of}

abbrev no_store : SessionStore ℕ
no_store = record {
  is_enabled = λ d. false;
  get_stored = λ d now id. none;
  store_session = λ d now s. d;
  remove_session = λ d id. d;
  store_transaction = λ d now ls_id server n. d;
}

abbrev no_cursors : SharedCursors ℕ ℕ
no_cursors = record {
  is_enabled = λ d. false;
  has_cursor = λ d id collection. false;
  store_cursor = λ d id collection server name. d;
  drop_cursor = λ d id collection. d;
}

abbrev no_transactions : SharedTransactions ℕ ℕ
no_transactions = record {
  is_enabled = λ d. false;
  has_transaction = λ d ls_id. false;
  store_transaction = λ d ls_id server n. d;
  drop_transaction = λ d ls_id. d;
}

abbrev empty_lookups : Lookups ℕ
empty_lookups = record {
  document = record {
    string_at = λ d key. none;
    present_at = λ d key. false;
    int32_at = λ d key. none;
    boolean_at = λ d key. none;
  };
  int64_at = λ d path. none;
  binary_at = λ d path. none;
  extract_error = λ d. none;
}

abbrev services : Services ℕ ℕ
services = record {
  store = no_store;
  shared_cursors = no_cursors;
  shared_transactions = no_transactions;
  pkg = plain;
  look = empty_lookups;
  unicode_lower = λ c. c;
}

-- The session at every pointer.
abbrev session : TransactionState → Option ℕ → Option ℕ → Session
session state server connection = record {
  id = codes "AQI=";
  ls_id = 1 ∷ 2 ∷ [];
  client_id = codes "unknown";
  state = active;
  created_at = 0;
  last_activity = 0;
  transaction_state = state;
  current_txn_number = 1;
  pinned_server = server;
  pinned_connection = connection;
}

abbrev cursors : CursorCache ℕ ℕ
cursors = record { c = Lru.new max_cached cursor_expiry; distributed_cache = none }

abbrev transactions : TransactionCache ℕ ℕ
transactions = record { c = Lru.new max_cached transaction_expiry; distributed_cache = none }

abbrev mongo_with : Session → Mongo ℕ
mongo_with s = record {
  connected = true;
  database_name = codes "default";
  health_stats = none;
  sessions = record { sessions = []; heap = λ p. s; next = 1; distributed = none };
  cursors = cursors;
  transactions = transactions;
}

abbrev details : Bool → TransactionDetails
details starts = record {
  ls_id = 1 ∷ 2 ∷ [];
  txn_number = 1;
  is_start_transaction = starts;
  autocommit = false;
}

abbrev request_of : Command → Option TransactionDetails → Methods ℕ
request_of command transaction = record {
  op_code = op_msg;
  encode = λ response_to. [];
  is_is_master = false;
  cursor_id = none;
  request_id = 7;
  error = none;
  unacknowledged = false;
  command_and_collection = (command, codes "users");
  transaction_details = transaction;
  database_name = codes "shop";
}

abbrev answer : Bytes
answer =
    append_i32 [] 20
    ++ (append_i32 [] 6 ++ (append_i32 [] 0 ++ (append_i32 [] 2013 ++ append_i32 [] 0)))

abbrev answer_op : Operation
answer_op = msg_op (record { req_id = 6; flags = 0; sections = []; checksum = 0 })

abbrev attempt_with : Reply → Attempt
attempt_with reply = record {
  selected = some 3;
  connection = some 4;
  is_error_processor = true;
  reply = reply;
  now = 9;
}

answered :
    (command : Command) (transaction : Option TransactionDetails)
    → Answers services
        (request_of command transaction)
        (attempt_with (replied answer))
        answer
        answer_op
unfolding append_i32 read_i32 read_header op_of decode required methods_of msg_methods first_error
answered command transaction = record {
  acknowledged = refl;
  processor = refl;
  got = refl;
  understood = refl;
}

abbrev running : Session
running = session in_progress (some 3) (some 4)

sends-round_trip-le_example :
    sends
      (round_trip services
        (mongo_with running)
        (request_of Command.finds none)
        none
        0
        5
        (λ k. attempt_with (failed (codes "connection reset")))).0.events
    ≤ 4
sends-round_trip-le_example =
    sends-round_trip-le services (mongo_with running) (request_of Command.finds none) none 0 5
      (λ k. attempt_with (failed (codes "connection reset")))

round_trip-closes_example :
    let events =
      (round_trip services
        (mongo_with running)
        (request_of Command.finds none)
        none
        0
        5
        (λ k. attempt_with (failed (codes "connection reset")))).0.events in
    takings 4 events ≡ closings 4 events
round_trip-closes_example =
    round_trip-closes 4 services (mongo_with running) (request_of Command.finds none) none 0 5
      (λ k. attempt_with (failed (codes "connection reset"))) refl

abbrev statement : Methods ℕ
statement = request_of Command.inserts (some (details false))

-- The first attempt is reset, the second one answered.
abbrev second_answers : ℕ → Attempt
second_answers k =
    if k == 0
    then attempt_with (failed (codes "connection reset"))
    else attempt_with (replied answer)

perform_statement_example :
    let (run, outcome) =
      perform services statement (some 0) second_answers (fresh services (mongo_with running)) in
    (outcome ≡ response answer answer_op)
    × OnlyOn 4 run.events
    × (1 ≤ sends run.events)
    × (sends run.events ≤ 2)
    × (run.mongo.sessions ≡ (mongo_with running).sessions)
unfolding is_retryable_error to_lower contains has_prefix contains_any
perform_statement_example =
    perform_statement services (mongo_with running) statement (details false) second_answers answer
      answer_op 0 3 4 1 refl refl tt
      (record { running = refl; server_pinned = refl; connection_pinned = refl }) (omega arith)
      (retried_at (not_sent (codes "connection reset") refl refl refl)
        (answered_at (answered Command.inserts (some (details false)))))

abbrev commit_request : Methods ℕ
commit_request = request_of Command.commit_transaction (some (details false))

perform_end_example :
    let (run, outcome) =
      perform services commit_request
        (some 0)
        (λ k. attempt_with (replied answer))
        (fresh services (mongo_with running)) in
    Answers services commit_request (attempt_with (replied answer)) answer answer_op
    × ((outcome ≡ response answer answer_op)
        × (run.events ≡ closed 4 ∷ told services answer_op 4 (sent 4 ∷ []))
        × ((run.mongo.sessions.heap 0).transaction_state ≡ idle)
        × ((run.mongo.sessions.heap 0).pinned_server ≡ none)
        × ((run.mongo.sessions.heap 0).pinned_connection ≡ none)
        × (run.mongo.transactions
            ≡ remove_transaction services.shared_transactions
                (mongo_with running).transactions
                (1 ∷ 2 ∷ [])))
unfolding is_commit_or_abort
perform_end_example =
    perform_end services (mongo_with running) commit_request (details false)
      (λ k. attempt_with (replied answer)) answer answer_op 0 3 4 refl refl refl
      (record { running = refl; server_pinned = refl; connection_pinned = refl })
      (inl (answered Command.commit_transaction (some (details false))))

abbrev waiting : Session
waiting = session idle none none

perform_commit_idle_example :
    let (run, outcome) =
      perform services commit_request
        (some 0)
        (λ k. attempt_with (replied answer))
        (fresh services (mongo_with waiting)) in
    (outcome ≡ failure (session_failed nothing_to_commit)) × (run.events ≡ checked_out 4 ∷ [])
unfolding choose pinned_server get_pinned_server select_server select_cursor is_zero from_topology
    peek_transaction elsewhere cursor_of Lru.new Lru.peek Lru.element_at lookup
perform_commit_idle_example =
    perform_commit_idle services (mongo_with waiting) commit_request (details false)
      (λ k. attempt_with (replied answer)) 0 3 4 refl refl refl refl refl refl

abbrev first_request : Methods ℕ
first_request = request_of Command.inserts (some (details true))

perform_first_fails_example :
    let (run, outcome) =
      perform services first_request
        (some 0)
        (λ k. attempt_with (failed (codes "connection reset")))
        (fresh services (mongo_with waiting)) in
    (outcome ≡ failure (session_failed transaction_already))
    × (run.events ≡ processed 4 ∷ sent 4 ∷ checked_out 4 ∷ [])
    × ((run.mongo.sessions.heap 0).transaction_state ≡ in_progress)
unfolding choose pinned_server get_pinned_server select_server select_cursor is_zero from_topology
    peek_transaction elsewhere cursor_of Lru.new Lru.peek Lru.element_at is_retryable_error to_lower
    contains has_prefix contains_any lookup
perform_first_fails_example =
    perform_first_fails services (mongo_with waiting) first_request (details true)
      (λ k. attempt_with (failed (codes "connection reset"))) 0 3 4 (codes "connection reset") refl
      refl tt refl refl refl refl (record { processor = refl; got = refl; retryable = refl })
