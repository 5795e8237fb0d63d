-- ===== src/Connection/Pooling.antt =====
-- roundTripWithPool of proxy/connection.go: forwarding, the registration of the client with the pool
-- manager, and the round trip of a pooled connection.
use mongobouncer.Base.Decimal.{decimal}
use mongobouncer.Base.Text.{Text, codes, text_eq}
use mongobouncer.Base.{
  ℕ, ◌+◌, ◌/◌, ◌%◌, ltb, not, Bool, false, Option, none, some, [], ◌∷◌, ◌++◌, suc, if◌then◌else◌,
}
use mongobouncer.Command.Bson.{ℤ, pos, negsuc}
use mongobouncer.Connection.Names.{or_else}
use mongobouncer.Connection.State.{Connection, Request, Answer, fails, answers, Message, Servers}
use mongobouncer.Pool.{
  Manager, Error, too_many_clients, client_not_registered, marked_unhealthy, client_is_nil,
  unknown_pool_mode, Result, ok, err, PoolMode, session_mode, transaction_mode, statement_mode,
  other_mode, PooledConnection, ClientConnection, get_client, find_conn, register_client,
  unregister_client, get_connection, return_connection,
}
use mongobouncer.RoundTrip.State.{signed64}
use mongobouncer.Selection.{is_end_of_transaction}
use mongobouncer.Wire.Bytes.{Bytes}
use mongobouncer.Wire.Decode.{decoded, malformed, unfinished, decode}
use mongobouncer.Wire.Operations.{TransactionDetails}

abbrev hex_digit : ℕ → ℕ
hex_digit n = if ltb n 10 then 48 + n else 87 + n

-- The bytes as fmt.Sprintf("%x") prints them.
unfoldable pub hex : Bytes → Text
hex [] = []
hex (b ∷ bs) = hex_digit (b / 16) ∷ hex_digit (b % 16) ∷ hex bs

unfoldable pub signed_decimal : ℤ → Text
signed_decimal (pos n) = decimal n
signed_decimal (negsuc n) = b'-' ∷ decimal (suc n)

-- `%x-%d` of the session's id and the transaction's number
unfoldable pub transaction_id_of : Option TransactionDetails → Text
unfolding hex signed_decimal
transaction_id_of none = []
transaction_id_of (some t) = hex t.ls_id ++ b'-' ∷ signed_decimal (signed64 t.txn_number)

unfoldable pub is_transaction : Option TransactionDetails → Bool
is_transaction none = false
is_transaction (some t) = not t.autocommit

abbrev mode_text : PoolMode → Text
mode_text session_mode = codes "session"
mode_text transaction_mode = codes "transaction"
mode_text statement_mode = codes "statement"
mode_text (other_mode s) = s

-- The texts of the pool manager's errors.
unfoldable pub message_of : Error → Text
message_of too_many_clients = codes "max client connections reached"
message_of client_not_registered = codes "client not registered"
message_of marked_unhealthy = codes "connection marked as unhealthy"
message_of client_is_nil = codes "MongoDB client is nil"
message_of (unknown_pool_mode mode) = codes "unknown pool mode: " ++ mode_text mode

-- The registration of the client under the database of its operation.
unfoldable pub register_for :
    Manager ℕ → Connection → Text → ℕ → Manager ℕ × Result ClientConnection
unfolding or_else
register_for m c database now =
    let username = or_else c.client_username (codes "default") in
    elim (get_client m c.client_id) [
      | none ↦ register_client m c.client_id username database m.default_mode now
      | some client ↦
          if text_eq client.database database
          then (m, ok client)
          else register_client (unregister_client m c.client_id now) c.client_id username database
              m.default_mode now
    ]

-- `pooledConn.MongoClient`
abbrev pooled_client : Option (PooledConnection ℕ) → Option ℕ
pooled_client none = none
pooled_client (some conn) = conn.mongo_client

module _ {W E : Type 0} (servers : Servers W E) where
  -- The answer of another instance, parsed. The message is made without its bytes.
  unfoldable pub forwarded : Bytes → Answer (Option Message)
  forwarded response = elim (decode servers.pkg response) [
    | decoded op ↦ answers (some (record { wm = []; op = op }))
    | malformed message ↦ fails message
    | unfinished ↦ fails []
  ]

  -- The answer of the request forwarder; `none` leaves the request to this instance.
  unfoldable pub try_forward : W → Connection → Request E → W × Option (Answer (Option Message))
  unfolding hex forwarded
  try_forward w c request = elim servers.forward [
    | none ↦ (w, none)
    | some forward ↦ elim request.methods.transaction_details [
      | none ↦ (w, none)
      | some t ↦ elim (hex t.ls_id) [
        | [] ↦ (w, none)
        | d ∷ ds ↦
            let (asked, answer) =
              forward w (d ∷ ds) (request.methods.encode request.methods.request_id) c.address in
            elim answer [
              | fails message ↦ (asked, none)
              | answers none ↦ (asked, none)
              | answers (some response) ↦ (asked, some (forwarded response))
            ]
      ]
    ]
  ]

  -- The round trip on the pooled connection `conn`, which is given back.
  unfoldable pub use_pooled :
      W → Manager ℕ → Connection → Request E → ℕ → ℕ → W × (Manager ℕ × Answer (Option Message))
  use_pooled w m c request conn now =
      let (served, answer) = servers.round_trip w (pooled_client (find_conn m conn)) request now in
      let ends =
        is_end_of_transaction (request.methods.command_and_collection).0
          request.methods.transaction_details in
      (served, (return_connection m c.client_id conn ends now, answer))

  -- Below the registration.
  unfoldable pub with_registered :
      W
      → Manager ℕ
      → Connection
      → Request E
      → Text
      → Option ℕ
      → ℕ
      → W × (Manager ℕ × Answer (Option Message))
  unfolding use_pooled transaction_id_of is_transaction message_of
  with_registered w m c request database mongo_client now =
      let details = request.methods.transaction_details in
      let (taken, result) =
        get_connection m c.client_id database mongo_client (is_transaction details)
          (transaction_id_of details) now in
      elim result [
        | err e ↦ (w, (taken, fails (message_of e)))
        | ok conn ↦ use_pooled w taken c request conn now
      ]

  -- On this instance.
  unfoldable pub serve_pooled :
      W
      → Manager ℕ
      → Connection
      → Request E
      → Text
      → Option ℕ
      → ℕ
      → W × (Manager ℕ × Answer (Option Message))
  unfolding register_for with_registered message_of
  serve_pooled w m c request database mongo_client now =
      let (registered, result) = register_for m c database now in
      elim result [
        | err e ↦ (w, (registered, fails (message_of e)))
        | ok client ↦ with_registered w registered c request database mongo_client now
      ]

  unfoldable pub round_trip_with_pool :
      W
      → Manager ℕ
      → Connection
      → Request E
      → Text
      → Option ℕ
      → ℕ
      → W × (Manager ℕ × Answer (Option Message))
  unfolding try_forward serve_pooled or_else
  round_trip_with_pool w m c request database_name mongo_client now =
      let (asked, forwarded_answer) = try_forward w c request in
      elim forwarded_answer [
        | some answer ↦ (asked, (m, answer))
        | none ↦
            serve_pooled asked m c request (or_else database_name (codes "default")) mongo_client
              now
      ]
