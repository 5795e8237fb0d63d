-- ===== src/Lib.antt =====
-- A verification library for mongobouncer, a connection pooler between MongoDB clients and servers.
--
-- What the program is made of, and the file that models it:
--
-- lruttl/lruttl.go, the LRU cache with expiry that the router and the cursor and transaction caches
-- use: Lru. `Cache` keeps the two structures of the source, a linked list of elements and a map from
-- a key to its element; a pointer to an element is a number. `get`, `add`, `remove`, `clear` and one
-- round of `expireLoop` (`expire_round`) are the operations. Lru.Invariant holds that list and map
-- agree; Lru.Refine, Lru.Expiry and Lru.Abstract relate the cache to a plain list of entries, most
-- recently used first; Lru.Runs has histories of calls; Lru.Reads says what one call changes for the
-- reads of a key.
--
-- mongo/session_manager.go, sessions and their transactions: Session is one session and what each
-- method does to it (`start` for StartTransaction, `commit`, `abort`, `unpin`, `reset`, `finish` for
-- the end of EndSession); Session.States is the state machine, as a relation of steps; Session.Pinning
-- says what is pinned when. SessionManager is the manager with its map of pointers and the heap that
-- they lead to; SessionManager.Store is the interface of the distributed cache that it calls.
--
-- proxy/router.go, which names the server for a database: Router, with `add_route`, `remove_route`,
-- `get_route`, and `resolve`, the part of GetRoute below its cache. It uses Lru for the route cache.
-- Router.Coherence relates the cache to the tables, Router.Patterns and Router.Changes say which names
-- a pattern routes.
--
-- pool/pool.go, the pools and clients of the proxy: Pool, with `register_client`, `unregister_client`,
-- `get_connection`, `return_connection` and the pools' `checkout` and `pool_return`. Pool.Invariant,
-- Pool.Conns and Pool.Runs have the invariant and histories; Pool.Modes, Pool.Transactions and
-- Pool.Statements the promise of each pool mode; Pool.Faults the returns that are missed or made twice.
--
-- mongo/operations.go, the wire protocol: Wire. Wire.Operations has a record for each struct and the
-- sum of them, Wire.Encode and Wire.Decode the two directions, Wire.Methods and Wire.Sections the
-- methods of the interface Operation. Bytes are numbers, an int32, an int64 and a flag word are their
-- bit patterns, and a string is its bytes; where the code reads the letters of a name, as
-- ParseCollectionName does to lower them, the model reads bytes, which is the same for ASCII. The
-- driver's packages are a record of functions (Wire.Package) whose documented behaviour is stated in
-- Wire.Package.Laws; Wire.Plain is a driver that has it. Wire.RoundTrip has the layouts and what is
-- read back, Wire.Termination the loop over sections, Wire.Results what the results of the decoders
-- have in common. Selection and the caches work on what these operations say.
--
-- util/parsing.go, the texts that clients send: Parsing. mongo/command.go, which command a message
-- carries: Command. mongo/cursor_cache.go and mongo/transaction_cache.go: Caches, which uses Lru and an
-- interface of the distributed cache.
--
-- mongo/mongo.go, RoundTrip: the module RoundTrip. What the driver does in one turn of the retry loop
-- (the server that it selects, the connection, the answer) is an argument, an `Attempt`; what RoundTrip
-- does to connections is a list of events, and its deferred calls are a list that is run at the end.
-- RoundTrip.Sessions has the session's part of a turn, RoundTrip.Answers what is kept of an answer. It
-- calls the sessions, the caches, the selection, the health check, the error classes and Wire. The
-- distributed cache, one object in the source, stands once in each of these components, since their
-- keys are apart. RoundTrip.Sends, RoundTrip.Closing, RoundTrip.Statements, RoundTrip.Ends, RoundTrip.Retries and
-- RoundTrip.Faults are about whole calls.
--
-- proxy/connection.go, a client's connection: Connection. `handle_connection` is handleConnection,
-- `handle_message` handleMessage once the request is read and decoded, `round_trip` roundTrip with its
-- handshake (`shake_hands`) and its way over a route (`on_route`). Connection.Names takes database
-- names and hosts out of texts, Connection.Credentials authenticates, Connection.Clients gets the client of a
-- route, Connection.Pooling is roundTripWithPool. What a connection calls is a record of functions
-- (`Servers`): RoundTrip of a client, which the module RoundTrip models, the driver's Connect, the
-- request forwarder and the made-up answers of mongo/ismaster.go; regular expressions and url.Parse are the
-- record `Packages`. The connection calls Router and Pool as they are modelled; clients and routes are
-- numbers. One time stands for the clock's readings within a request. Connection.Runs and
-- Connection.Whole follow the pool manager, Connection.Handshake and Connection.Unasked the
-- authentication, Connection.Stale and Connection.Forwarded which client answers and what is written.
--
-- mongo/mongo.go, the rest in part: Selection (selectServer, over the two caches, and isEndOfTransaction of
-- proxy/connection.go), Health (CheckHealth and IsHealthy) and Errors (isRetryableError, and with it
-- isConnectionError of proxy/connection.go and GetTopology of util/helpers.go).
--
-- Base has what they share: lists and numbers, texts as lists of code points with the operations of
-- Go's `strings`, maps as association lists, base64 and decimal numbers.
--
-- Conventions. State is passed explicitly, and the time that `time.Now()` reads is an argument, in
-- nanoseconds. A call runs alone: histories are sequences of whole calls (`run`), and interleavings
-- inside two calls of which one has not yet taken its lock are not modelled. Durations and times are numbers, with subtraction that stops at 0
-- where the source compares an age with a limit that is not negative. Counters, which the source keeps
-- in an int64 or an int, are numbers. The expiry loop runs on fuel, one more than
-- the length of the list, which is enough since each turn but the last takes an element out; the loop over
-- the sections of an OP_MSG runs on the number of bytes, since each turn reads at least one.
--
-- Not modelled: log lines and metrics, which decide nothing; the
-- String methods of the operations, whose text is an argument where Connection reads it; the connection to the cluster and the pool statistics of
-- mongo/mongo.go; the Redis side of the distributed cache
-- (mongo/distributed_cache.go); the proxy's network loop (proxy/proxy.go); the forwarding of requests
-- (mongo/request_forwarder.go) and the made-up answers (mongo/ismaster.go);
-- configuration files (config).
pub mod Base
pub mod Lru
pub mod Session
pub mod SessionManager
pub mod Router
pub mod Pool
pub mod Parsing
pub mod Command
pub mod Caches
pub mod Errors
pub mod Health
pub mod Selection
pub mod Wire
pub mod RoundTrip
pub mod Connection
