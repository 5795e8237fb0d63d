-- ===== src/Connection/Forwarded.antt =====
-- What the client gets of a request that was forwarded, in proxy/connection.go.
use mongobouncer.Base.{ℕ, ◌≡◌, refl, false, Option, some, [], ◌∷◌}
use mongobouncer.Base.Text.{Text}
use mongobouncer.Connection.Pooling.{hex, forwarded, try_forward, round_trip_with_pool}
use mongobouncer.Connection.State.{Connection, Request, Answer, answers, Servers}
use mongobouncer.Connection.{Packages, wrote, write_answer}
use mongobouncer.Pool.{Manager}
use mongobouncer.Wire.Bytes.{Bytes}
use mongobouncer.Wire.Decode.{decoded, decode}
use mongobouncer.Wire.Operations.{TransactionDetails, Operation}

module _ {W E : Type 0} (packages : Packages) (servers : Servers W E) where
  try_forward-answered :
      (w : W) (c : Connection) (request : Request E) (t : TransactionDetails) (d : ℕ) (ds : Text)
      (response : Bytes) (forward : W → Text → Bytes → Text → W × Answer (Option Bytes))
      → servers.forward ≡ some forward
      → request.methods.transaction_details ≡ some t
      → hex t.ls_id ≡ d ∷ ds
      → (forward w (d ∷ ds) (request.methods.encode request.methods.request_id) c.address).1
        ≡ answers (some response)
      → (try_forward servers w c request).1 ≡ some (forwarded servers response)
  unfolding try_forward
  try_forward-answered w c request t d ds response forward f h n a =
      rw (f, try_forward, h, n, a) refl

  forwarded-decoded :
      (response : Bytes) (op : Operation)
      → decode servers.pkg response ≡ decoded op
      → forwarded servers response ≡ answers (some (record { wm = []; op = op }))
  unfolding forwarded
  forwarded-decoded response op k = rw (k, forwarded) refl

  -- A request with a session that another instance answers, in bytes that decode, ends without an
  -- error, but the client is written no bytes at all.
  pub write_answer-forwarded :
      (w : W) (m : Manager ℕ) (c : Connection) (request : Request E) (database_name : Text)
      (mongo_client : Option ℕ) (now : ℕ) (t : TransactionDetails) (d : ℕ) (ds : Text)
      (response : Bytes) (op : Operation)
      (forward : W → Text → Bytes → Text → W × Answer (Option Bytes))
      → servers.forward ≡ some forward
      → request.methods.transaction_details ≡ some t
      → hex t.ls_id ≡ d ∷ ds
      → (forward w (d ∷ ds) (request.methods.encode request.methods.request_id) c.address).1
        ≡ answers (some response)
      → decode servers.pkg response ≡ decoded op
      → request.methods.unacknowledged ≡ false
      → write_answer packages servers request
          (round_trip_with_pool servers w m c request database_name mongo_client now).1.1
        ≡ wrote []
  unfolding round_trip_with_pool write_answer
  write_answer-forwarded w m c request database_name mongo_client now t d ds response op forward f h
        n a k u =
      let e = try_forward-answered w c request t d ds response forward f h n a in
      rw (e, round_trip_with_pool, forwarded-decoded response op k, write_answer, u) refl
