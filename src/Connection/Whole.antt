-- ===== src/Connection/Whole.antt =====
-- The pool manager before and after a connection of proxy/connection.go.
use mongobouncer.Base.Assoc.{lookup-delete_self}
use mongobouncer.Base.Text.{Text, codes, text_discrete}
use mongobouncer.Base.{ℕ, ◌≡◌, inl, inr, none, some, List, arith, Option-cases}
use mongobouncer.Connection.Runs.{HasValid, process_messages-HasValid}
use mongobouncer.Connection.State.{Connection, Request, Servers, Shared}
use mongobouncer.Connection.{Packages, enter, leave, handle_connection, process_messages}
use mongobouncer.Pool.Runs.{register_client-IsValid, unregister_client-IsValid}
use mongobouncer.Pool.{Manager, get_client, unregister_client}

get_client-unregister_client :
    (m : Manager ℕ) (id : Text) (now : ℕ) → get_client (unregister_client m id now) id ≡ none
unfolding unregister_client
get_client-unregister_client m id now = elim (Option-cases (get_client m id)) [
  | inl e ↦ rw (e, unregister_client) e
  | inr (client, e) ↦ rw (e, unregister_client) (lookup-delete_self text_discrete id _)
]

-- The pool manager that is left, if there is one, is valid and does not know the client.
pub record IsLeft {W : Type 0} (id : Text) (g : Shared W) : Type 0 where
  pub valid : HasValid g
  pub forgotten : (m : Manager ℕ) → g.pool_manager ≡ some m → get_client m id ≡ none

leave-IsLeft :
    {W : Type 0} (g : Shared W) (id : Text) (now : ℕ) → HasValid g → IsLeft id (leave g id now)
unfolding leave
leave-IsLeft g id now v = elim (Option-cases g.pool_manager) [
  | inl e ↦ rw (e, leave) (record { valid = v; forgotten = λ m h. absurd (ground (arith, e, h)) })
  | inr (m, e) ↦
      rw (e, leave)
        (record {
          valid = λ n h. ground (arith, h, unregister_client-IsValid m id now (v m e));
          forgotten = λ n h. ground (arith, h, get_client-unregister_client m id now);
        })
]

enter-HasValid :
    {W : Type 0} (g : Shared W) (id : Text) (now : ℕ) → HasValid g → HasValid (enter g id now)
unfolding enter
enter-HasValid g id now v = elim (Option-cases g.pool_manager) [
  | inl e ↦ rw (e, enter) v
  | inr (m, e) ↦
      rw (e, enter)
        (λ n h. ground (
          arith,
          h,
          register_client-IsValid m id (codes "default") (codes "default") m.default_mode now
              (v m e),
        ))
]

module _ {W E : Type 0} (packages : Packages) (servers : Servers W E) where
  -- Whatever messages a connection handles, in whatever order and with whatever answers of the
  -- servers and the forwarder, a pool manager that was valid before it is valid after it, and it no
  -- longer knows the connection's client.
  pub handle_connection-IsLeft :
      (g : Shared W) (c : Connection) (messages : List (Request E × ℕ)) (now later : ℕ)
      → HasValid g
      → IsLeft c.client_id (handle_connection packages servers g c messages now later).0
  unfolding handle_connection
  handle_connection-IsLeft g c messages now later v =
      let entered = enter g c.client_id now in
      leave-IsLeft (process_messages packages servers entered c messages).0 c.client_id later (
        process_messages-HasValid packages servers entered c messages
          (enter-HasValid g c.client_id now v))
