-- ===== src/Selection.antt =====
-- Which server a message goes to (selectServer of mongo/mongo.go), and whether an operation ends
-- its transaction (isEndOfTransaction of proxy/connection.go). `selected` is what the driver's
-- topology selects, with `none` for its error; a message's cursor is 0 if it has none.
pub mod Pinned
use mongobouncer.Base.Text.{Text, text_eq, codes}
use mongobouncer.Base.{ℕ, Bool, true, false, ◌||◌, ◌==◌, Option, none, some, if◌then◌else◌}
use mongobouncer.Caches.Shared.{SharedCursors, SharedTransactions}
use mongobouncer.Caches.{CursorCache, TransactionCache, peek_cursor, peek_transaction}
use mongobouncer.Command.Bson.{ℤ, pos, negsuc}
use mongobouncer.Command.{Command, text_of}
use mongobouncer.Wire.Operations.{TransactionDetails}

-- A server, which may be nil, or an error.
pub data Choice (S : Type 0) : Type 0 where
  chosen : Option S → Choice S
  no_server : Choice S

unfoldable pub is_zero : ℤ → Bool
is_zero (pos n) = n == 0
is_zero (negsuc n) = false

unfoldable pub from_topology : {S : Type 0} → Option S → Choice S
from_topology none = no_server
from_topology (some s) = chosen (some s)

module _ {S D : Type 0} (shared_cursors : SharedCursors S D)
    (shared_transactions : SharedTransactions S D) where
  -- The part that looks for a pinned cursor, and otherwise asks the topology.
  unfoldable pub select_cursor : CursorCache S D → ℤ → Text → Option S → Choice S
  select_cursor cursors cursor_id collection selected =
      if is_zero cursor_id
      then from_topology selected
      else elim (peek_cursor shared_cursors cursors cursor_id collection) [
        | some server ↦ chosen server
        | none ↦ from_topology selected
      ]

  unfoldable pub select_server :
      CursorCache S D
      → TransactionCache S D
      → Option TransactionDetails
      → ℤ
      → Text
      → Option S
      → Choice S
  select_server cursors transactions none cursor_id collection selected =
      select_cursor cursors cursor_id collection selected
  select_server cursors transactions (some details) cursor_id collection selected =
      elim (peek_transaction shared_transactions transactions details.ls_id) [
        | some server ↦ chosen server
        | none ↦ select_cursor cursors cursor_id collection selected
      ]

-- The details are nil for an operation outside a transaction.
pub is_end_of_transaction : Command → Option TransactionDetails → Bool
is_end_of_transaction command details =
    let s = text_of command in
    if text_eq s (codes "commitTransaction")
      || text_eq s (codes "abortTransaction")
      || text_eq s (codes "endSessions")
    then true
    else elim details [
      | none ↦ false
      | some d ↦
          if d.autocommit
          then true
          else text_eq s (codes "commitTransaction") || text_eq s (codes "abortTransaction")
    ]
