-- ===== src/Selection/Pinned.antt =====
-- Pinned servers: what selectServer of mongo/mongo.go chooses after the caches were written.
use mongobouncer.Base.Base64.{IsBytes}
use mongobouncer.Base.Text.{Text, text_discrete}
use mongobouncer.Base.{ℕ, ◌≡◌, false, Option, some, arith}
use mongobouncer.Caches.Cursors.{peek-add_cursor, peek-remove_cursor}
use mongobouncer.Caches.Transactions.{peek-remove_transaction}
use mongobouncer.Caches.Shared.{
  SharedCursors, SharedTransactions, ForgetsCursors, ForgetsTransactions,
}
use mongobouncer.Caches.{
  CursorCache, TransactionCache, add_cursor, remove_cursor, add_transaction, remove_transaction,
}
use mongobouncer.Command.Bson.{ℤ}
use mongobouncer.Lru.Invariant.{IsValid}
use mongobouncer.Wire.Operations.{TransactionDetails}
use mongobouncer.Selection.{chosen, is_zero, from_topology, select_cursor, select_server}

module _ {S D : Type 0} (shared_cursors : SharedCursors S D)
    (shared_transactions : SharedTransactions S D) where
  -- With valid caches, a message in a transaction whose id is made of bytes and that is pinned
  -- to a server goes to that server, whatever cursor it names. Once the transaction is unpinned,
  -- a message with a cursor other than 0 that is pinned goes to the cursor's server, and once
  -- the cursor is closed too, the topology chooses, provided that the distributed cache forgets
  -- what it is told to remove.
  select_server-pinned :
      (cursors : CursorCache S D) (transactions : TransactionCache S D)
      (details : TransactionDetails) (cursor_id : ℤ) (collection database : Text) (server other : S)
      (selected : Option S) (now : ℕ)
      → IsValid text_discrete cursors.c
      → IsValid text_discrete transactions.c
      → ForgetsCursors shared_cursors
      → ForgetsTransactions shared_transactions
      → IsBytes details.ls_id
      → is_zero cursor_id ≡ false
      → let pinned =
          add_transaction shared_transactions transactions details.ls_id (some server) now in
        let unpinned = remove_transaction shared_transactions transactions details.ls_id in
        let opened =
          add_cursor shared_cursors cursors cursor_id collection (some other) database now in
        let closed = remove_cursor shared_cursors cursors cursor_id collection in
        (select_server shared_cursors shared_transactions opened pinned
            (some details)
            cursor_id
            collection
            selected
          ≡ chosen (some server))
        × (select_server shared_cursors shared_transactions opened unpinned
              (some details)
              cursor_id
              collection
              selected
            ≡ chosen (some other))
        × (select_server shared_cursors shared_transactions closed unpinned
              (some details)
              cursor_id
              collection
              selected
            ≡ from_topology selected)
  unfolding select_server select_cursor
  select_server-pinned cursors transactions details cursor_id collection database server other
        selected now vc vt fc ft b z =
      let (added, removed, _) =
        peek-remove_transaction shared_transactions transactions vt details.ls_id server now ft b in
      let opens =
        peek-add_cursor shared_cursors cursors vc cursor_id collection (some other) database now in
      let (closes, _) = peek-remove_cursor shared_cursors cursors vc cursor_id collection fc in
      (ground (arith, added), ground (arith, removed, opens, z), ground (arith, removed, closes, z))
