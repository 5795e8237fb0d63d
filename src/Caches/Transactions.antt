-- ===== src/Caches/Transactions.antt =====
-- What mongo/transaction_cache.go finds after its other calls.
use mongobouncer.Base.Base64.{encode, IsBytes, encode-injective}
use mongobouncer.Base.Text.{Text, text_discrete}
use mongobouncer.Base.{ℕ, ◌≡◌, ◌≢◌, none, some, arith, inl, inr, Option-cases}
use mongobouncer.Caches.Shared.{SharedTransactions, ForgetsTransactions}
use mongobouncer.Caches.{
  TransactionCache, elsewhere, peek_transaction, add_transaction, remove_transaction,
  share_transaction,
}
use mongobouncer.Lru
use mongobouncer.Lru.Invariant.{IsValid}
use mongobouncer.Lru.Reads.{peek-add_self, peek-remove}

module _ {S D : Type 0} (shared : SharedTransactions S D) (t : TransactionCache S D)
    (v : IsValid text_discrete t.c) where
  -- In a valid cache, a transaction whose id is made of bytes and that was added with a server
  -- is found with that server, and removing it makes it unknown, here and through a distributed
  -- cache that forgets what it is told to remove; this instance finds every other transaction as
  -- before.
  pub peek-remove_transaction :
      (ls_id : Text) (server : S) (now : ℕ)
      → ForgetsTransactions shared
      → IsBytes ls_id
      → (peek_transaction shared (add_transaction shared t ls_id (some server) now) ls_id
          ≡ some (some server))
        × (peek_transaction shared (remove_transaction shared t ls_id) ls_id ≡ none)
        × ((other : Text)
            → IsBytes other
            → other ≢ ls_id
            → Lru.peek text_discrete (remove_transaction shared t ls_id).c (encode other)
              ≡ Lru.peek text_discrete t.c (encode other))
  unfolding peek_transaction add_transaction remove_transaction share_transaction elsewhere
  peek-remove_transaction ls_id server now f b =
      let key = encode ls_id in
      (
        ground (arith, peek-add_self text_discrete t.c v key (some server) now),
        elim (Option-cases t.distributed_cache) [
          | inl e ↦ ground (arith, peek-remove text_discrete t.c v key key)
          | inr (d, e) ↦ ground (arith, peek-remove text_discrete t.c v key key, f.dropped d ls_id)
        ],
        λ other c n. ground (
          arith,
          peek-remove text_discrete t.c v key (encode other),
          encode-injective other ls_id c b,
        ),
      )
