-- ===== src/Caches.antt =====
-- mongo/cursor_cache.go and mongo/transaction_cache.go: the server of an open cursor and of a
-- running transaction, kept in an LRU cache and, for the other instances, in a distributed cache.
-- `S` stands for handles of servers, which may be nil, and `D` for the distributed cache, whose
-- errors are logged and otherwise passed over. `now` is the time that the LRU cache reads.
pub mod Shared
pub mod Keys
pub mod Cursors
pub mod Transactions
use Shared.{SharedCursors, SharedTransactions}
use mongobouncer.Base.Base64.{encode}
use mongobouncer.Base.Decimal.{decimal}
use mongobouncer.Base.Text.{Text, text_discrete}
use mongobouncer.Base.{
  ℕ, suc, Bool, true, false, Option, none, some, List, [], ◌∷◌, ◌++◌, if◌then◌else◌,
}
use mongobouncer.Command.Bson.{ℤ, pos, negsuc}
use mongobouncer.Lru
use mongobouncer.Lru.{Cache}

pub record CursorInfo (S : Type 0) : Type 0 where
  pub server : Option S
  pub database_name : Text

pub record CursorCache (S D : Type 0) : Type 0 where
  pub c : Cache Text (CursorInfo S)
  pub distributed_cache : Option D

pub record TransactionCache (S D : Type 0) : Type 0 where
  pub c : Cache Text (Option S)
  pub distributed_cache : Option D

-- "%d"
unfoldable pub signed : ℤ → Text
signed (pos n) = decimal n
signed (negsuc n) = b'-' ∷ decimal (suc n)

unfoldable pub build_key : ℤ → Text → Text
build_key cursor_id collection = signed cursor_id ++ b'-' ∷ collection

-- 1024 * 1024, for cursors and for transactions
abbrev pub max_cached : ℕ
max_cached = 1_048_576

-- 24 * time.Hour
abbrev pub cursor_expiry : ℕ
cursor_expiry = 86_400_000_000_000

-- 120 * time.Second
abbrev pub transaction_expiry : ℕ
transaction_expiry = 120_000_000_000

module _ {S D : Type 0} where
  pub new_cursor_cache : Option D → CursorCache S D
  new_cursor_cache d = record { c = Lru.new max_cached cursor_expiry; distributed_cache = d }

  pub new_transaction_cache : Option D → TransactionCache S D
  new_transaction_cache d = record {
    c = Lru.new max_cached transaction_expiry;
    distributed_cache = d;
  }

module _ {S D : Type 0} (shared : SharedCursors S D) where
  -- The answer is the server, which may be nil, if the cursor is known.
  pub peek_cursor : CursorCache S D → ℤ → Text → Option (Option S)
  peek_cursor t id collection = elim (Lru.peek text_discrete t.c (build_key id collection)) [
    | some info ↦ some info.server
    | none ↦ elim t.distributed_cache [
      | none ↦ none
      | some d ↦
          if shared.is_enabled d
          then if shared.has_cursor d id collection then some none else none
          else none
    ]
  ]

  -- `if c.distributedCache != nil && c.distributedCache.IsEnabled()`
  pub share_cursor : Option D → (D → D) → Option D
  share_cursor none f = none
  share_cursor (some d) f = some (if shared.is_enabled d then f d else d)

  pub add_cursor : CursorCache S D → ℤ → Text → Option S → Text → ℕ → CursorCache S D
  add_cursor t id collection server database_name now = record {
    c =
        Lru.add text_discrete t.c (build_key id collection)
          (record { server = server; database_name = database_name }) now;
    distributed_cache =
        share_cursor t.distributed_cache
          (λ d. shared.store_cursor d id collection server database_name);
  }

  pub remove_cursor : CursorCache S D → ℤ → Text → CursorCache S D
  remove_cursor t id collection = record {
    c = Lru.remove text_discrete t.c (build_key id collection);
    distributed_cache = share_cursor t.distributed_cache (λ d. shared.drop_cursor d id collection);
  }

module _ {S D : Type 0} (shared : SharedTransactions S D) where
  -- Whether another instance knows the transaction; its server is not at hand here.
  unfoldable pub elsewhere : Option D → Text → Option (Option S)
  elsewhere none ls_id = none
  elsewhere (some d) ls_id =
      if shared.is_enabled d
      then if shared.has_transaction d ls_id then some none else none
      else none

  unfoldable pub peek_transaction : TransactionCache S D → Text → Option (Option S)
  peek_transaction t ls_id = elim (Lru.peek text_discrete t.c (encode ls_id)) [
    | some (some server) ↦ some (some server)
    | some none ↦ elsewhere t.distributed_cache ls_id
    | none ↦ elsewhere t.distributed_cache ls_id
  ]

  pub share_transaction : Option D → (D → D) → Option D
  share_transaction none f = none
  share_transaction (some d) f = some (if shared.is_enabled d then f d else d)

  -- The transaction number that is shared is 0.
  pub add_transaction : TransactionCache S D → Text → Option S → ℕ → TransactionCache S D
  add_transaction t ls_id server now = record {
    c = Lru.add text_discrete t.c (encode ls_id) server now;
    distributed_cache =
        share_transaction t.distributed_cache (λ d. shared.store_transaction d ls_id server 0);
  }

  pub remove_transaction : TransactionCache S D → Text → TransactionCache S D
  remove_transaction t ls_id = record {
    c = Lru.remove text_discrete t.c (encode ls_id);
    distributed_cache =
        share_transaction t.distributed_cache (λ d. shared.drop_transaction d ls_id);
  }
