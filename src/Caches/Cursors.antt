-- ===== src/Caches/Cursors.antt =====
-- What mongo/cursor_cache.go finds after its other calls.
use mongobouncer.Base.Text.{Text, text_discrete}
use mongobouncer.Base.{ℕ, ◌≡◌, ◌≢◌, Option, none, some, arith, inl, inr, Option-cases}
use mongobouncer.Caches.Keys.{build_key-injective}
use mongobouncer.Caches.Shared.{SharedCursors, ForgetsCursors}
use mongobouncer.Caches.{
  CursorCache, CursorInfo, build_key, peek_cursor, add_cursor, remove_cursor, share_cursor,
}
use mongobouncer.Command.Bson.{ℤ}
use mongobouncer.Lru
use mongobouncer.Lru.Invariant.{IsValid}
use mongobouncer.Lru.Reads.{peek-add_self, peek-remove}

module _ {S D : Type 0} (shared : SharedCursors S D) (t : CursorCache S D)
    (v : IsValid text_discrete t.c) where
  -- In a valid cache, a cursor that was added is found with its server.
  pub peek-add_cursor :
      (id : ℤ) (collection : Text) (server : Option S) (database_name : Text) (now : ℕ)
      → peek_cursor shared
          (add_cursor shared t id collection server database_name now)
          id
          collection
        ≡ some server
  unfolding peek_cursor add_cursor
  peek-add_cursor id collection server database_name now =
      let info : CursorInfo S = record { server = server; database_name = database_name } in
      ground (arith, peek-add_self text_discrete t.c v (build_key id collection) info now)

  -- In a valid cache, a cursor that was removed is not found any more, here or through a
  -- distributed cache that forgets what it is told to remove; this instance finds every cursor
  -- with another number as before.
  pub peek-remove_cursor :
      (id : ℤ) (collection : Text)
      → ForgetsCursors shared
      → (peek_cursor shared (remove_cursor shared t id collection) id collection ≡ none)
        × ((other : ℤ) (elsewhere : Text)
            → (other ≢ id)
            → Lru.peek text_discrete
                (remove_cursor shared t id collection).c
                (build_key other elsewhere)
              ≡ Lru.peek text_discrete t.c (build_key other elsewhere))
  unfolding peek_cursor remove_cursor share_cursor
  peek-remove_cursor id collection f =
      let key = build_key id collection in
      (
        elim (Option-cases t.distributed_cache) [
          | inl e ↦ ground (arith, peek-remove text_discrete t.c v key key)
          | inr (d, e) ↦
              ground (arith, peek-remove text_discrete t.c v key key, f.dropped d id collection)
        ],
        λ other elsewhere n.
            let other_key = build_key other elsewhere in
            ground (
              arith,
              peek-remove text_discrete t.c v key other_key,
              build_key-injective other id elsewhere collection,
            ),
      )
