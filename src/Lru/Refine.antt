-- ===== src/Lru/Refine.antt =====
-- The methods of lruttl/lruttl.go act on the abstract list of entries as an LRU cache should.
use mongobouncer.Base.Lists.{length}
use mongobouncer.Base.{
  ℕ, ◌≡◌, refl, ap, not, ◌&&◌, none, some, List, ◌∷◌, ◌≤◌, ◌<◌, ltb, ◌==◌, if◌then◌else◌, arith,
  Option-cases, inl, inr,
}
use mongobouncer.Lru.Elements.{length-back-none}
use mongobouncer.Lru.Entries.{
  entries, drop_last, find_entry, without, without_absent, find_entry-index, find_entry-find,
  entries-unlink, entries-unlink-back, length-entries, length-without,
}
use mongobouncer.Lru.Invariant.{
  IsLinked, IsValid, element_at-find, element_at-none, push_new-IsLinked,
}
use mongobouncer.Lru.{
  Entry, Element, Cache, touch, new_entry, find, move_to_front, back, element_at, remove_element,
  remove_oldest, evict, push_new, peek, get, add, remove,
}

module _ {K V : Type 0} where
  -- What the cache stores, most recently used first.
  abbrev pub view : Cache K V → List (Entry K V)
  view c = entries c.ll

  -- The entries that a bound leaves: with one too many, the least recently used one goes.
  unfoldable pub fit : ℕ → List (Entry K V) → List (Entry K V)
  fit m l = if not (m == 0) && ltb m (length l) then drop_last l else l

module _ {K V : Type 0} (dec : Discrete K) (c : Cache K V) where
  -- A pointer lookup through the map finds what a search of the entries by key finds.
  element_at-view :
      (k : K)
      → IsLinked dec c
      → find_entry dec k (view c)
        ≡ elim (element_at dec c k) [ none ↦ none | some e ↦ some e.entry ]
  element_at-view k v = elim (Option-cases (element_at dec c k)) [
    | inl p ↦ rw p (find_entry-index dec k c.ll (element_at-none dec c k v p))
    | inr (e, p) ↦
        let (found, key) = element_at-find dec c k e v p in
        rw (p, ← key) (find_entry-find dec e.id c.ll e found v.distinct)
  ]

  pub peek-view :
      (k : K)
      → IsLinked dec c
      → peek dec c k ≡ elim (find_entry dec k (view c)) [ none ↦ none | some e ↦ some e.value ]
  unfolding peek
  peek-view k v = ground (arith, element_at-view k v)

  view-front :
      (e e' : Element K V)
      → IsLinked dec c
      → find e.id c.ll ≡ some e
      → e'.id ≡ e.id
      → entries (move_to_front e' c.ll) ≡ e'.entry ∷ without dec e.entry.key (view c)
  unfolding move_to_front entries
  view-front e e' v h p = rw p (ap (◌∷◌ e'.entry) (entries-unlink dec e.id c.ll e h v.distinct))

  -- `Get` returns the value under the key, moves its entry to the front with a new expiry time,
  -- and changes nothing on a miss.
  pub get-view :
      (k : K) (now : ℕ)
      → IsLinked dec c
      → ((get dec c k now).1 ≡ peek dec c k)
        × (view (get dec c k now).0 ≡ elim (find_entry dec k (view c)) [
          | none ↦ view c
          | some e ↦ touch e c.expiry now ∷ without dec k (view c)
        ])
  unfolding get peek
  get-view k now v = elim (Option-cases (element_at dec c k)) [
    | inl p ↦ ground (arith, element_at-view k v)
    | inr (e, p) ↦
        let (found, key) = element_at-find dec c k e v p in
        ground (
          arith,
          element_at-view k v,
          view-front e (record e { entry = touch e.entry c.expiry now }) v found refl,
        )
  ]

  -- `Remove` takes the key's entry out and leaves the others in their order.
  pub remove-view : (k : K) → IsLinked dec c → view (remove dec c k) ≡ without dec k (view c)
  unfolding remove remove_element
  remove-view k v = elim (Option-cases (element_at dec c k)) [
    | inl p ↦ ground (arith, element_at-view k v, without_absent dec k (view c))
    | inr (e, p) ↦
        let (found, key) = element_at-find dec c k e v p in
        ground (arith, entries-unlink dec e.id c.ll e found v.distinct)
  ]

  evict-view : IsLinked dec c → view (evict dec c) ≡ fit c.max_entries (view c)
  unfolding evict remove_oldest remove_element fit
  evict-view v = elim (Option-cases (back c.ll)) [
    | inl p ↦ ground (arith, length-entries c.ll, length-back-none c.ll p)
    | inr (e, p) ↦ ground (arith, length-entries c.ll, entries-unlink-back dec c.ll e p v.distinct)
  ]

module _ {K V : Type 0} (dec : Discrete K) (c : Cache K V) where
  view-push_new :
      (k : K) (x : V) (now : ℕ)
      → view (push_new dec c k x now) ≡ new_entry k x c.expiry now ∷ view c
  unfolding push_new entries
  view-push_new k x now = refl

  max_entries-push_new :
      (k : K) (x : V) (now : ℕ) → (push_new dec c k x now).max_entries ≡ c.max_entries
  unfolding push_new
  max_entries-push_new k x now = refl

  -- A key that was there makes room for itself.
  fit_hit :
      (e f : Entry K V) (k : K)
      → (0 < c.max_entries → length c.ll ≤ c.max_entries)
      → find_entry dec k (view c) ≡ some f
      → fit c.max_entries (e ∷ without dec k (view c)) ≡ e ∷ without dec k (view c)
  unfolding fit
  fit_hit e f k h p = ground (arith, h, length-without dec k (view c) f p, length-entries c.ll)

  -- In a valid cache, `Add` puts the key's entry in front, with the value and a new expiry time,
  -- takes an older entry of the key out, and drops the least recently used entry where the bound
  -- is passed.
  pub add-view :
      (k : K) (x : V) (now : ℕ)
      → IsValid dec c
      → view (add dec c k x now)
        ≡ fit c.max_entries (new_entry k x c.expiry now ∷ without dec k (view c))
  unfolding add new_entry
  add-view k x now v = elim (Option-cases (element_at dec c k)) [
    | inl p ↦
        let missing = element_at-none dec c k v.linked p in
        let pushed = push_new dec c k x now in
        ground (
          arith,
          element_at-view dec c k v.linked,
          evict-view dec pushed (push_new-IsLinked dec c k x now v.linked missing),
          view-push_new k x now,
          max_entries-push_new k x now,
          without_absent dec k (view c),
        )
    | inr (e, p) ↦
        let (found, key) = element_at-find dec c k e v.linked p in
        let entry = record (touch e.entry c.expiry now) { value = x } in
        ground (
          arith,
          element_at-view dec c k v.linked,
          view-front dec c e (record e { entry = entry }) v.linked found refl,
          fit_hit (new_entry k x c.expiry now) e.entry k v.bounded,
        )
  ]
