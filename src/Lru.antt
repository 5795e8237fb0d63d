-- ===== src/Lru.antt =====
-- lruttl/lruttl.go: the LRU cache with expiry. The doubly linked list is the list of its elements,
-- front first; the map leads from a key to an element, which `id` names as a pointer does. A
-- method takes the time that `time.Now().UnixNano()` reads as `now`; each holds the lock for its
-- whole run, so it is one step. Times stay below 2 ^ 63 and do not wrap.
pub mod Elements
pub mod Invariant
pub mod Entries
pub mod Refine
pub mod Reads
pub mod Expiry
pub mod Runs
pub mod Abstract
mod Tests
use mathlib.Core.List.{lookup}
use mongobouncer.Base.Assoc.{put, delete}
use mongobouncer.Base.Lists.{length}
use mongobouncer.Base.{
  ℕ, zero, suc, ◌+◌, ◌-◌, Bool, true, false, not, ◌&&◌, Option, none, some, List, [], ◌∷◌, ite, ltb,
  ◌==◌, if◌then◌else◌, ℕ_discrete,
}

pub record Entry (K V : Type 0) : Type 0 where
  pub key : K
  pub value : V
  pub expiry : ℕ

pub record Element (K V : Type 0) : Type 0 where
  pub id : ℕ
  pub entry : Entry K V

pub record Cache (K V : Type 0) : Type 0 where
  pub max_entries : ℕ
  pub expiry : ℕ
  pub ll : List (Element K V)
  pub cache : List (K × ℕ)
  pub next_id : ℕ

module _ {K V : Type 0} where
  unfoldable pub new : ℕ → ℕ → Cache K V
  new max_entries expiry = record {
    max_entries = max_entries;
    expiry = expiry;
    ll = [];
    cache = [];
    next_id = 0;
  }

  unfoldable pub new_entry : K → V → ℕ → ℕ → Entry K V
  new_entry key value expiry now = record { key = key; value = value; expiry = now + expiry }

  -- time.Now().UnixNano() > e.expiry
  abbrev pub expired : Entry K V → ℕ → Bool
  expired e now = ltb e.expiry now

  abbrev pub touch : Entry K V → ℕ → ℕ → Entry K V
  touch e expiry now = record e { expiry = now + expiry }

  -- The element that a pointer names.
  unfoldable pub find : ℕ → List (Element K V) → Option (Element K V)
  find i [] = none
  find i (e ∷ es) = ite (ℕ_discrete i e.id) (some e) (find i es)

  -- list.Remove
  unfoldable pub unlink : ℕ → List (Element K V) → List (Element K V)
  unlink i [] = []
  unlink i (e ∷ es) = let rest = unlink i es in ite (ℕ_discrete i e.id) rest (e ∷ rest)

  -- list.MoveToFront, and a write of the element's entry
  unfoldable pub move_to_front : Element K V → List (Element K V) → List (Element K V)
  move_to_front e es = e ∷ unlink e.id es

  -- list.Back
  unfoldable pub back : List (Element K V) → Option (Element K V)
  back [] = none
  back (e ∷ []) = some e
  back (e ∷ f ∷ es) = back (f ∷ es)

  abbrev pub over_full : Cache K V → Bool
  over_full c = not (c.max_entries == 0) && ltb c.max_entries (length c.ll)

  pub len : Cache K V → ℕ
  len c = length c.ll

  -- The expiry time of the back element, less the cache's expiry.
  unfoldable pub oldest : Cache K V → Option ℕ
  oldest c = elim (back c.ll) [ none ↦ none | some e ↦ some (e.entry.expiry - c.expiry) ]

  pub clear : Cache K V → Cache K V
  clear c = record c { cache = []; ll = [] }

  pub oldest_expired : Cache K V → ℕ → Bool
  oldest_expired c now = elim (back c.ll) [ none ↦ false | some e ↦ expired e.entry now ]

module _ {K V : Type 0} (dec : Discrete K) where
  -- The element that the map holds for a key.
  unfoldable pub element_at : Cache K V → K → Option (Element K V)
  element_at c key = elim (lookup dec key c.cache) [ none ↦ none | some i ↦ find i c.ll ]

  unfoldable pub remove_element : Cache K V → Element K V → Cache K V
  remove_element c e = record c { ll = unlink e.id c.ll; cache = delete dec e.entry.key c.cache }

  unfoldable pub remove_oldest : Cache K V → Cache K V × Bool
  remove_oldest c = elim (back c.ll) [ none ↦ (c, false) | some e ↦ (remove_element c e, true) ]

  pub remove_oldest_expired : Cache K V → ℕ → Cache K V × Bool
  remove_oldest_expired c now = elim (back c.ll) [
    | none ↦ (c, false)
    | some e ↦ if expired e.entry now then (remove_element c e, true) else (c, false)
  ]

  unfoldable pub peek : Cache K V → K → Option V
  peek c key = elim (element_at c key) [ none ↦ none | some e ↦ some e.entry.value ]

  unfoldable pub get : Cache K V → K → ℕ → Cache K V × Option V
  get c key now = elim (element_at c key) [
    | none ↦ (c, none)
    | some e ↦ (
      record c { ll = move_to_front (record e { entry = touch e.entry c.expiry now }) c.ll },
      some e.entry.value,
    )
  ]

  -- The write of a key that the map does not hold.
  unfoldable pub push_new : Cache K V → K → V → ℕ → Cache K V
  unfolding new_entry
  push_new c key value now = record c {
    ll = record { id = c.next_id; entry = new_entry key value c.expiry now } ∷ c.ll;
    cache = put dec key c.next_id c.cache;
    next_id = suc c.next_id;
  }

  unfoldable pub evict : Cache K V → Cache K V
  evict c = if over_full c then (remove_oldest c).0 else c

  unfoldable pub add : Cache K V → K → V → ℕ → Cache K V
  add c key value now = elim (element_at c key) [
    | none ↦ evict (push_new c key value now)
    | some e ↦ record c {
      ll =
          move_to_front (record e { entry = record (touch e.entry c.expiry now) { value = value } })
            c.ll;
    }
  ]

  pub remove : Cache K V → K → Cache K V
  remove c key = elim (element_at c key) [ none ↦ c | some e ↦ remove_element c e ]

  -- `for c.removeOldestExpired() {}`, on fuel
  pub expire_loop : ℕ → Cache K V → ℕ → Cache K V
  expire_loop zero c now = c
  expire_loop (suc fuel) c now =
      let (c', removed) = remove_oldest_expired c now in
      elim removed [ true ↦ expire_loop fuel c' now | false ↦ c' ]

  -- One round of `expireLoop`; every call of the loop but the last removes an element.
  pub expire_round : Cache K V → ℕ → Cache K V
  expire_round c now = if oldest_expired c now then expire_loop (suc (length c.ll)) c now else c
