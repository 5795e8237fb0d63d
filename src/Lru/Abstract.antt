-- ===== src/Lru/Abstract.antt =====
-- The specification of lruttl/lruttl.go: an LRU list with expiry, and the refinement.
use mongobouncer.Base.Lists.{keep}
use mongobouncer.Base.{ℕ, ◌+◌, ◌≡◌, refl, ◌∙◌, ap, List, [], ◌∷◌, none, some, leb}
use mongobouncer.Lru
use mongobouncer.Lru.{Entry, Cache, touch, new_entry}
use mongobouncer.Lru.Entries.{entries, find_entry, without}
use mongobouncer.Lru.Expiry.{expire_round-view}
use mongobouncer.Lru.Invariant.{new-IsValid}
use mongobouncer.Lru.Refine.{view, fit, get-view, add-view, remove-view}
use mongobouncer.Lru.Runs.{
  Call, get, add, remove, clear, expire, step, run, IsSound, step-IsSound, IsSound-wait,
  SameConfig-step,
}

module _ {K V : Type 0} (dec : Discrete K) (max_entries expiry : ℕ) where
  -- What a call does to the entries, most recently used first.
  unfoldable pub act : ℕ → Call K V → List (Entry K V) → List (Entry K V)
  act now (get k) l = elim (find_entry dec k l) [
    | none ↦ l
    | some e ↦ touch e expiry now ∷ without dec k l
  ]
  act now (add k x) l = fit max_entries (new_entry k x expiry now ∷ without dec k l)
  act now (remove k) l = without dec k l
  act now clear l = []
  act now expire l = keep (λ e. leb now e.expiry) l

  unfoldable pub act_all : ℕ → List (ℕ × Call K V) → List (Entry K V) → List (Entry K V)
  act_all now [] l = l
  act_all now ((wait, call) ∷ calls) l = act_all (now + wait) calls (act (now + wait) call l)

  step-act :
      (c : Cache K V) (now : ℕ) (call : Call K V)
      → c.max_entries ≡ max_entries
      → c.expiry ≡ expiry
      → IsSound dec c now
      → view (step dec c now call) ≡ act now call (view c)
  unfolding step act Lru.clear entries
  step-act c now (get k) m x s = rw (← x) (get-view dec c k now s.valid.linked).1
  step-act c now (add k v) m x s = rw (← x, ← m) (add-view dec c k v now s.valid)
  step-act c now (remove k) m x s = remove-view dec c k s.valid.linked
  step-act c now clear m x s = refl
  step-act c now expire m x s = expire_round-view dec c now s.valid s.sorted

  run-act_all :
      (c : Cache K V) (now : ℕ) (calls : List (ℕ × Call K V))
      → c.max_entries ≡ max_entries
      → c.expiry ≡ expiry
      → IsSound dec c now
      → view (run dec c now calls) ≡ act_all now calls (view c)
  unfolding run act_all
  run-act_all c now [] m x s = refl
  run-act_all c now ((wait, call) ∷ calls) m x s =
      let later = now + wait in
      let sound = IsSound-wait dec c now wait s in
      let same = SameConfig-step dec c later call in
      run-act_all (step dec c later call) later calls (same.0 ∙ m) (same.1 ∙ x)
        (step-IsSound dec c later call sound)
      ∙ ap (act_all later calls) (step-act c later call m x sound)

  -- After any history of a new cache its entries are what the specification computes from the
  -- empty list: the map, the pointers and the eviction implement an LRU list.
  pub view-run :
      (now : ℕ) (calls : List (ℕ × Call K V))
      → view (run dec (Lru.new max_entries expiry) now calls) ≡ act_all now calls []
  unfolding Lru.new entries
  view-run now calls =
      run-act_all (Lru.new max_entries expiry) now calls refl refl
        (record { valid = new-IsValid dec max_entries expiry; within = tt; sorted = tt })
