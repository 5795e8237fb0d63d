-- ===== src/Lru/Tests.antt =====
-- lruttl/lruttl.go at concrete caches.
use mongobouncer.Base.{ℕ, ◌+◌, ◌≡◌, refl, Option, none, some, List, [], ◌∷◌, leb, ℕ_discrete}
use mongobouncer.Lru
use mongobouncer.Lru.{Cache, new_entry}
use mongobouncer.Lru.Abstract.{act_all, view-run}
use mongobouncer.Lru.Refine.{view}
use mongobouncer.Lru.Runs.{Call, get, add, remove, clear, expire, run, clock, IsSound, run-IsSound}

-- A cache for two entries; a third one comes while the first one is read in between.
abbrev calls : List (ℕ × Call ℕ ℕ)
calls = (1, add 1 10) ∷ (1, add 2 20) ∷ (1, get 1) ∷ (1, add 3 30) ∷ (1, expire) ∷ []

abbrev two_entries : Cache ℕ ℕ
two_entries = run ℕ_discrete (Lru.new 2 5) 0 calls

view-run_example : view two_entries ≡ act_all ℕ_discrete 2 5 0 calls []
view-run_example = view-run ℕ_discrete 2 5 0 calls

-- The entry that was not read is gone, and the one that was is there.
peeks : (Lru.peek ℕ_discrete two_entries 2 ≡ none) × (Lru.peek ℕ_discrete two_entries 1 ≡ some 10)
unfolding run Lru.new Lru.peek Lru.element_at mathlib.Core.List.lookup mongobouncer.Lru.Runs.step
    Lru.expire_round Lru.oldest_expired Lru.back Lru.add Lru.get Lru.evict Lru.push_new
    mongobouncer.Base.Assoc.put ℕ_discrete Lru.find Lru.move_to_front Lru.unlink Lru.remove_oldest
    mongobouncer.Base.Assoc.delete Lru.remove_element
peeks = (refl, refl)
