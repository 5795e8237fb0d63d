-- ===== src/Lru/Runs.antt =====
-- Histories of the cache of lruttl/lruttl.go: any sequence of calls, made while the clock runs on.
use native.Mathlib.Nat.{le_refl}
use mongobouncer.Base.Lists.{length, keep}
use mongobouncer.Base.{
  ℕ, zero, suc, ◌+◌, ◌≡◌, refl, Bool, List, [], ◌∷◌, leb, arith, Option-cases, inl, inr,
}
use mongobouncer.Lru
use mongobouncer.Lru.{Entry, Element, Cache, touch, new_entry}
use mongobouncer.Lru.Entries.{entries, without}
use mongobouncer.Lru.Expiry.{
  Within, Sorted, Within-mono, Within-drop_last, Sorted-drop_last, expire_round-view,
}
use mongobouncer.Lru.Invariant.{
  IsValid, new-IsValid, clear-IsValid, get-IsValid, add-IsValid, remove-IsValid,
  expire_round-IsValid,
}
use mongobouncer.Lru.Refine.{view, fit, get-view, add-view, remove-view}

pub data Call (K V : Type 0) : Type 0 where
  get : K → Call K V
  add : K → V → Call K V
  remove : K → Call K V
  clear expire : Call K V

module _ {K V : Type 0} where
  view-clear : (c : Cache K V) (b : ℕ) → Within b (view (Lru.clear c)) × Sorted (view (Lru.clear c))
  unfolding Lru.clear entries
  view-clear c b = (tt, tt)

  abbrev pub SameConfig : Cache K V → Cache K V → Type 0
  SameConfig c d = (d.max_entries ≡ c.max_entries) × (d.expiry ≡ c.expiry)

  -- The time after a history.
  unfoldable pub clock : ℕ → List (ℕ × Call K V) → ℕ
  clock now [] = now
  clock now ((wait, call) ∷ calls) = clock (now + wait) calls

module _ {K V : Type 0} (dec : Discrete K) where
  unfoldable pub step : Cache K V → ℕ → Call K V → Cache K V
  step c now (get k) = (Lru.get dec c k now).0
  step c now (add k x) = Lru.add dec c k x now
  step c now (remove k) = Lru.remove dec c k
  step c now clear = Lru.clear c
  step c now expire = Lru.expire_round dec c now

  -- Each call comes some time after the one before.
  unfoldable pub run : Cache K V → ℕ → List (ℕ × Call K V) → Cache K V
  run c now [] = c
  run c now ((wait, call) ∷ calls) = run (step c (now + wait) call) (now + wait) calls

  -- The linked structure is sound, and the entries are ordered by expiry time, none of which lies
  -- further ahead than the cache's expiry.
  pub record IsSound (c : Cache K V) (now : ℕ) : Type 0 where
    pub valid : IsValid dec c
    pub within : Within (now + c.expiry) (view c)
    pub sorted : Sorted (view c)

  Within-without : (b : ℕ) (k : K) (l : List (Entry K V)) → Within b l → Within b (without dec k l)
  unfolding without
  Within-without b k [] w = tt
  Within-without b k (e ∷ l) w = ground (arith, Within-without b k l w.1)

  Sorted-without : (k : K) (l : List (Entry K V)) → Sorted l → Sorted (without dec k l)
  unfolding without
  Sorted-without k [] s = tt
  Sorted-without k (e ∷ l) s =
      ground (arith, Sorted-without k l s.1, Within-without e.expiry k l s.0)

  Within-fit : (b m : ℕ) (l : List (Entry K V)) → Within b l → Within b (fit m l)
  unfolding fit
  Within-fit b m l w = ground (arith, Within-drop_last b l w)

  Sorted-fit : (m : ℕ) (l : List (Entry K V)) → Sorted l → Sorted (fit m l)
  unfolding fit
  Sorted-fit m l s = ground (arith, Sorted-drop_last l s)

  Within-keep :
      (b : ℕ) (p : Entry K V → Bool) (l : List (Entry K V)) → Within b l → Within b (keep p l)
  Within-keep b p [] w = tt
  Within-keep b p (e ∷ l) w = ground (arith, Within-keep b p l w.1)

  Sorted-keep : (p : Entry K V → Bool) (l : List (Entry K V)) → Sorted l → Sorted (keep p l)
  Sorted-keep p [] s = tt
  Sorted-keep p (e ∷ l) s = ground (arith, Sorted-keep p l s.1, Within-keep e.expiry p l s.0)

  pub IsSound-wait : (c : Cache K V) (now wait : ℕ) → IsSound c now → IsSound c (now + wait)
  IsSound-wait c now wait s = record {
    valid = s.valid;
    within = Within-mono (now + c.expiry) (now + wait + c.expiry) (view c) (omega arith) s.within;
    sorted = s.sorted;
  }

  module _ (c : Cache K V) (now : ℕ) where
    SameConfig-remove_element : (e : Element K V) → SameConfig c (Lru.remove_element dec c e)
    unfolding Lru.remove_element
    SameConfig-remove_element e = (refl, refl)

    SameConfig-remove_oldest_expired : SameConfig c (Lru.remove_oldest_expired dec c now).0
    unfolding Lru.remove_oldest_expired Lru.remove_element
    SameConfig-remove_oldest_expired = ground arith

    SameConfig-evict : SameConfig c (Lru.evict dec c)
    unfolding Lru.evict Lru.remove_oldest Lru.remove_element
    SameConfig-evict = ground arith

  SameConfig-expire_loop :
      (fuel : ℕ) (c : Cache K V) (now : ℕ) → SameConfig c (Lru.expire_loop dec fuel c now)
  unfolding Lru.expire_loop
  SameConfig-expire_loop zero c now = (refl, refl)
  SameConfig-expire_loop (suc fuel) c now = ground (
    arith,
    SameConfig-expire_loop fuel (Lru.remove_oldest_expired dec c now).0 now,
    SameConfig-remove_oldest_expired c now,
  )

  -- No call changes the bound or how long entries live.
  pub SameConfig-step : (c : Cache K V) (now : ℕ) (call : Call K V) → SameConfig c (step c now call)
  unfolding step Lru.get Lru.add Lru.remove Lru.clear Lru.expire_round Lru.push_new
  SameConfig-step c now (get k) = ground arith
  SameConfig-step c now (add k x) =
      ground (arith, SameConfig-evict (Lru.push_new dec c k x now) now)
  SameConfig-step c now (remove k) = elim (Option-cases (Lru.element_at dec c k)) [
    | inl p ↦ ground arith
    | inr (e, p) ↦ ground (arith, SameConfig-remove_element c now e)
  ]
  SameConfig-step c now clear = (refl, refl)
  SameConfig-step c now expire = ground (arith, SameConfig-expire_loop (suc (length c.ll)) c now)

  view-step_ordered :
      (c : Cache K V) (now : ℕ) (call : Call K V)
      → IsSound c now
      → Within (now + c.expiry) (view (step c now call)) × Sorted (view (step c now call))
  unfolding step new_entry
  view-step_ordered c now (get k) s = ground (
    arith,
    (get-view dec c k now s.valid.linked).1,
    Within-without (now + c.expiry) k (view c) s.within,
    Sorted-without k (view c) s.sorted,
  )
  view-step_ordered c now (add k x) s =
      let l = new_entry k x c.expiry now ∷ without dec k (view c) in
      let w = Within-without (now + c.expiry) k (view c) s.within in
      rw (add-view dec c k x now s.valid) (
        Within-fit (now + c.expiry) c.max_entries l (le_refl (now + c.expiry), w),
        Sorted-fit c.max_entries l (w, Sorted-without k (view c) s.sorted),
      )
  view-step_ordered c now (remove k) s =
      rw (remove-view dec c k s.valid.linked)
        (Within-without (now + c.expiry) k (view c) s.within, Sorted-without k (view c) s.sorted)
  view-step_ordered c now clear s = view-clear c (now + c.expiry)
  view-step_ordered c now expire s = rw (expire_round-view dec c now s.valid s.sorted) (
    Within-keep (now + c.expiry) (λ e. leb now e.expiry) (view c) s.within,
    Sorted-keep (λ e. leb now e.expiry) (view c) s.sorted,
  )

  step-IsValid :
      (c : Cache K V) (now : ℕ) (call : Call K V) → IsValid dec c → IsValid dec (step c now call)
  unfolding step
  step-IsValid c now (get k) v = get-IsValid dec c k now v
  step-IsValid c now (add k x) v = add-IsValid dec c k x now v
  step-IsValid c now (remove k) v = remove-IsValid dec c k v
  step-IsValid c now clear v = clear-IsValid dec c
  step-IsValid c now expire v = expire_round-IsValid dec c now v

  -- Every call keeps the cache sound.
  pub step-IsSound :
      (c : Cache K V) (now : ℕ) (call : Call K V) → IsSound c now → IsSound (step c now call) now
  step-IsSound c now call s =
      let (within, sorted) = view-step_ordered c now call s in
      record {
        valid = step-IsValid c now call s.valid;
        within = rw (SameConfig-step c now call).1 within;
        sorted = sorted;
      }

  run_keeps :
      (c : Cache K V) (now : ℕ) (calls : List (ℕ × Call K V))
      → IsSound c now
      → IsSound (run c now calls) (clock now calls)
  unfolding run clock
  run_keeps c now [] s = s
  run_keeps c now ((wait, call) ∷ calls) s =
      run_keeps (step c (now + wait) call) (now + wait) calls
        (step-IsSound c (now + wait) call (IsSound-wait c now wait s))

  -- After any history of a new cache the map and the list agree, no key is stored twice, the bound
  -- on the entries holds, and the list is ordered by expiry time, none of which lies further ahead
  -- of the clock than the cache's expiry.
  pub run-IsSound :
      (max_entries expiry now : ℕ) (calls : List (ℕ × Call K V))
      → IsSound (run (Lru.new max_entries expiry) now calls) (clock now calls)
  unfolding Lru.new entries
  run-IsSound m x now calls =
      run_keeps (Lru.new m x) now calls
        (record { valid = new-IsValid dec m x; within = tt; sorted = tt })
