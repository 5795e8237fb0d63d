-- ===== src/Lru/Expiry.antt =====
-- The background expiry of lruttl/lruttl.go: the list stays ordered by expiry time, so that a
-- round, which looks only at the back, drops exactly the expired entries.
use mongobouncer.Base.Lists.{length, keep}
use mongobouncer.Base.{
  ℕ, zero, suc, ◌-◌, ◌≡◌, refl, Bool, true, false, some, List, [], ◌∷◌, ◌≤◌, ◌<◌, leb, arith,
  Option-cases, Bool-cases, inl, inr,
}
use mongobouncer.Lru.Elements.{length-back-none}
use mongobouncer.Lru.Entries.{
  entries, drop_last, last, entries-unlink-back, last-entries, length-entries,
}
use mongobouncer.Lru.Invariant.{IsLinked, IsValid, remove_oldest_expired-IsValid}
use mongobouncer.Lru.Refine.{view}
use mongobouncer.Lru.{
  Entry, Element, Cache, expired, back, remove_element, remove_oldest_expired, oldest_expired,
  expire_loop, expire_round,
}

module _ {K V : Type 0} where
  -- No entry expires after the bound.
  abbrev pub Within : ℕ → List (Entry K V) → Type 0
  Within b [] = Unit {0}
  Within b (e ∷ l) = (e.expiry ≤ b) × Within b l

  -- Expiry times do not grow from the front to the back.
  abbrev pub Sorted : List (Entry K V) → Type 0
  Sorted [] = Unit {0}
  Sorted (e ∷ l) = Within e.expiry l × Sorted l

  abbrev alive : ℕ → Entry K V → Bool
  alive now e = leb now e.expiry

  pub Within-mono : (a b : ℕ) (l : List (Entry K V)) → a ≤ b → Within a l → Within b l
  Within-mono a b [] h w = tt
  Within-mono a b (e ∷ l) h w = (omega arith, Within-mono a b l h w.1)

  pub Within-drop_last : (b : ℕ) (l : List (Entry K V)) → Within b l → Within b (drop_last l)
  unfolding drop_last
  Within-drop_last b [] w = tt
  Within-drop_last b (e ∷ []) w = tt
  Within-drop_last b (e ∷ f ∷ l) w = (w.0, Within-drop_last b (f ∷ l) w.1)

  pub Sorted-drop_last : (l : List (Entry K V)) → Sorted l → Sorted (drop_last l)
  unfolding drop_last
  Sorted-drop_last [] s = tt
  Sorted-drop_last (e ∷ []) s = tt
  Sorted-drop_last (e ∷ f ∷ l) s =
      (Within-drop_last e.expiry (f ∷ l) s.0, Sorted-drop_last (f ∷ l) s.1)

  -- An expired back entry can go without loss.
  keep-drop_last :
      (now : ℕ) (l : List (Entry K V)) (e : Entry K V)
      → last l ≡ some e
      → expired e now ≡ true
      → keep (alive now) (drop_last l) ≡ keep (alive now) l
  unfolding last drop_last
  keep-drop_last now [] e h x = refl
  keep-drop_last now (f ∷ []) e h x = ground arith
  keep-drop_last now (f ∷ g ∷ l) e h x = ground (arith, keep-drop_last now (g ∷ l) e h x)

  -- Behind a back entry that is alive the whole list is.
  keep-alive :
      (now : ℕ) (l : List (Entry K V)) (e : Entry K V)
      → Sorted l
      → last l ≡ some e
      → expired e now ≡ false
      → (keep (alive now) l ≡ l) × ((b : ℕ) → Within b l → now ≤ b)
  unfolding last
  keep-alive now [] e s h x = absurd (ground arith)
  keep-alive now (f ∷ []) e s h x = (ground arith, λ b w. ground arith)
  keep-alive now (f ∷ g ∷ l) e s h x =
      let (kept, low) = keep-alive now (g ∷ l) e s.1 h x in
      (ground (arith, kept, low f.expiry s.0), λ b w. low b w.1)

  keep_none :
      (now : ℕ) (es : List (Element K V))
      → length es ≡ 0
      → keep (alive now) (entries es) ≡ entries es
  unfolding entries
  keep_none now [] h = refl
  keep_none now (e ∷ es) h = absurd (omega arith)

  length-last : (l : List (Entry K V)) (e : Entry K V) → last l ≡ some e → 0 < length l
  unfolding last
  length-last [] e h = absurd (ground arith)
  length-last (f ∷ l) e h = omega arith

  length-drop_last : (l : List (Entry K V)) → length (drop_last l) ≤ length l - 1
  unfolding drop_last
  length-drop_last [] = omega arith
  length-drop_last (e ∷ []) = omega arith
  length-drop_last (e ∷ f ∷ l) = omega (arith, length-drop_last (f ∷ l))

module _ {K V : Type 0} (dec : Discrete K) where
  -- What one call of `removeOldestExpired` does: it drops an expired back entry, or it finds
  -- nothing that is expired.
  data Outcome (c : Cache K V) (now : ℕ) : Type 0 where
    dropped :
        (remove_oldest_expired dec c now).1 ≡ true
        → view (remove_oldest_expired dec c now).0 ≡ drop_last (view c)
        → keep (alive now) (drop_last (view c)) ≡ keep (alive now) (view c)
        → 0 < length (view c)
        → Outcome c now
    settled :
        (remove_oldest_expired dec c now).1 ≡ false
        → view (remove_oldest_expired dec c now).0 ≡ view c
        → keep (alive now) (view c) ≡ view c
        → Outcome c now

  remove_oldest_expired-Outcome :
      (c : Cache K V) (now : ℕ) → IsLinked dec c → Sorted (view c) → Outcome c now
  unfolding remove_oldest_expired remove_element
  remove_oldest_expired-Outcome c now v s = elim (Option-cases (back c.ll)) [
    | inl p ↦
        let none_left = length-back-none c.ll p in
        settled (ground arith) (ground arith) (keep_none now c.ll none_left)
    | inr (e, p) ↦ elim (Bool-cases (expired e.entry now)) [
      | inl q ↦
          let at_back : last (view c) ≡ some e.entry = ground (arith, last-entries c.ll) in
          dropped (ground arith) (ground (arith, entries-unlink-back dec c.ll e p v.distinct))
            (keep-drop_last now (view c) e.entry at_back q) (length-last (view c) e.entry at_back)
      | inr q ↦
          let at_back : last (view c) ≡ some e.entry = ground (arith, last-entries c.ll) in
          settled (ground arith) (ground arith) (keep-alive now (view c) e.entry s at_back q).0
    ]
  ]

  expire_loop-view :
      (fuel : ℕ) (c : Cache K V) (now : ℕ)
      → IsValid dec c
      → Sorted (view c)
      → length (view c) < fuel
      → view (expire_loop dec fuel c now) ≡ keep (alive now) (view c)
  unfolding expire_loop
  expire_loop-view zero c now v s h = absurd (omega arith)
  expire_loop-view (suc fuel) c now v s h =
      let (c', _) = remove_oldest_expired dec c now in
      elim (remove_oldest_expired-Outcome c now v.linked s) [
        | dropped removed seen same more ↦ ground (
          arith,
          length-drop_last (view c),
          expire_loop-view fuel c' now (remove_oldest_expired-IsValid dec c now v)
              (rw seen (Sorted-drop_last (view c) s)),
        )
        | settled stopped seen same ↦ ground arith
      ]

  -- In a valid cache whose list is ordered by expiry time, a round of the background loop leaves
  -- exactly the entries that are not expired, in order.
  pub expire_round-view :
      (c : Cache K V) (now : ℕ)
      → IsValid dec c
      → Sorted (view c)
      → view (expire_round dec c now) ≡ keep (λ e. leb now e.expiry) (view c)
  unfolding expire_round oldest_expired
  expire_round-view c now v s = elim (Option-cases (back c.ll)) [
    | inl p ↦ ground (arith, keep_none now c.ll (length-back-none c.ll p))
    | inr (e, p) ↦
        let at_back : last (view c) ≡ some e.entry = ground (arith, last-entries c.ll) in
        elim (Bool-cases (expired e.entry now)) [
          | inl q ↦
              ground (arith, length-entries c.ll, expire_loop-view (suc (length c.ll)) c now v s)
          | inr q ↦ ground (arith, (keep-alive now (view c) e.entry s at_back q).0)
        ]
  ]
