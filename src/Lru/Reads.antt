-- ===== src/Lru/Reads.antt =====
-- What `Peek` of lruttl/lruttl.go reads after each method.
use mathlib.Core.List.{lookup}
use mongobouncer.Base.Lists.{length}
use mongobouncer.Base.{
  ℕ, zero, suc, ◌≡◌, refl, not, ◌&&◌, Option, none, some, List, [], ◌∷◌, ◌≢◌, ite, ltb, ◌==◌,
  if◌then◌else◌, arith, Option-cases, inl, inr,
}
use mongobouncer.Lru.Elements.{find-back}
use mongobouncer.Lru.Entries.{
  drop_last, last, find_entry, without, key-find_entry, find_entry-without, entries-unlink,
}
use mongobouncer.Lru.Invariant.{
  IsValid, get-IsValid, add-IsValid, remove-IsValid, remove_element-IsValid,
  remove_oldest_expired-IsValid,
}
use mongobouncer.Lru.Refine.{view, fit, peek-view, get-view, add-view, remove-view}
use mongobouncer.Lru.{
  Entry, Cache, new_entry, peek, get, add, remove, clear, element_at, Element, new, remove_element,
  find, back, remove_oldest_expired, expire_loop, expire_round,
}

module _ {K V : Type 0} (dec : Discrete K) where
  -- The value under a key in a list of entries.
  abbrev value_at : K → List (Entry K V) → Option V
  value_at k l = elim (find_entry dec k l) [ none ↦ none | some e ↦ some e.value ]

  -- The key that a bound pushes out of a list of entries.
  unfoldable pub pushed_out : ℕ → List (Entry K V) → Option K
  pushed_out m l =
      if not (m == 0) && ltb m (length l)
      then elim (last l) [ none ↦ none | some e ↦ some e.key ]
      else none

  find_entry-drop_last :
      (q : K) (l : List (Entry K V))
      → elim (last l) [ none ↦ none | some e ↦ some e.key ] ≢ some q
      → find_entry dec q (drop_last l) ≡ find_entry dec q l
  unfolding find_entry drop_last last
  find_entry-drop_last q [] h = refl
  find_entry-drop_last q (x ∷ []) h = ground arith
  find_entry-drop_last q (x ∷ y ∷ l) h = ground (arith, find_entry-drop_last q (y ∷ l) h)

  find_entry-fit :
      (q : K) (m : ℕ) (l : List (Entry K V))
      → pushed_out m l ≢ some q
      → find_entry dec q (fit m l) ≡ find_entry dec q l
  unfolding fit pushed_out
  find_entry-fit q m l h = ground (arith, find_entry-drop_last q l)

  find_entry-fit_head :
      (m : ℕ) (e : Entry K V) (l : List (Entry K V)) → find_entry dec e.key (fit m (e ∷ l)) ≡ some e
  unfolding fit find_entry drop_last
  find_entry-fit_head m e [] = ground arith
  find_entry-fit_head m e (f ∷ l) = ground arith

  find_entry-drop_last-some :
      (q : K) (l : List (Entry K V)) (e : Entry K V)
      → find_entry dec q (drop_last l) ≡ some e
      → find_entry dec q l ≡ some e
  unfolding find_entry drop_last
  find_entry-drop_last-some q [] e h = h
  find_entry-drop_last-some q (x ∷ []) e h = absurd (ground arith)
  find_entry-drop_last-some q (x ∷ y ∷ l) e h =
      ground (arith, find_entry-drop_last-some q (y ∷ l) e)

  find_entry-fit-some :
      (q : K) (m : ℕ) (l : List (Entry K V)) (e : Entry K V)
      → find_entry dec q (fit m l) ≡ some e
      → find_entry dec q l ≡ some e
  unfolding fit
  find_entry-fit-some q m l e h = ground (arith, find_entry-drop_last-some q l e)

  module _ (c : Cache K V) (v : IsValid dec c) where
    -- `Get` is not seen by later reads.
    pub peek-get : (k q : K) (now : ℕ) → peek dec (get dec c k now).0 q ≡ peek dec c q
    unfolding find_entry
    peek-get k q now = elim (Option-cases (find_entry dec k (view c))) [
      | inl p ↦ ground (
        arith,
        peek-view dec (get dec c k now).0 q (get-IsValid dec c k now v).linked,
        peek-view dec c q v.linked,
        (get-view dec c k now v.linked).1,
      )
      | inr (e, p) ↦ ground (
        arith,
        peek-view dec (get dec c k now).0 q (get-IsValid dec c k now v).linked,
        peek-view dec c q v.linked,
        (get-view dec c k now v.linked).1,
        find_entry-without dec k q (view c),
        key-find_entry dec k (view c) e p,
      )
    ]

    -- `Add` stores the value under the key, whatever the bound is.
    pub peek-add_self : (k : K) (x : V) (now : ℕ) → peek dec (add dec c k x now) k ≡ some x
    unfolding new_entry
    peek-add_self k x now =
        let l = without dec k (view c) in
        ground (
          arith,
          peek-view dec (add dec c k x now) k (add-IsValid dec c k x now v).linked,
          add-view dec c k x now v,
          find_entry-fit_head c.max_entries (new_entry k x c.expiry now) l,
        )

    -- `Add` keeps the value of every other key, but for the key that the bound pushes out.
    pub peek-add_ne :
        (k q : K) (x : V) (now : ℕ)
        → q ≢ k
        → pushed_out c.max_entries (new_entry k x c.expiry now ∷ without dec k (view c)) ≢ some q
        → peek dec (add dec c k x now) q ≡ peek dec c q
    unfolding new_entry find_entry
    peek-add_ne k q x now h out =
        let l = new_entry k x c.expiry now ∷ without dec k (view c) in
        ground (
          arith,
          peek-view dec (add dec c k x now) q (add-IsValid dec c k x now v).linked,
          peek-view dec c q v.linked,
          add-view dec c k x now v,
          find_entry-fit q c.max_entries l out,
          find_entry-without dec k q (view c),
        )

    pub peek-remove : (k q : K) → peek dec (remove dec c k) q ≡ ite (dec q k) none (peek dec c q)
    peek-remove k q = ground (
      arith,
      peek-view dec (remove dec c k) q (remove-IsValid dec c k v).linked,
      peek-view dec c q v.linked,
      remove-view dec c k v.linked,
      find_entry-without dec k q (view c),
    )

    -- What is read after `Add` is the new value or was there before.
    pub peek-add-some :
        (k q : K) (x y : V) (now : ℕ)
        → peek dec (add dec c k x now) q ≡ some y
        → ite (dec q k) (some x) (peek dec c q) ≡ some y
    unfolding new_entry find_entry
    peek-add-some k q x y now h =
        let l = new_entry k x c.expiry now ∷ without dec k (view c) in
        elim (Option-cases (find_entry dec q (fit c.max_entries l))) [
          | inl p ↦ absurd (
              ground (
                arith,
                peek-view dec (add dec c k x now) q (add-IsValid dec c k x now v).linked,
                add-view dec c k x now v,
              ))
          | inr (e, p) ↦ ground (
            arith,
            peek-view dec (add dec c k x now) q (add-IsValid dec c k x now v).linked,
            peek-view dec c q v.linked,
            add-view dec c k x now v,
            find_entry-fit-some q c.max_entries l e p,
            find_entry-without dec k q (view c),
          )
        ]

  pub peek-clear : (c : Cache K V) (q : K) → peek dec (clear c) q ≡ none
  unfolding peek clear element_at lookup
  peek-clear c q = refl

  peek-remove_element-some :
      (c : Cache K V) (e : Element K V) (q : K) (y : V)
      → IsValid dec c
      → find e.id c.ll ≡ some e
      → peek dec (remove_element dec c e) q ≡ some y
      → peek dec c q ≡ some y
  unfolding remove_element
  peek-remove_element-some c e q y v found h = ground (
    arith,
    peek-view dec (remove_element dec c e) q (remove_element-IsValid dec c e v found).linked,
    peek-view dec c q v.linked,
    entries-unlink dec e.id c.ll e found v.linked.distinct,
    find_entry-without dec e.entry.key q (view c),
  )

  peek-remove_oldest_expired-some :
      (c : Cache K V) (now : ℕ) (q : K) (y : V)
      → IsValid dec c
      → peek dec (remove_oldest_expired dec c now).0 q ≡ some y
      → peek dec c q ≡ some y
  unfolding remove_oldest_expired
  peek-remove_oldest_expired-some c now q y v h = elim (Option-cases (back c.ll)) [
    | inl p ↦ ground arith
    | inr (e, p) ↦
        let found = find-back dec c.ll e v.linked.distinct p in
        ground (arith, peek-remove_element-some c e q y v found)
  ]

  peek-expire_loop-some :
      (fuel : ℕ) (c : Cache K V) (now : ℕ) (q : K) (y : V)
      → IsValid dec c
      → peek dec (expire_loop dec fuel c now) q ≡ some y
      → peek dec c q ≡ some y
  unfolding expire_loop
  peek-expire_loop-some zero c now q y v h = h
  peek-expire_loop-some (suc fuel) c now q y v h =
      let c' = (remove_oldest_expired dec c now).0 in
      let v' = remove_oldest_expired-IsValid dec c now v in
      ground (
        arith,
        peek-expire_loop-some fuel c' now q y v',
        peek-remove_oldest_expired-some c now q y v,
      )

  -- The background expiry adds nothing.
  pub peek-expire_round-some :
      (c : Cache K V) (now : ℕ) (q : K) (y : V)
      → IsValid dec c
      → peek dec (expire_round dec c now) q ≡ some y
      → peek dec c q ≡ some y
  unfolding expire_round
  peek-expire_round-some c now q y v h =
      ground (arith, peek-expire_loop-some (suc (length c.ll)) c now q y v)

  pub peek-new :
      (max_entries expiry : ℕ) (q : K) → peek {V = V} dec (new max_entries expiry) q ≡ none
  unfolding peek new element_at lookup
  peek-new m x q = refl
