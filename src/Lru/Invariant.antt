-- ===== src/Lru/Invariant.antt =====
-- The map and the list of lruttl/lruttl.go agree, and every method keeps it so.
use mathlib.Core.List.{lookup}
use mongobouncer.Base.Assoc.{lookup-put, lookup-delete}
use mongobouncer.Base.Lists.{length}
use mongobouncer.Base.{
  ℕ, zero, suc, ◌-◌, ◌≡◌, refl, none, some, ◌≤◌, ◌<◌, inl, inr, arith, Option-cases, Bool-cases,
}
use mongobouncer.Lru.Elements.{
  index, Distinct, Below, find-index, index-find, index-unlink, find-unlink, unlink-Distinct,
  Below-suc, Below-unlink, find_fresh, Below-find, id-find, length-unlink, length-back-none,
  find-back,
}
use mongobouncer.Lru.{
  Element, Cache, new, over_full, find, move_to_front, back, clear, element_at, remove_element,
  remove_oldest, remove_oldest_expired, get, push_new, evict, add, expired, remove, expire_loop,
  expire_round,
}

module _ {K V : Type 0} (dec : Discrete K) where
  -- The map holds for each key the pointer to the list's element with that key, if there is one.
  pub record IsLinked (c : Cache K V) : Type 0 where
    pub distinct : Distinct dec c.ll
    pub agrees : (k : K) → lookup dec k c.cache ≡ index dec k c.ll
    pub fresh : Below c.next_id c.ll

  pub record IsValid (c : Cache K V) : Type 0 where
    pub linked : IsLinked c
    pub bounded : 0 < c.max_entries → length c.ll ≤ c.max_entries

  pub element_at-find :
      (c : Cache K V) (k : K) (e : Element K V)
      → IsLinked c
      → element_at dec c k ≡ some e
      → (find e.id c.ll ≡ some e) × (e.entry.key ≡ k)
  unfolding element_at
  element_at-find c k e v h = elim (Option-cases (index dec k c.ll)) [
    | inl q ↦ absurd (ground (arith, v.agrees k))
    | inr (i, q) ↦
        let (f, found, key) = find-index dec k c.ll i v.distinct q in
        ground (arith, v.agrees k, id-find i c.ll f found)
  ]

  pub element_at-none :
      (c : Cache K V) (k : K) → IsLinked c → element_at dec c k ≡ none → index dec k c.ll ≡ none
  unfolding element_at
  element_at-none c k v h = elim (Option-cases (index dec k c.ll)) [
    | inl q ↦ q
    | inr (i, q) ↦
        let (f, found, key) = find-index dec k c.ll i v.distinct q in
        absurd (ground (arith, v.agrees k))
  ]

  -- An element moved to the front with a new value and time.
  pub front-IsLinked :
      (c : Cache K V) (e e' : Element K V)
      → IsLinked c
      → find e.id c.ll ≡ some e
      → e'.id ≡ e.id
      → e'.entry.key ≡ e.entry.key
      → IsLinked (record c { ll = move_to_front e' c.ll })
  unfolding move_to_front index
  front-IsLinked c e e' v h p q = record {
    distinct = ground (
      arith,
      find-unlink e'.id e'.id c.ll,
      index-unlink dec e'.id e'.entry.key c.ll e,
      unlink-Distinct dec e'.id c.ll,
    );
    agrees = λ k.
        ground (arith, v.agrees k, index-unlink dec e'.id k c.ll e, index-find dec e.id c.ll e);
    fresh = ground (arith, Below-unlink c.next_id e'.id c.ll, Below-find c.next_id e.id c.ll e);
  }

  pub remove_element-IsLinked :
      (c : Cache K V) (e : Element K V)
      → IsLinked c
      → find e.id c.ll ≡ some e
      → IsLinked (remove_element dec c e)
  unfolding remove_element
  remove_element-IsLinked c e v h = record {
    distinct = unlink-Distinct dec e.id c.ll v.distinct;
    agrees = λ k. ground (
      arith,
      v.agrees k,
      lookup-delete dec e.entry.key k c.cache,
      index-unlink dec e.id k c.ll e,
    );
    fresh = Below-unlink c.next_id e.id c.ll v.fresh;
  }

  pub push_new-IsLinked :
      (c : Cache K V) (k : K) (x : V) (now : ℕ)
      → IsLinked c
      → index dec k c.ll ≡ none
      → IsLinked (push_new dec c k x now)
  unfolding push_new index
  push_new-IsLinked c k x now v h = record {
    distinct = ground (arith, find_fresh c.next_id c.ll);
    agrees = λ q. ground (arith, v.agrees q, lookup-put dec k q c.next_id c.cache);
    fresh = ground (arith, Below-suc c.next_id c.ll);
  }

  pub new-IsValid : (max_entries expiry : ℕ) → IsValid (new max_entries expiry)
  unfolding new index lookup
  new-IsValid m x = record {
    linked = record { distinct = tt; agrees = λ k. refl; fresh = tt };
    bounded = λ h. omega arith;
  }

  pub clear-IsValid : (c : Cache K V) → IsValid (clear c)
  unfolding clear index lookup
  clear-IsValid c = record {
    linked = record { distinct = tt; agrees = λ k. refl; fresh = tt };
    bounded = λ h. omega arith;
  }

  module _ (c : Cache K V) where
    pub remove_element-IsValid :
        (e : Element K V) → IsValid c → find e.id c.ll ≡ some e → IsValid (remove_element dec c e)
    unfolding remove_element
    remove_element-IsValid e v h = record {
      linked = remove_element-IsLinked c e v.linked h;
      bounded = λ m. omega (arith, v.bounded m, length-unlink e.id c.ll e h);
    }

    front-IsValid :
        (e e' : Element K V)
        → IsValid c
        → find e.id c.ll ≡ some e
        → e'.id ≡ e.id
        → e'.entry.key ≡ e.entry.key
        → IsValid (record c { ll = move_to_front e' c.ll })
    unfolding move_to_front
    front-IsValid e e' v h p q = record {
      linked = front-IsLinked c e e' v.linked h p q;
      bounded = λ m. ground (arith, v.bounded m, length-unlink e.id c.ll e);
    }

    pub get-IsValid : (k : K) (now : ℕ) → IsValid c → IsValid (get dec c k now).0
    unfolding get
    get-IsValid k now v = elim (Option-cases (element_at dec c k)) [
      | inl p ↦ rw (p, get) v
      | inr (e, p) ↦
          let (found, _) = element_at-find c k e v.linked p in
          rw (p, get) (front-IsValid e _ v found refl refl)
    ]

    pub remove-IsValid : (k : K) → IsValid c → IsValid (remove dec c k)
    unfolding remove
    remove-IsValid k v = elim (Option-cases (element_at dec c k)) [
      | inl p ↦ rw (p, remove) v
      | inr (e, p) ↦
          rw (p, remove) (remove_element-IsValid e v (element_at-find c k e v.linked p).0)
    ]

    remove_oldest-IsLinked : IsLinked c → IsLinked (remove_oldest dec c).0
    unfolding remove_oldest
    remove_oldest-IsLinked v = elim (Option-cases (back c.ll)) [
      | inl p ↦ rw (p, remove_oldest) v
      | inr (e, p) ↦
          rw (p, remove_oldest) (remove_element-IsLinked c e v (find-back dec c.ll e v.distinct p))
    ]

    length-remove_oldest : IsLinked c → length (remove_oldest dec c).0.ll ≤ length c.ll - 1
    unfolding remove_oldest remove_element
    length-remove_oldest v = elim (Option-cases (back c.ll)) [
      | inl p ↦ rw (p, remove_oldest) (omega (arith, length-back-none c.ll p))
      | inr (e, p) ↦
          rw (p, remove_oldest)
            (omega (arith, length-unlink e.id c.ll e (find-back dec c.ll e v.distinct p)))
    ]

    max_entries-remove_oldest : (remove_oldest dec c).0.max_entries ≡ c.max_entries
    unfolding remove_oldest remove_element
    max_entries-remove_oldest = ground arith

    evict-IsValid :
        IsLinked c → (0 < c.max_entries → length c.ll ≤ suc c.max_entries) → IsValid (evict dec c)
    unfolding evict
    evict-IsValid v h = elim (Bool-cases (over_full c)) [
      | inl p ↦
          rw (p, evict)
            (record {
              linked = remove_oldest-IsLinked v;
              bounded = λ m. ground (arith, h, length-remove_oldest v, max_entries-remove_oldest);
            })
      | inr p ↦ rw (p, evict) (record { linked = v; bounded = λ m. ground arith })
    ]

  module _ (c : Cache K V) where
    pub add-IsValid : (k : K) (x : V) (now : ℕ) → IsValid c → IsValid (add dec c k x now)
    unfolding add push_new
    add-IsValid k x now v = elim (Option-cases (element_at dec c k)) [
      | inl p ↦
          rw (p, add)
            (evict-IsValid (push_new dec c k x now)
              (push_new-IsLinked c k x now v.linked (element_at-none c k v.linked p))
              (λ m. ground (arith, v.bounded)))
      | inr (e, p) ↦
          rw (p, add) (front-IsValid c e _ v (element_at-find c k e v.linked p).0 refl refl)
    ]

    pub remove_oldest_expired-IsValid :
        (now : ℕ) → IsValid c → IsValid (remove_oldest_expired dec c now).0
    unfolding remove_oldest_expired
    remove_oldest_expired-IsValid now v = elim (Option-cases (back c.ll)) [
      | inl p ↦ rw (p, remove_oldest_expired) v
      | inr (e, p) ↦
          rw (p, remove_oldest_expired)
            (elim (Bool-cases (expired e.entry now)) [
              | inl q ↦
                  rw q (remove_element-IsValid c e v (find-back dec c.ll e v.linked.distinct p))
              | inr q ↦ rw q v
            ])
    ]

  expire_loop-IsValid :
      (fuel : ℕ) (c : Cache K V) (now : ℕ) → IsValid c → IsValid (expire_loop dec fuel c now)
  unfolding expire_loop
  expire_loop-IsValid zero c now v = v
  expire_loop-IsValid (suc fuel) c now v = elim (Bool-cases (remove_oldest_expired dec c now).1) [
    | inl p ↦
        rw (p, expire_loop) (expire_loop-IsValid fuel _ now (remove_oldest_expired-IsValid c now v))
    | inr p ↦ rw (p, expire_loop) (remove_oldest_expired-IsValid c now v)
  ]

  pub expire_round-IsValid :
      (c : Cache K V) (now : ℕ) → IsValid c → IsValid (expire_round dec c now)
  unfolding expire_round
  expire_round-IsValid c now v = ground (arith, expire_loop-IsValid (suc (length c.ll)) c now v)
