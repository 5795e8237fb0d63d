-- ===== src/Lru/Elements.antt =====
-- The list of elements: what the pointers and the keys in it lead to.
use mongobouncer.Base.{
  ℕ, suc, ◌≡◌, refl, Option, none, some, List, [], ◌∷◌, ◌≤◌, ◌<◌, ite, arith, ℕ_discrete,
}
use mongobouncer.Base.Lists.{length}
use mongobouncer.Lru.{Element, find, unlink, back}

module _ {K V : Type 0} where
  pub find-unlink :
      (i j : ℕ) (es : List (Element K V))
      → find j (unlink i es) ≡ ite (ℕ_discrete j i) none (find j es)
  unfolding find unlink
  find-unlink i j [] = ground arith
  find-unlink i j (e ∷ es) = ground (arith, find-unlink i j es)

  pub unlink_absent : (i : ℕ) (es : List (Element K V)) → find i es ≡ none → unlink i es ≡ es
  unfolding find unlink
  unlink_absent i [] h = refl
  unlink_absent i (e ∷ es) h = ground (arith, unlink_absent i es)

  -- Every pointer in the list is below the next one to be given out.
  abbrev pub Below : ℕ → List (Element K V) → Type 0
  Below n [] = Unit {0}
  Below n (e ∷ es) = (e.id < n) × Below n es

  pub Below-suc : (n : ℕ) (es : List (Element K V)) → Below n es → Below (suc n) es
  Below-suc n [] b = tt
  Below-suc n (e ∷ es) b = (omega arith, Below-suc n es b.1)

  pub Below-unlink : (n i : ℕ) (es : List (Element K V)) → Below n es → Below n (unlink i es)
  unfolding unlink
  Below-unlink n i [] b = tt
  Below-unlink n i (e ∷ es) b = ground (arith, Below-unlink n i es)

  pub find_fresh : (n : ℕ) (es : List (Element K V)) → Below n es → find n es ≡ none
  unfolding find
  find_fresh n [] b = refl
  find_fresh n (e ∷ es) b = ground (arith, find_fresh n es)

  pub Below-find :
      (n i : ℕ) (es : List (Element K V)) (e : Element K V)
      → Below n es
      → find i es ≡ some e
      → i < n
  unfolding find
  Below-find n i [] e b h = absurd (ground arith)
  Below-find n i (x ∷ es) e b h = ground (arith, Below-find n i es e)

  pub length-back-none : (es : List (Element K V)) → back es ≡ none → length es ≡ 0
  unfolding back
  length-back-none [] h = refl
  length-back-none (x ∷ []) h = absurd (ground arith)
  length-back-none (x ∷ y ∷ es) h = absurd (ground (arith, length-back-none (y ∷ es)))

  pub id-find : (i : ℕ) (es : List (Element K V)) (e : Element K V) → find i es ≡ some e → e.id ≡ i
  unfolding find
  id-find i [] e h = absurd (ground arith)
  id-find i (x ∷ es) e h = ground (arith, id-find i es e)

  length-unlink-le : (i : ℕ) (es : List (Element K V)) → length (unlink i es) ≤ length es
  unfolding unlink
  length-unlink-le i [] = omega arith
  length-unlink-le i (x ∷ es) = ground (arith, length-unlink-le i es)

  pub length-unlink :
      (i : ℕ) (es : List (Element K V)) (e : Element K V)
      → find i es ≡ some e
      → suc (length (unlink i es)) ≤ length es
  unfolding find unlink
  length-unlink i [] e h = absurd (ground arith)
  length-unlink i (x ∷ es) e h = ground (arith, length-unlink i es e, length-unlink-le i es)

module _ {K V : Type 0} (dec : Discrete K) where
  -- The pointer to the first element with a key: what the map should hold for it.
  unfoldable pub index : K → List (Element K V) → Option ℕ
  index k [] = none
  index k (e ∷ es) = ite (dec k e.entry.key) (some e.id) (index k es)

  -- No two elements share a pointer or a key.
  abbrev pub Distinct : List (Element K V) → Type 0
  Distinct [] = Unit {0}
  Distinct (e ∷ es) = (find e.id es ≡ none) × (index e.entry.key es ≡ none) × Distinct es

  -- A key in the list leads to an element with that key.
  pub find-index :
      (k : K) (es : List (Element K V)) (i : ℕ)
      → Distinct es
      → index k es ≡ some i
      → (e : Element K V) × (find i es ≡ some e) × (e.entry.key ≡ k)
  unfolding find index
  find-index k [] i d h = absurd (ground arith)
  find-index k (x ∷ es) i d h = elim (dec k x.entry.key) [
    | yes p ↦ (x, ground arith, ground arith)
    | no p ↦ let (e, found, key) = find-index k es i d.2 (ground arith) in (e, ground arith, key)
  ]

  pub index-find :
      (i : ℕ) (es : List (Element K V)) (e : Element K V)
      → find i es ≡ some e
      → Distinct es
      → index e.entry.key es ≡ some i
  unfolding find index
  index-find i [] e h d = absurd (ground arith)
  index-find i (x ∷ es) e h d = ground (arith, index-find i es e)

  pub index-unlink :
      (i : ℕ) (q : K) (es : List (Element K V)) (e : Element K V)
      → find i es ≡ some e
      → Distinct es
      → index q (unlink i es) ≡ ite (dec q e.entry.key) none (index q es)
  unfolding find index unlink
  index-unlink i q [] e h d = absurd (ground arith)
  index-unlink i q (x ∷ es) e h d =
      ground (arith, index-unlink i q es e, unlink_absent i es, index-find i es e)

  index-unlink-none :
      (i : ℕ) (q : K) (es : List (Element K V)) → index q es ≡ none → index q (unlink i es) ≡ none
  unfolding index unlink
  index-unlink-none i q [] h = refl
  index-unlink-none i q (x ∷ es) h = ground (arith, index-unlink-none i q es)

  pub unlink-Distinct : (i : ℕ) (es : List (Element K V)) → Distinct es → Distinct (unlink i es)
  unfolding unlink
  unlink-Distinct i [] d = tt
  unlink-Distinct i (x ∷ es) d =
      ground
        (arith, unlink-Distinct i es, find-unlink i x.id es, index-unlink-none i x.entry.key es)

  pub find-back :
      (es : List (Element K V)) (e : Element K V)
      → Distinct es
      → back es ≡ some e
      → find e.id es ≡ some e
  unfolding find back
  find-back [] e d h = absurd (ground arith)
  find-back (x ∷ []) e d h = ground arith
  find-back (x ∷ y ∷ es) e d h = ground (arith, find-back (y ∷ es) e d.2)
