-- ===== src/Lru/Entries.antt =====
-- The abstract view of lruttl/lruttl.go: a list of entries, most recently used first, with no
-- pointers and no map, and what each method does to it.
use mongobouncer.Base.Lists.{length}
use mongobouncer.Base.{ℕ, suc, ◌≡◌, refl, ap, Option, none, some, List, [], ◌∷◌, ◌≤◌, ite, arith}
use mongobouncer.Lru.Elements.{index, Distinct, index-find, unlink_absent, find-back}
use mongobouncer.Lru.{Entry, Element, find, unlink, back}

module _ {K V : Type 0} where
  unfoldable pub entries : List (Element K V) → List (Entry K V)
  entries [] = []
  entries (e ∷ es) = e.entry ∷ entries es

  unfoldable pub drop_last : List (Entry K V) → List (Entry K V)
  drop_last [] = []
  drop_last (e ∷ []) = []
  drop_last (e ∷ f ∷ l) = e ∷ drop_last (f ∷ l)

  -- The least recently used entry.
  unfoldable pub last : List (Entry K V) → Option (Entry K V)
  last [] = none
  last (e ∷ []) = some e
  last (e ∷ f ∷ l) = last (f ∷ l)

  pub length-entries : (es : List (Element K V)) → length (entries es) ≡ length es
  unfolding entries
  length-entries [] = refl
  length-entries (e ∷ es) = ap suc (length-entries es)

  pub last-entries :
      (es : List (Element K V))
      → last (entries es) ≡ elim (back es) [ none ↦ none | some e ↦ some e.entry ]
  unfolding last entries back
  last-entries [] = refl
  last-entries (e ∷ []) = refl
  last-entries (e ∷ f ∷ es) = last-entries (f ∷ es)

module _ {K V : Type 0} (dec : Discrete K) where
  unfoldable pub find_entry : K → List (Entry K V) → Option (Entry K V)
  find_entry k [] = none
  find_entry k (e ∷ l) = ite (dec k e.key) (some e) (find_entry k l)

  unfoldable pub without : K → List (Entry K V) → List (Entry K V)
  without k [] = []
  without k (e ∷ l) = let rest = without k l in ite (dec k e.key) rest (e ∷ rest)

  pub key-find_entry :
      (k : K) (l : List (Entry K V)) (e : Entry K V) → find_entry k l ≡ some e → e.key ≡ k
  unfolding find_entry
  key-find_entry k [] e h = absurd (ground arith)
  key-find_entry k (x ∷ l) e h = ground (arith, key-find_entry k l e)

  pub find_entry-without :
      (k q : K) (l : List (Entry K V))
      → find_entry q (without k l) ≡ ite (dec q k) none (find_entry q l)
  unfolding find_entry without
  find_entry-without k q [] = ground arith
  find_entry-without k q (e ∷ l) = ground (arith, find_entry-without k q l)

  pub without_absent : (k : K) (l : List (Entry K V)) → find_entry k l ≡ none → without k l ≡ l
  unfolding find_entry without
  without_absent k [] h = refl
  without_absent k (e ∷ l) h = ground (arith, without_absent k l)

  length-without-le : (k : K) (l : List (Entry K V)) → length (without k l) ≤ length l
  unfolding without
  length-without-le k [] = omega arith
  length-without-le k (e ∷ l) = ground (arith, length-without-le k l)

  pub find_entry-index :
      (k : K) (es : List (Element K V)) → index dec k es ≡ none → find_entry k (entries es) ≡ none
  unfolding find_entry entries index
  find_entry-index k [] h = refl
  find_entry-index k (e ∷ es) h = ground (arith, find_entry-index k es)

  pub find_entry-find :
      (i : ℕ) (es : List (Element K V)) (e : Element K V)
      → find i es ≡ some e
      → Distinct dec es
      → find_entry e.entry.key (entries es) ≡ some e.entry
  unfolding find_entry entries find index
  find_entry-find i [] e h d = absurd (ground arith)
  find_entry-find i (x ∷ es) e h d = ground (arith, find_entry-find i es e, index-find dec i es e)

  pub entries-unlink :
      (i : ℕ) (es : List (Element K V)) (e : Element K V)
      → find i es ≡ some e
      → Distinct dec es
      → entries (unlink i es) ≡ without e.entry.key (entries es)
  unfolding entries unlink without find index
  entries-unlink i [] e h d = absurd (ground arith)
  entries-unlink i (x ∷ es) e h d = ground (
    arith,
    entries-unlink i es e,
    unlink_absent i es,
    index-find dec i es e,
    find_entry-index x.entry.key es,
    without_absent x.entry.key (entries es),
  )

  pub entries-unlink-back :
      (es : List (Element K V)) (e : Element K V)
      → back es ≡ some e
      → Distinct dec es
      → entries (unlink e.id es) ≡ drop_last (entries es)
  unfolding entries unlink drop_last back find
  entries-unlink-back [] e h d = absurd (ground arith)
  entries-unlink-back (x ∷ []) e h d = ground arith
  entries-unlink-back (x ∷ y ∷ es) e h d =
      ground (arith, entries-unlink-back (y ∷ es) e h d.2, find-back dec (y ∷ es) e d.2 h)

  pub length-without :
      (k : K) (l : List (Entry K V)) (e : Entry K V)
      → find_entry k l ≡ some e
      → suc (length (without k l)) ≤ length l
  unfolding find_entry without
  length-without k [] e h = absurd (ground arith)
  length-without k (x ∷ l) e h = ground (arith, length-without k l e, length-without-le k l)
