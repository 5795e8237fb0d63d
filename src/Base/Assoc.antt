-- ===== src/Base/Assoc.antt =====
-- Go's maps as association lists over a key with a decidable equality, read by the library's
-- `lookup`. The order of the entries is the one in which the keys came.
use Prim.Native.Nat.{◌+◌, ◌≤◌}
use mathlib.Core.Path.{◌≡◌, refl}
use mathlib.Core.Logic.{◌≢◌, ite, inl, inr}
use mathlib.Core.Bool.{Bool, true, false}
use mathlib.Core.Option.{none, some}
use mathlib.Core.List.{List, [], ◌∷◌, lookup}
use native.Mathlib.Omega.{arith}
use mongobouncer.Base.Lists.{length}
use mongobouncer.Base.Tests.{Option-cases}

elem {ℓ} : {K : Type ℓ} → Discrete K → K → List K → Bool
elem dec k [] = false
elem dec k (j ∷ js) = elim (dec k j) [ yes _ ↦ true | no _ ↦ elem dec k js ]

module _ {ℓ} {K V : Type ℓ} (dec : Discrete K) where
  -- `m[k] = v`
  unfoldable pub put : K → V → List (K × V) → List (K × V)
  put k v [] = (k, v) ∷ []
  put k v ((j, w) ∷ l) = ite (dec k j) ((k, v) ∷ l) ((j, w) ∷ put k v l)

  -- `delete(m, k)`
  unfoldable pub delete : K → List (K × V) → List (K × V)
  delete k [] = []
  delete k ((j, w) ∷ l) = let rest = delete k l in ite (dec k j) rest ((j, w) ∷ rest)

  pub lookup-put :
      (k q : K) (v : V) (l : List (K × V))
      → lookup dec q (put k v l) ≡ ite (dec q k) (some v) (lookup dec q l)
  unfolding lookup put
  lookup-put k q v [] = refl
  lookup-put k q v ((j, w) ∷ l) = ground (arith, lookup-put k q v l)

  pub lookup-put_self : (k : K) (v : V) (l : List (K × V)) → lookup dec k (put k v l) ≡ some v
  lookup-put_self k v l = ground (arith, lookup-put k k v l)

  pub lookup-put_ne :
      (k q : K) (v : V) (l : List (K × V)) → q ≢ k → lookup dec q (put k v l) ≡ lookup dec q l
  lookup-put_ne k q v l h = ground (arith, lookup-put k q v l)

  pub lookup-delete :
      (k q : K) (l : List (K × V)) → lookup dec q (delete k l) ≡ ite (dec q k) none (lookup dec q l)
  unfolding lookup delete
  lookup-delete k q [] = ground arith
  lookup-delete k q ((j, w) ∷ l) = ground (arith, lookup-delete k q l)

  pub lookup-delete_self : (k : K) (l : List (K × V)) → lookup dec k (delete k l) ≡ none
  lookup-delete_self k l = ground (arith, lookup-delete k k l)

  pub lookup-delete_ne :
      (k q : K) (l : List (K × V)) → q ≢ k → lookup dec q (delete k l) ≡ lookup dec q l
  lookup-delete_ne k q l h = ground (arith, lookup-delete k q l)

  pub length-put-le : (k : K) (v : V) (l : List (K × V)) → length (put k v l) ≤ length l + 1
  unfolding put
  length-put-le k v [] = omega arith
  length-put-le k v ((j, w) ∷ l) = ground (arith, length-put-le k v l)

  pub length-put_present :
      (k : K) (v w : V) (l : List (K × V)) → lookup dec k l ≡ some w → length (put k v l) ≡ length l
  unfolding lookup put
  length-put_present k v w [] h = absurd (ground arith)
  length-put_present k v w ((j, u) ∷ l) h = ground (arith, length-put_present k v w l)

  pub length-delete-le : (k : K) (l : List (K × V)) → length (delete k l) ≤ length l
  unfolding delete
  length-delete-le k [] = omega arith
  length-delete-le k ((j, w) ∷ l) = ground (arith, length-delete-le k l)

  -- No key stands twice, as in a map.
  abbrev pub Unique : List (K × V) → Type ℓ
  Unique [] = Unit
  Unique ((j, w) ∷ l) = (lookup dec j l ≡ none) × Unique l

  pub put-Unique : (k : K) (v : V) (l : List (K × V)) → Unique l → Unique (put k v l)
  unfolding lookup put
  put-Unique k v [] u = (refl, tt)
  put-Unique k v ((j, w) ∷ l) u = ground (arith, put-Unique k v l u.1, lookup-put k j v l)

  pub delete-Unique : (k : K) (l : List (K × V)) → Unique l → Unique (delete k l)
  unfolding delete
  delete-Unique k [] u = tt
  delete-Unique k ((j, w) ∷ l) u = ground (arith, delete-Unique k l u.1, lookup-delete k j l)

  -- `for _, k := range keys { delete(m, k) }`
  unfoldable pub delete_all : List K → List (K × V) → List (K × V)
  delete_all [] l = l
  delete_all (k ∷ ks) l = delete_all ks (delete k l)

  pub delete_all-Unique : (ks : List K) (l : List (K × V)) → Unique l → Unique (delete_all ks l)
  unfolding delete_all
  delete_all-Unique [] l u = u
  delete_all-Unique (k ∷ ks) l u = delete_all-Unique ks (delete k l) (delete-Unique k l u)

  pub length-delete_all-le : (ks : List K) (l : List (K × V)) → length (delete_all ks l) ≤ length l
  unfolding delete_all
  length-delete_all-le [] l = omega arith
  length-delete_all-le (k ∷ ks) l =
      omega (arith, length-delete_all-le ks (delete k l), length-delete-le k l)

  -- `for k, v := range m { if p(v) { keys = append(keys, k) } }`
  unfoldable pub keys_where : (V → Bool) → List (K × V) → List K
  keys_where p [] = []
  keys_where p ((j, w) ∷ l) =
      let rest = keys_where p l in elim (p w) [ true ↦ j ∷ rest | false ↦ rest ]

  lookup-delete_all :
      (ks : List K) (q : K) (l : List (K × V))
      → lookup dec q (delete_all ks l)
        ≡ elim (elem dec q ks) [ true ↦ none | false ↦ lookup dec q l ]
  unfolding delete_all elem
  lookup-delete_all [] q l = refl
  lookup-delete_all (k ∷ ks) q l =
      ground (arith, lookup-delete_all ks q (delete k l), lookup-delete k q l)

  elem-keys_where-none :
      (p : V → Bool) (q : K) (l : List (K × V))
      → lookup dec q l ≡ none
      → elem dec q (keys_where p l) ≡ false
  unfolding lookup keys_where elem
  elem-keys_where-none p q [] h = refl
  elem-keys_where-none p q ((j, w) ∷ l) h = ground (arith, elem-keys_where-none p q l)

  elem-keys_where :
      (p : V → Bool) (q : K) (v : V) (l : List (K × V))
      → Unique l
      → lookup dec q l ≡ some v
      → elem dec q (keys_where p l) ≡ p v
  unfolding lookup keys_where elem
  elem-keys_where p q v [] u h = absurd (ground arith)
  elem-keys_where p q v ((j, w) ∷ l) u h =
      ground (arith, elem-keys_where p q v l u.1, elem-keys_where-none p j l u.0)

  -- To collect the keys of some values and delete them takes out exactly those values.
  pub lookup-delete_where :
      (p : V → Bool) (q : K) (l : List (K × V))
      → Unique l
      → lookup dec q (delete_all (keys_where p l) l) ≡ elim (lookup dec q l) [
        | none ↦ none
        | some v ↦ elim (p v) [ true ↦ none | false ↦ some v ]
      ]
  lookup-delete_where p q l u = elim (Option-cases (lookup dec q l)) [
    | inl e ↦ ground (arith, lookup-delete_all (keys_where p l) q l, elem-keys_where-none p q l e)
    | inr (v, e) ↦
        ground (arith, lookup-delete_all (keys_where p l) q l, elem-keys_where p q v l u e)
  ]
