-- ===== src/Router/Changes.antt =====
-- What adding and removing a route of proxy/router.go changes for the names.
use mathlib.Core.List.{lookup}
use mongobouncer.Base.Affixes.{Free}
use mongobouncer.Base.Assoc.{put, lookup-put, lookup-delete, lookup-delete_self, lookup-put_self}
use mongobouncer.Base.Lists.{keep}
use mongobouncer.Base.Text.{Text, text_eq, text_discrete, has_prefix, contains, to_lower}
use mongobouncer.Base.{
  ℕ, ◌≡◌, refl, ◌≢◌, ite, Bool, true, false, not, Option, none, some, List, [], ◌∷◌, ◌++◌,
  if◌then◌else◌, arith,
}
use mongobouncer.Router.Patterns.{
  Shape, glob, accepts, classify-glob, matches_pattern-classify, contains-glob, is_star-glob,
  glob-ne,
}
use mongobouncer.Router.{
  DatabaseRouter, PatternRoute, star, is_star, classify, matches_pattern, first_match, resolve,
  add_route, remove_route,
}

contains-star : (p : Text) → is_star p ≡ true → contains p (star ∷ []) ≡ true
unfolding contains has_prefix
contains-star p h = elim (text_discrete p (star ∷ [])) [
  | yes e ↦ rw e refl
  | no n ↦ absurd (ground arith)
]

module _ {R : Type 0} where
  keep-append :
      (p : PatternRoute R → Bool) (prs : List (PatternRoute R)) (pr : PatternRoute R)
      → p pr ≡ true
      → keep p (prs ++ pr ∷ []) ≡ keep p prs ++ pr ∷ []
  keep-append p [] pr h = ground arith
  keep-append p (x ∷ prs) pr h = ground (arith, keep-append p prs pr h)

module _ {R : Type 0} (unicode_lower : ℕ → ℕ) (r : DatabaseRouter R) (config : R) where
  pattern_routes-remove_glob :
      (pattern : Text) (shape : Shape) (c : ℕ) (s : Text)
      → to_lower unicode_lower pattern ≡ glob shape (c ∷ s)
      → Free star (c ∷ s)
      → (remove_route
          (add_route unicode_lower r pattern config)
          (glob shape (c ∷ s))).pattern_routes
        ≡ keep (λ pr. not (text_eq pr.pattern (glob shape (c ∷ s)))) r.pattern_routes
          ++ classify (glob shape (c ∷ s)) config ∷ []
  unfolding add_route remove_route
  pattern_routes-remove_glob pattern shape c s e f =
      let pr = classify (glob shape (c ∷ s)) config in
      let stays = λ (q : PatternRoute R). not (text_eq q.pattern (glob shape (c ∷ s))) in
      rw (e, is_star-glob shape c s, contains-glob shape (c ∷ s))
        (keep-append stays r.pattern_routes pr
          (ground (arith, classify-glob shape c s config f, glob-ne shape (c ∷ s))))

  -- Removing a pattern with no star by the text that is stored for it takes its exact route away,
  -- whatever had been added for it before.
  pub lookup-remove_exact :
      (pattern : Text)
      → contains (to_lower unicode_lower pattern) (star ∷ []) ≡ false
      → lookup text_discrete
          (to_lower unicode_lower pattern)
          (remove_route
            (add_route unicode_lower r pattern config)
            (to_lower unicode_lower pattern)).routes
        ≡ none
  unfolding add_route remove_route
  lookup-remove_exact pattern h =
      let p = to_lower unicode_lower pattern in
      ground (
        arith,
        contains-star p,
        lookup-delete_self text_discrete p (put text_discrete p config r.routes),
      )

module _ {R : Type 0} (match_regexp : Text → Text → Option Bool) where
  first_match-append :
      (name : Text) (prs : List (PatternRoute R)) (pr : PatternRoute R)
      → first_match match_regexp name (prs ++ pr ∷ []) ≡ elim (first_match match_regexp name prs) [
        | some config ↦ some config
        | none ↦ if matches_pattern match_regexp name pr then some pr.route_config else none
      ]
  unfolding first_match
  first_match-append name [] pr = refl
  first_match-append name (x ∷ prs) pr = ground (arith, first_match-append name prs pr)

  module _ (unicode_lower : ℕ → ℕ) (r : DatabaseRouter R) (config : R) where
    -- Adding a pattern with no star routes exactly the names that are equal to it in lower case,
    -- and no other name is routed anew.
    pub resolve-add_exact :
        (pattern name : Text)
        → contains (to_lower unicode_lower pattern) (star ∷ []) ≡ false
        → resolve match_regexp (add_route unicode_lower r pattern config) name
          ≡ ite
              (text_discrete name (to_lower unicode_lower pattern))
              (some config)
              (resolve match_regexp r name)
    unfolding add_route resolve
    resolve-add_exact pattern name h =
        let p = to_lower unicode_lower pattern in
        ground (arith, contains-star p, lookup-put text_discrete p name config r.routes)

    -- Adding a pattern with its stars at the ends routes the names that it accepts, where no exact
    -- route and no earlier pattern matches; it comes before the wildcard route, and no other name
    -- is routed anew.
    pub resolve-add_glob :
        (pattern : Text) (shape : Shape) (c : ℕ) (s name : Text)
        → to_lower unicode_lower pattern ≡ glob shape (c ∷ s)
        → Free star (c ∷ s)
        → resolve match_regexp (add_route unicode_lower r pattern config) name
          ≡ elim (lookup text_discrete name r.routes) [
            | some exact ↦ some exact
            | none ↦ elim (first_match match_regexp name r.pattern_routes) [
              | some earlier ↦ some earlier
              | none ↦ if accepts shape (c ∷ s) name then some config else r.wildcard_route
            ]
          ]
    unfolding add_route resolve
    resolve-add_glob pattern shape c s name e f =
        let pr = classify (glob shape (c ∷ s)) config in
        rw (e, add_route)
          (ground (
            arith,
            is_star-glob shape c s,
            contains-glob shape (c ∷ s),
            first_match-append name r.pattern_routes pr,
            matches_pattern-classify match_regexp shape c s name config f,
            classify-glob shape c s config f,
          ))

    -- Adding "*" routes the names that have no route of their own, and no other.
    pub resolve-add_star :
        (name : Text)
        → to_lower unicode_lower (star ∷ []) ≡ star ∷ []
        → resolve match_regexp (add_route unicode_lower r (star ∷ []) config) name
          ≡ elim (lookup text_discrete name r.routes) [
            | some exact ↦ some exact
            | none ↦ elim (first_match match_regexp name r.pattern_routes) [
              | some earlier ↦ some earlier
              | none ↦ some config
            ]
          ]
    unfolding add_route resolve
    resolve-add_star name e = ground (arith, e)

    -- Removing a pattern with its stars at the ends, right after it was added, does not take its
    -- route away: it is stored by what stands between the stars, and removed by the whole.
    pub resolve-remove_glob :
        (pattern : Text) (shape : Shape) (c : ℕ) (s name : Text)
        → to_lower unicode_lower pattern ≡ glob shape (c ∷ s)
        → Free star (c ∷ s)
        → accepts shape (c ∷ s) name ≡ true
        → resolve match_regexp
            (remove_route (add_route unicode_lower r pattern config) (glob shape (c ∷ s)))
            name
          ≢ none
    unfolding resolve
    resolve-remove_glob pattern shape c s name e f h =
        let stays = λ (q : PatternRoute R). not (text_eq q.pattern (glob shape (c ∷ s))) in
        ground (
          arith,
          pattern_routes-remove_glob unicode_lower r config pattern shape c s e f,
          first_match-append name (keep stays r.pattern_routes)
              (classify (glob shape (c ∷ s)) config),
          matches_pattern-classify match_regexp shape c s name config f,
        )

    -- Removing a pattern with no star by the text that it was added by does not take its exact
    -- route away, where that text is not in lower case: the lowered name is still routed.
    resolve-remove_case :
        (pattern : Text)
        → contains (to_lower unicode_lower pattern) (star ∷ []) ≡ false
        → to_lower unicode_lower pattern ≢ pattern
        → resolve match_regexp
            (remove_route (add_route unicode_lower r pattern config) pattern)
            (to_lower unicode_lower pattern)
          ≡ some config
    unfolding add_route remove_route resolve
    resolve-remove_case pattern h n =
        let p = to_lower unicode_lower pattern in
        ground (
          arith,
          contains-star p,
          lookup-delete text_discrete pattern p (put text_discrete p config r.routes),
          lookup-put_self text_discrete p config r.routes,
        )
