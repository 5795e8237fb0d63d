-- ===== src/Router/Tests.antt =====
-- proxy/router.go at concrete routers, with no letters beyond ASCII and a matcher that finds nothing.
use mathlib.Core.List.{lookup}
use mongobouncer.Base.Affixes.{Free}
use mongobouncer.Base.Text.{Text, codes, text_discrete, to_lower, has_prefix}
use mongobouncer.Base.{
  ℕ, ◌≡◌, refl, ◌≢◌, Bool, false, Option, none, some, List, [], ◌∷◌, if◌then◌else◌, arith,
}
use mongobouncer.Router.{
  DatabaseRouter, star, new_database_router, first_match, resolve, add_route, remove_route,
  get_route,
}
use mongobouncer.Router.Changes.{resolve-add_glob, resolve-remove_glob}
use mongobouncer.Router.Histories.{Call, adds, gets, removes, run, get_route-run}
use mongobouncer.Router.Patterns.{ends, glob, accepts}

abbrev ascii : ℕ → ℕ
ascii c = c

abbrev no_match : Text → Text → Option Bool
no_match pattern text = some false

abbrev calls : List (ℕ × Call ℕ)
calls =
    (1, adds (codes "Sales") 7)
    ∷ (2, gets (codes "SALES"))
    ∷ (3, adds (codes "test_*") 8)
    ∷ (4, removes (codes "sales"))
    ∷ []

abbrev router : DatabaseRouter ℕ
router = run ascii no_match new_database_router calls

get_route-run_example :
    (get_route ascii no_match router (codes "SALES") 9).1
    ≡ resolve no_match router (to_lower ascii (codes "SALES"))
get_route-run_example = get_route-run ascii no_match calls (codes "SALES") 9

abbrev pattern : Text
pattern = codes "Abc"

abbrev free : Free star (codes "ab")
free = (λ e. omega arith, (λ e. omega arith, tt))

resolve-add_glob_example :
    resolve no_match (add_route ascii router (codes "AB*") 5) (codes "abc")
    ≡ elim (lookup text_discrete (codes "abc") router.routes) [
      | some exact ↦ some exact
      | none ↦ elim (first_match no_match (codes "abc") router.pattern_routes) [
        | some earlier ↦ some earlier
        | none ↦ if accepts ends (codes "ab") (codes "abc") then some 5 else router.wildcard_route
      ]
    ]
unfolding to_lower glob
resolve-add_glob_example =
    resolve-add_glob no_match ascii router 5 (codes "AB*") ends b'a' (b'b' ∷ []) (codes "abc") refl
      free

resolve-remove_glob_example :
    resolve no_match
      (remove_route (add_route ascii router (codes "AB*") 5) (codes "ab*"))
      (codes "abc")
    ≢ none
unfolding to_lower glob accepts has_prefix
resolve-remove_glob_example =
    resolve-remove_glob no_match ascii router 5 (codes "AB*") ends b'a' (b'b' ∷ []) (codes "abc")
      refl free refl
