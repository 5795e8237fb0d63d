-- ===== src/Router/Histories.antt =====
-- Histories of the router of proxy/router.go: any calls, with the cache's expiry in between.
use mongobouncer.Base.Text.{Text, to_lower}
use mongobouncer.Base.{ℕ, ◌≡◌, Bool, Option, List, [], ◌∷◌}
use mongobouncer.Router.Coherence.{
  IsCoherent, new_database_router-IsCoherent, remove_route-IsCoherent, add_route-IsCoherent,
  get_route-resolve, expire, expire-IsCoherent,
}
use mongobouncer.Router.{
  DatabaseRouter, new_database_router, resolve, add_route, remove_route, get_route,
}

pub data Call (R : Type 0) : Type 0 where
  adds : Text → R → Call R
  removes : Text → Call R
  gets : Text → Call R
  expires : Call R

module _ {R : Type 0} (unicode_lower : ℕ → ℕ) (match_regexp : Text → Text → Option Bool) where
  unfoldable pub step : DatabaseRouter R → ℕ → Call R → DatabaseRouter R
  step r now (adds pattern config) = add_route unicode_lower r pattern config
  step r now (removes pattern) = remove_route r pattern
  step r now (gets database_name) = (get_route unicode_lower match_regexp r database_name now).0
  step r now expires = expire r now

  unfoldable pub run : DatabaseRouter R → List (ℕ × Call R) → DatabaseRouter R
  run r [] = r
  run r ((now, call) ∷ calls) = run (step r now call) calls

  step-IsCoherent :
      (r : DatabaseRouter R) (now : ℕ) (call : Call R)
      → IsCoherent match_regexp r
      → IsCoherent match_regexp (step r now call)
  unfolding step
  step-IsCoherent r now (adds pattern config) v =
      add_route-IsCoherent match_regexp unicode_lower r pattern config
  step-IsCoherent r now (removes pattern) v = remove_route-IsCoherent match_regexp r pattern
  step-IsCoherent r now (gets database_name) v =
      (get_route-resolve match_regexp unicode_lower r database_name now v).1
  step-IsCoherent r now expires v = expire-IsCoherent match_regexp r now v

  pub run-IsCoherent :
      (r : DatabaseRouter R) (calls : List (ℕ × Call R))
      → IsCoherent match_regexp r
      → IsCoherent match_regexp (run r calls)
  unfolding run
  run-IsCoherent r [] v = v
  run-IsCoherent r ((now, call) ∷ calls) v =
      run-IsCoherent (step r now call) calls (step-IsCoherent r now call v)

  -- After any history of a new router, `GetRoute` answers what the current tables give for the
  -- lowered name: the cache is not seen, whatever was looked up, added and removed before.
  pub get_route-run :
      (calls : List (ℕ × Call R)) (database_name : Text) (now : ℕ)
      → (get_route unicode_lower match_regexp (run new_database_router calls) database_name now).1
        ≡ resolve match_regexp
            (run new_database_router calls)
            (to_lower unicode_lower database_name)
  get_route-run calls database_name now =
      (get_route-resolve match_regexp unicode_lower (run new_database_router calls) database_name
        now
        (run-IsCoherent new_database_router calls (new_database_router-IsCoherent match_regexp))).0
