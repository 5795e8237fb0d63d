-- ===== src/Router.antt =====
-- proxy/router.go: the routing of database names. `R` stands for pointers to route configurations,
-- which the router hands around and, but for labels in log lines, never looks into;
-- `unicode_lower` is the table that `strings.ToLower` uses beyond ASCII, and `match_regexp` is
-- `regexp.MatchString`, with `none` for an error. `now` is the time that the cache reads.
pub mod Coherence
pub mod Histories
pub mod Patterns
pub mod Changes
mod Tests
use mathlib.Core.List.{lookup}
use mongobouncer.Base.Assoc.{put, delete}
use mongobouncer.Base.Lists.{length, keep}
use mongobouncer.Base.Text.{
  Text, text_discrete, text_eq, codes, has_prefix, has_suffix, contains, trim, trim_prefix,
  trim_suffix, to_lower,
}
use mongobouncer.Base.{
  ℕ, Bool, true, false, not, ◌&&◌, Option, none, some, List, [], ◌∷◌, ◌++◌, ◌==◌, if◌then◌else◌,
}
use mongobouncer.Lru
use mongobouncer.Lru.{Cache}

pub data PatternType : Type 0 where
  exact_match prefix_match suffix_match contains_match wildcard_match : PatternType

pub record PatternRoute (R : Type 0) : Type 0 where
  pub pattern : Text
  pub pattern_type : PatternType
  pub route_config : R

pub record DatabaseRouter (R : Type 0) : Type 0 where
  pub routes : List (Text × R)
  pub wildcard_route : Option R
  pub pattern_routes : List (PatternRoute R)
  pub route_cache : Cache Text R

abbrev pub star : ℕ
star = b'*'

abbrev pub is_star : Text → Bool
is_star p = text_eq p (star ∷ [])

-- 5 * time.Minute
abbrev pub cache_expiry : ℕ
cache_expiry = 300_000_000_000

-- What a rebuilt regular expression is: "^" + strings.ReplaceAll(pattern, "*", ".*") + "$".
unfoldable pub expand_stars : Text → Text
expand_stars [] = []
expand_stars (c ∷ s) =
    let rest = expand_stars s in if c == star then b'.' ∷ star ∷ rest else c ∷ rest

module _ {R : Type 0} where
  pub new_database_router : DatabaseRouter R
  new_database_router = record {
    routes = [];
    wildcard_route = none;
    pattern_routes = [];
    route_cache = Lru.new 1000 cache_expiry;
  }

  -- The pattern route for a normalized pattern that contains a star.
  pub classify : Text → R → PatternRoute R
  classify p config =
      if has_prefix p (star ∷ []) && has_suffix p (star ∷ [])
      then record { pattern = trim star p; pattern_type = contains_match; route_config = config }
      else if has_prefix p (star ∷ [])
      then record {
        pattern = trim_prefix star p;
        pattern_type = suffix_match;
        route_config = config;
      }
      else if has_suffix p (star ∷ [])
      then record {
        pattern = trim_suffix star p;
        pattern_type = prefix_match;
        route_config = config;
      }
      else record { pattern = p; pattern_type = wildcard_match; route_config = config }

  pub remove_route : DatabaseRouter R → Text → DatabaseRouter R
  remove_route r pattern =
      let cleared = record r { route_cache = Lru.clear r.route_cache } in
      if is_star pattern then record cleared { wildcard_route = none } else record cleared {
        routes = delete text_discrete pattern r.routes;
        pattern_routes = keep (λ pr. not (text_eq pr.pattern pattern)) r.pattern_routes;
      }

  -- The key under which a pattern route is listed.
  pub display : PatternRoute R → Text
  display pr = elim pr.pattern_type [
    | prefix_match ↦ pr.pattern ++ star ∷ []
    | suffix_match ↦ star ∷ pr.pattern
    | contains_match ↦ star ∷ pr.pattern ++ star ∷ []
    | _ ↦ pr.pattern
  ]

  pub add_patterns : List (PatternRoute R) → List (Text × R) → List (Text × R)
  add_patterns [] result = result
  add_patterns (pr ∷ prs) result =
      add_patterns prs (put text_discrete (display pr) pr.route_config result)

  pub get_all_routes : DatabaseRouter R → List (Text × R)
  get_all_routes r =
      let result = add_patterns r.pattern_routes r.routes in
      elim r.wildcard_route [
        | none ↦ result
        | some config ↦ put text_discrete (star ∷ []) config result
      ]

module _ (match_regexp : Text → Text → Option Bool) where
  pub matches_wildcard : Text → Text → Bool
  matches_wildcard db_name pattern =
      elim (match_regexp (b'^' ∷ expand_stars pattern ++ b'$' ∷ []) db_name) [
        | none ↦ false
        | some matched ↦ matched
      ]

module _ {R : Type 0} (match_regexp : Text → Text → Option Bool) where
  unfoldable pub matches_pattern : Text → PatternRoute R → Bool
  matches_pattern db_name pr = elim pr.pattern_type [
    | prefix_match ↦ has_prefix db_name pr.pattern
    | suffix_match ↦ has_suffix db_name pr.pattern
    | contains_match ↦ contains db_name pr.pattern
    | wildcard_match ↦ matches_wildcard match_regexp db_name pr.pattern
    | exact_match ↦ false
  ]

  -- The first pattern route that matches.
  unfoldable pub first_match : Text → List (PatternRoute R) → Option R
  first_match db_name [] = none
  first_match db_name (pr ∷ prs) =
      let rest = first_match db_name prs in
      if matches_pattern db_name pr then some pr.route_config else rest

  -- The part of `GetRoute` below the cache: exact routes, patterns, the wildcard.
  unfoldable pub resolve : DatabaseRouter R → Text → Option R
  resolve r name = elim (lookup text_discrete name r.routes) [
    | some exact ↦ some exact
    | none ↦ elim (first_match name r.pattern_routes) [
      | some config ↦ some config
      | none ↦ r.wildcard_route
    ]
  ]

module _ {R : Type 0} (unicode_lower : ℕ → ℕ) where
  pub add_route : DatabaseRouter R → Text → R → DatabaseRouter R
  add_route r pattern config =
      let cleared = record r { route_cache = Lru.clear r.route_cache } in
      let normalized = to_lower unicode_lower pattern in
      if is_star normalized
      then record cleared { wildcard_route = some config }
      else if contains normalized (star ∷ [])
      then record cleared { pattern_routes = r.pattern_routes ++ classify normalized config ∷ [] }
      else record cleared { routes = put text_discrete normalized config r.routes }

module _ {R : Type 0} (unicode_lower : ℕ → ℕ) (match_regexp : Text → Text → Option Bool) where
  -- `none` is the error "no route found".
  unfoldable pub get_route : DatabaseRouter R → Text → ℕ → DatabaseRouter R × Option R
  get_route r database_name now =
      let name = to_lower unicode_lower database_name in
      let (cache, cached) = Lru.get text_discrete r.route_cache name now in
      elim cached [
        | some route ↦ (record r { route_cache = cache }, some route)
        | none ↦ elim (resolve match_regexp r name) [
          | none ↦ (record r { route_cache = cache }, none)
          | some route ↦
              (record r { route_cache = Lru.add text_discrete cache name route now }, some route)
        ]
      ]

-- The counts of `Statistics`. Its listing of the exact routes, with labels and modes of route
-- configurations, is left out.
pub record RouteCounts : Type 0 where
  pub exact_routes : ℕ
  pub pattern_route_count : ℕ
  pub has_wildcard : Bool
  pub cache_size : ℕ

module _ {R : Type 0} where
  pub statistics : DatabaseRouter R → RouteCounts
  statistics r = record {
    exact_routes = length r.routes;
    pattern_route_count = length r.pattern_routes;
    has_wildcard = elim r.wildcard_route [ none ↦ false | some _ ↦ true ];
    cache_size = Lru.len r.route_cache;
  }

  pub update_route : (ℕ → ℕ) → DatabaseRouter R → Text → R → DatabaseRouter R
  update_route unicode_lower r pattern config = add_route unicode_lower r pattern config
