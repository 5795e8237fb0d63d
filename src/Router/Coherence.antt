-- ===== src/Router/Coherence.antt =====
-- The route cache of proxy/router.go never answers otherwise than the tables would.
use mongobouncer.Base.Text.{Text, text_discrete, to_lower}
use mongobouncer.Base.{ℕ, ◌≡◌, refl, sym, ◌∙◌, Bool, Option, some, arith, inl, inr, Option-cases}
use mongobouncer.Lru
use mongobouncer.Lru.Invariant.{
  IsValid, new-IsValid, clear-IsValid, get-IsValid, add-IsValid, expire_round-IsValid,
}
use mongobouncer.Lru.Reads.{peek-get, peek-add-some, peek-clear, peek-new, peek-expire_round-some}
use mongobouncer.Lru.Refine.{get-view}
use mongobouncer.Router.{
  DatabaseRouter, new_database_router, cache_expiry, resolve, add_route, remove_route, get_route,
}

-- The background expiry of the cache.
unfoldable pub expire : {R : Type 0} → DatabaseRouter R → ℕ → DatabaseRouter R
expire r now = record r { route_cache = Lru.expire_round text_discrete r.route_cache now }

module _ {R : Type 0} (match_regexp : Text → Text → Option Bool) where
  -- The cache is sound, and what it holds under a name is what the tables give for it.
  pub record IsCoherent (r : DatabaseRouter R) : Type 0 where
    pub valid : IsValid text_discrete r.route_cache
    pub current :
        (name : Text) (config : R)
        → Lru.peek text_discrete r.route_cache name ≡ some config
        → resolve match_regexp r name ≡ some config

  pub cleared-IsCoherent :
      (r : DatabaseRouter R) (c : Lru.Cache Text R) → r.route_cache ≡ Lru.clear c → IsCoherent r
  cleared-IsCoherent r c e = record {
    valid = rw e (clear-IsValid text_discrete c);
    current = λ name config h. absurd (ground (arith, peek-clear text_discrete c name));
  }

  pub new_database_router-IsCoherent : IsCoherent new_database_router
  unfolding new_database_router
  new_database_router-IsCoherent = record {
    valid = new-IsValid text_discrete 1000 cache_expiry;
    current = λ name config h.
        absurd (ground (arith, peek-new {V = R} text_discrete 1000 cache_expiry name));
  }

  pub expire-IsCoherent :
      (r : DatabaseRouter R) (now : ℕ) → IsCoherent r → IsCoherent (expire r now)
  unfolding expire resolve
  expire-IsCoherent r now v = record {
    valid = expire_round-IsValid text_discrete r.route_cache now v.valid;
    current = λ name config h.
        v.current name config
          (peek-expire_round-some text_discrete r.route_cache now name config v.valid h);
  }

  pub remove_route-IsCoherent :
      (r : DatabaseRouter R) (pattern : Text) → IsCoherent (remove_route r pattern)
  unfolding remove_route
  remove_route-IsCoherent r pattern =
      cleared-IsCoherent (remove_route r pattern) r.route_cache (ground arith)

  abbrev pub with_cache : DatabaseRouter R → Lru.Cache Text R → DatabaseRouter R
  with_cache r c = record r { route_cache = c }

  resolve-with_cache :
      (r : DatabaseRouter R) (c : Lru.Cache Text R) (name : Text)
      → resolve match_regexp (with_cache r c) name ≡ resolve match_regexp r name
  unfolding resolve
  resolve-with_cache r c name = refl

  same_reads-IsCoherent :
      (r : DatabaseRouter R) (c : Lru.Cache Text R)
      → IsCoherent r
      → IsValid text_discrete c
      → ((q : Text) → Lru.peek text_discrete c q ≡ Lru.peek text_discrete r.route_cache q)
      → IsCoherent (with_cache r c)
  same_reads-IsCoherent r c v w same = record {
    valid = w;
    current =
        λ name config h. resolve-with_cache r c name ∙ v.current name config (sym (same name) ∙ h);
  }

  added-IsCoherent :
      (r : DatabaseRouter R) (c : Lru.Cache Text R) (name : Text) (route : R) (now : ℕ)
      → IsCoherent (with_cache r c)
      → resolve match_regexp r name ≡ some route
      → IsCoherent (with_cache r (Lru.add text_discrete c name route now))
  added-IsCoherent r c name route now v found = record {
    valid = add-IsValid text_discrete c name route now v.valid;
    current = λ q config h. ground (
      arith,
      peek-add-some text_discrete c v.valid name q route config now h,
      v.current q config,
      resolve-with_cache r c q,
      resolve-with_cache r (Lru.add text_discrete c name route now) q,
    );
  }

  module _ (unicode_lower : ℕ → ℕ) where
    pub add_route-IsCoherent :
        (r : DatabaseRouter R) (pattern : Text) (config : R)
        → IsCoherent (add_route unicode_lower r pattern config)
    unfolding add_route
    add_route-IsCoherent r pattern config =
        cleared-IsCoherent (add_route unicode_lower r pattern config) r.route_cache (ground arith)

    -- `GetRoute` answers what the tables give for the lowered name, keeps the cache coherent, and
    -- leaves the tables as they are.
    pub get_route-resolve :
        (r : DatabaseRouter R) (database_name : Text) (now : ℕ)
        → IsCoherent r
        → ((get_route unicode_lower match_regexp r database_name now).1
            ≡ resolve match_regexp r (to_lower unicode_lower database_name))
          × IsCoherent (get_route unicode_lower match_regexp r database_name now).0
          × ((name : Text)
              → resolve match_regexp
                  (get_route unicode_lower match_regexp r database_name now).0
                  name
                ≡ resolve match_regexp r name)
    unfolding get_route
    get_route-resolve r database_name now v =
        let name = to_lower unicode_lower database_name in
        let (cache, cached) = Lru.get text_discrete r.route_cache name now in
        let after_get = get-IsValid text_discrete r.route_cache name now v.valid in
        let reads = λ (q : Text). peek-get text_discrete r.route_cache v.valid name q now in
        let hit = (get-view text_discrete r.route_cache name now v.valid.linked).0 in
        let kept = same_reads-IsCoherent r cache v after_get reads in
        elim (Option-cases cached) [
          | inr (route, e) ↦
              rw (e, get_route)
                (sym (v.current name route (sym hit ∙ e)), kept, resolve-with_cache r cache)
          | inl e ↦ elim (Option-cases (resolve match_regexp r name)) [
            | inl missing ↦ rw (e, get_route, missing) (refl, kept, resolve-with_cache r cache)
            | inr (route, found) ↦
                rw (e, get_route, found)
                  (
                    refl,
                    added-IsCoherent r cache name route now kept found,
                    resolve-with_cache r (Lru.add text_discrete cache name route now),
                  )
          ]
        ]
