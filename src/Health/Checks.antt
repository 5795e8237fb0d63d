-- ===== src/Health/Checks.antt =====
-- What the health checks of mongo/mongo.go add up to.
use mongobouncer.Base.{
  ℕ, suc, ◌+◌, ◌-◌, ◌≤◌, ◌≡◌, refl, ◌↔◌, true, Option, none, some, List, [], ◌∷◌, arith,
}
use mongobouncer.Base.Lists.{length}
use mongobouncer.Health.{HealthStats, check_stats, check_health, is_healthy}

-- A check: the answer to the ping, how long it took, and the time after it.
pub record Check (E : Type 0) : Type 0 where
  pub ping : Option E
  pub response_time : ℕ
  pub at : ℕ

module _ {E : Type 0} where
  unfoldable pub run : Option (HealthStats E) → List (Check E) → Option (HealthStats E)
  run s [] = s
  run s (c ∷ cs) = run (check_health s c.ping c.response_time c.at).0 cs

  unfoldable pub failures : List (Check E) → ℕ
  failures [] = 0
  failures (c ∷ cs) = elim c.ping [ none ↦ failures cs | some _ ↦ suc (failures cs) ]

  -- After any checks, each check is counted once and each failed one once as a failure.
  pub run-counts :
      (s : HealthStats E) (cs : List (Check E))
      → (t : HealthStats E) × (run (some s) cs ≡ some t)
        × (t.health_check_count ≡ s.health_check_count + length cs)
        × (t.health_failures ≡ s.health_failures + failures cs)
  unfolding run failures check_health check_stats
  run-counts s [] = (s, refl, omega arith, omega arith)
  run-counts s (c ∷ cs) =
      let (t, e, n, f) = run-counts (check_stats s c.ping c.response_time c.at) cs in
      (t, e, ground (arith, n), ground (arith, f))

  -- After a check, a server is healthy at a time exactly if the check's ping succeeded and not more
  -- than 30 seconds have gone by since.
  pub is_healthy-check_health :
      (s : HealthStats E) (ping : Option E) (response_time now later : ℕ)
      → (is_healthy (check_health (some s) ping response_time now).0 later ≡ true)
        ↔ ((ping ≡ none) × (later - now ≤ 30_000_000_000))
  unfolding is_healthy check_health check_stats
  is_healthy-check_health s none response_time now later =
      (λ h. (refl, ground arith), λ h. ground arith)
  is_healthy-check_health s (some e) response_time now later =
      (λ h. absurd (ground arith), λ h. absurd (ground arith))
