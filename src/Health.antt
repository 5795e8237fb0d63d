-- ===== src/Health.antt =====
-- The health of a server in mongo/mongo.go: `CheckHealth` with the answer of its ping, which comes
-- from the driver (`none` for success), and the time that it took; `IsHealthy`; and the statistics,
-- which may be missing. `E` stands for errors, `now` for what `time.Now()` reads.
pub mod Checks
use mongobouncer.Base.{
  ℕ, ◌+◌, ◌-◌, ◌/◌, Bool, true, false, Option, none, some, List, [], ◌∷◌, ltb, ◌==◌, if◌then◌else◌,
}

pub record HealthStats (E : Type 0) : Type 0 where
  pub healthy : Bool
  pub last_health_check : ℕ
  pub health_check_count : ℕ
  pub health_failures : ℕ
  pub last_error : Option E
  pub avg_response_time : ℕ

-- What CheckHealth returns.
pub data Outcome (E : Type 0) : Type 0 where
  fine not_initialized : Outcome E
  failed : E → Outcome E

module _ {E : Type 0} where
  -- "simple moving average"
  pub averaged : HealthStats E → ℕ → ℕ
  averaged s response_time =
      if s.avg_response_time == 0 then response_time else (s.avg_response_time + response_time) / 2

  pub check_stats : HealthStats E → Option E → ℕ → ℕ → HealthStats E
  check_stats s none response_time now = record {
    healthy = true;
    last_health_check = now;
    health_check_count = s.health_check_count + 1;
    health_failures = s.health_failures;
    last_error = none;
    avg_response_time = averaged s response_time;
  }
  check_stats s (some e) response_time now = record {
    healthy = false;
    last_health_check = now;
    health_check_count = s.health_check_count + 1;
    health_failures = s.health_failures + 1;
    last_error = some e;
    avg_response_time = s.avg_response_time;
  }

  pub outcome : Option E → Outcome E
  outcome none = fine
  outcome (some e) = failed e

  pub check_health : Option (HealthStats E) → Option E → ℕ → ℕ → Option (HealthStats E) × Outcome E
  check_health none ping response_time now = (none, not_initialized)
  check_health (some s) ping response_time now =
      (some (check_stats s ping response_time now), outcome ping)

  -- 30 * time.Second
  pub is_healthy : Option (HealthStats E) → ℕ → Bool
  is_healthy none now = false
  is_healthy (some s) now =
      if ltb 30_000_000_000 (now - s.last_health_check) then false else s.healthy
