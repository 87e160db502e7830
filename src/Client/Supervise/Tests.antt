-- ===== src/Client/Supervise/Tests.antt =====
-- The schedules of the tests of client/core/src/application/use_cases/supervise.rs.
use project_apex.Prelude.{ℕ, ◌/◌, ◌≤◌, ◌≡◌, refl, arith}
use project_apex.Client.Supervise.{Backoff, next_ceiling, base_delay, max_delay}

abbrev start : Backoff
start = record { attempt = 0; base = base_delay; most = max_delay }

first_wait : next_ceiling start ≡ base_delay
unfolding next_ceiling
first_wait = refl

half_within : (ceiling : ℕ) → ceiling / 2 ≤ ceiling
half_within ceiling = omega arith
