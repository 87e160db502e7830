-- ===== src/Client/Supervise.antt =====
-- client/core/src/application/use_cases/supervise.rs, with the conditions of
-- client/core/src/domain/failure.rs: when to try a connection again, and how long to wait. A
-- `Duration` is its nanoseconds. `ceiling.mul_f64(f)`, a product of floating point numbers, is an
-- argument: what the draw makes of the ceiling.
pub mod Policy
mod Tests
use project_apex.Prelude.{
  ℕ, zero, suc, ◌+◌, ◌-◌, ◌*◌, ◌/◌, ◌%◌, ◌^◌, ◌≤◌, ◌<◌, ◌≡◌, refl, sym, ap, ◌∙◌, ◌≢◌, ◌↔◌, ◌⊎◌, inl,
  inr, Bool, true, false, not, ◌&&◌, ◌||◌, Option, none, some, List, [], ◌∷◌, ◌++◌, map, append-nil,
  append_assoc, arith, ltb, leb, ◌==◌, if◌then◌else◌, Bool-cases, Option-cases, length,
  length-append, All, All-append, Text, codes, min,
}

pub data FailureCondition : Type 0 where
  host_unreachable authentication_failed host_key_changed : FailureCondition
  engine_missing engine_crashed network_dropped unknown : FailureCondition

unfoldable pub should_retry : FailureCondition → Bool
should_retry host_unreachable = true
should_retry engine_crashed = true
should_retry network_dropped = true
should_retry authentication_failed = false
should_retry host_key_changed = false
should_retry engine_missing = false
should_retry unknown = false

unfoldable pub may_prompt_for_credential : FailureCondition → Bool
may_prompt_for_credential c = elim c [ authentication_failed ↦ true | _ ↦ false ]

abbrev pub seconds : ℕ → ℕ
seconds n = n * 1000000000

abbrev pub base_delay : ℕ
base_delay = seconds 1

abbrev pub max_delay : ℕ
max_delay = seconds 30

-- `Duration::MAX`
abbrev pub duration_max : ℕ
duration_max = seconds 18446744073709551615 + 999999999

abbrev pub u32_max : ℕ
u32_max = 4294967295

pub record Backoff : Type 0 where
  pub attempt : ℕ
  pub base : ℕ
  pub most : ℕ

unfoldable pub new : ℕ → ℕ → Backoff
new base most = record { attempt = 0; base = base; most = most }

unfoldable pub next_ceiling : Backoff → ℕ
next_ceiling b =
    let factor = 2 ^ min b.attempt 20 in min (min (b.base * min factor u32_max) duration_max) b.most

unfoldable pub next_delay : (ℕ → ℕ) → Backoff → Backoff × ℕ
next_delay draw b = (record b { attempt = min (b.attempt + 1) u32_max }, draw (next_ceiling b))

unfoldable pub reset : Backoff → Backoff
reset b = record b { attempt = 0 }

pub data Response : Type 0 where
  retry_after_backoff attempt_assisted stop_and_report hand_to_bootstrap : Response

unfoldable pub response_to : FailureCondition → Bool → Response
response_to authentication_failed true = attempt_assisted
response_to authentication_failed false = stop_and_report
response_to engine_missing assisted = hand_to_bootstrap
response_to host_key_changed assisted = stop_and_report
response_to unknown assisted = stop_and_report
response_to host_unreachable assisted =
    if should_retry host_unreachable then retry_after_backoff else stop_and_report
response_to engine_crashed assisted =
    if should_retry engine_crashed then retry_after_backoff else stop_and_report
response_to network_dropped assisted =
    if should_retry network_dropped then retry_after_backoff else stop_and_report

unfoldable pub attempt_of : Backoff → ℕ
attempt_of b = b.attempt

unfoldable pub describe : FailureCondition → Text
describe host_unreachable = codes "the host could not be reached"
describe authentication_failed = codes "the host refused the credential"
describe host_key_changed = codes "the host's identity has changed"
describe engine_missing = codes "the engine is not installed on the host"
describe engine_crashed = codes "the engine started and then exited"
describe network_dropped = codes "the connection to the host was lost"
describe unknown = codes "the connection failed for an unrecognised reason"
