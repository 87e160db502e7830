-- ===== src/Client/Supervise/Policy.antt =====
-- client/core/src/application/use_cases/supervise.rs: what follows from a failure, and how the
use project_apex.Prelude.{ℕ, ◌+◌, ◌*◌, ◌^◌, ◌≤◌, ◌≡◌, ◌↔◌, Bool, true, ◌&&◌, arith}
use native.Mathlib.Nat.{pow-le-pow_right, mul-le-mul_left}
-- waits grow.
use project_apex.Client.Supervise.{
  FailureCondition, should_retry, may_prompt_for_credential, Backoff, next_ceiling, next_delay,
  retry_after_backoff, attempt_assisted, response_to, u32_max, min,
}

-- A retry follows exactly from the conditions that may be retried, and an assisted attempt exactly
-- from the one that may raise a prompt, when the assisted phase is there.
pub response_to-should_retry :
    (c : FailureCondition) (assisted : Bool)
    → ((response_to c assisted ≡ retry_after_backoff) ↔ (should_retry c ≡ true))
      × ((response_to c assisted ≡ attempt_assisted)
          ↔ ((may_prompt_for_credential c && assisted) ≡ true))
unfolding response_to should_retry may_prompt_for_credential
response_to-should_retry c assisted = (ground arith, ground arith)

-- What the wait is cut from grows with the number of the attempt.
ceiling_grows :
    (base most n m : ℕ)
    → n ≤ m
    → next_ceiling (record { attempt = n; base = base; most = most })
      ≤ next_ceiling (record { attempt = m; base = base; most = most })
unfolding next_ceiling
ceiling_grows base most n m le =
    let power : 2 ^ min n 20 ≤ 2 ^ min m 20 = pow-le-pow_right (omega arith) (omega arith) in
    let product : base * min (2 ^ min n 20) u32_max ≤ base * min (2 ^ min m 20) u32_max =
      mul-le-mul_left base (omega arith) in
    omega (arith, product)

-- When the draw takes no more than its ceiling and the attempts have a number of 32 bits, a wait is
-- at most the longest wait, and the ceiling after it is not below the ceiling before.
pub next_delay-next_ceiling :
    (draw : ℕ → ℕ) (b : Backoff)
    → ((ceiling : ℕ) → draw ceiling ≤ ceiling)
    → b.attempt ≤ u32_max
    → ((next_delay draw b).1 ≤ b.most) × (next_ceiling b ≤ next_ceiling (next_delay draw b).0)
unfolding next_delay next_ceiling
next_delay-next_ceiling draw b within small =
    let drawn = within (next_ceiling b) in
    (
      omega (arith, drawn),
      ceiling_grows b.base b.most b.attempt (min (b.attempt + 1) u32_max) (omega arith),
    )
