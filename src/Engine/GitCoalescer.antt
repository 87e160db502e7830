-- ===== src/Engine/GitCoalescer.antt =====
-- engine/src/application/use_cases/git_status.rs: `StatusCoalescer`, which decides when to run git.
pub mod Runs
pub mod Live
mod Tests
use project_apex.Prelude.{
  ℕ, zero, suc, ◌+◌, ◌-◌, ◌*◌, ◌/◌, ◌%◌, ◌^◌, ◌≤◌, ◌<◌, ◌≡◌, refl, sym, ap, ◌∙◌, ◌≢◌, ◌↔◌, ◌⊎◌, inl,
  inr, Bool, true, false, not, ◌&&◌, ◌||◌, Option, none, some, List, [], ◌∷◌, ◌++◌, map, append-nil,
  append_assoc, arith, ltb, leb, ◌==◌, if◌then◌else◌, Bool-cases, Option-cases, length,
  length-append, All, All-append, Text, codes,
}

abbrev pub edge_ms : ℕ
edge_ms = 100

-- What is to be done next.
pub data Due : Type 0 where
  idle run : Due
  at : ℕ → Due

pub record StatusCoalescer : Type 0 where
  pub edge : ℕ
  pub pending_since : Option ℕ
  pub running : Bool
  pub dirty_while_running : Bool

unfoldable pub new : ℕ → StatusCoalescer
new window = record {
  edge = window;
  pending_since = none;
  running = false;
  dirty_while_running = false;
}

unfoldable pub notice : ℕ → StatusCoalescer → StatusCoalescer
notice now c =
    if c.running
    then record c { dirty_while_running = true }
    else record c { pending_since = some now }

-- `now.saturating_sub(since)` is the subtraction of natural numbers.
unfoldable pub due : ℕ → StatusCoalescer → Due
due now c = if c.running then idle else elim c.pending_since [
  | none ↦ idle
  | some since ↦ if leb c.edge (now - since) then run else at (since + c.edge)
]

abbrev pub is_run : Due → Bool
is_run idle = false
is_run run = true
is_run (at t) = false

unfoldable pub begin : ℕ → StatusCoalescer → StatusCoalescer × Bool
begin now c =
    if is_run (due now c)
    then (record c { pending_since = none; running = true; dirty_while_running = false }, true)
    else (c, false)

unfoldable pub finish : ℕ → StatusCoalescer → StatusCoalescer
finish now c =
    if c.dirty_while_running
    then record c { running = false; dirty_while_running = false; pending_since = some now }
    else record c { running = false }
