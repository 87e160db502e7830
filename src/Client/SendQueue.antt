-- ===== src/Client/SendQueue.antt =====
-- client/core/src/adapters/outbound/openssh/sendq.rs: the queue that the writer drains by priority.
-- Each operation holds the lock for all it does but the wait, so an operation is one step, and a
-- `pop_blocking` that finds nothing in an open queue waits and looks again after the next step.
pub mod Traces
mod Tests
use project_apex.Prelude.{
  ℕ, zero, suc, ◌+◌, ◌-◌, ◌*◌, ◌/◌, ◌%◌, ◌^◌, ◌≤◌, ◌<◌, ◌≡◌, refl, sym, ap, ◌∙◌, ◌≢◌, ◌↔◌, ◌⊎◌, inl,
  inr, Bool, true, false, not, ◌&&◌, ◌||◌, Option, none, some, List, [], ◌∷◌, ◌++◌, map, append-nil,
  append_assoc, arith, ltb, leb, ◌==◌, if◌then◌else◌, Bool-cases, Option-cases, length,
  length-append, All, All-append, Text, codes,
}

pub data Priority : Type 0 where
  interactive background : Priority

pub record Queues : Type 0 where
  pub interactive : List (List ℕ)
  pub background : List (List ℕ)
  pub closed : Bool

-- What one look of `pop_blocking` at the queues comes to.
pub data Popped : Type 0 where
  frame : List ℕ → Popped
  ended waits : Popped

unfoldable pub new : Queues
new = record { interactive = []; background = []; closed = false }

abbrev pub enqueue : Priority → List ℕ → Queues → Queues
enqueue Priority.interactive f q = record q { interactive = q.interactive ++ f ∷ [] }
enqueue Priority.background f q = record q { background = q.background ++ f ∷ [] }

unfoldable pub push : Priority → List ℕ → Queues → Queues
push priority f q = if q.closed then q else enqueue priority f q

unfoldable pub pop : Queues → Queues × Popped
pop q = elim q.interactive [
  | f ∷ fs ↦ (record q { interactive = fs }, frame f)
  | [] ↦ elim q.background [
    | f ∷ fs ↦ (record q { background = fs }, frame f)
    | [] ↦ if q.closed then (q, ended) else (q, waits)
  ]
]

unfoldable pub close : Queues → Queues
close q = record { interactive = []; background = []; closed = true }

unfoldable pub len : Queues → ℕ
len q = length q.interactive + length q.background
