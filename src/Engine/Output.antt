-- ===== src/Engine/Output.antt =====
-- engine/src/application/output.rs: a task's output between the descriptor and the wire, and the
-- retention buffer behind it. Times are `Millis`, a `u64`; `saturating_sub` is `-` on ℕ. The
-- `while` of `accept` runs on fuel, the number of the bytes, since each round takes a whole chunk.
pub mod Split
pub mod Conserve
pub mod Bounds
pub mod Deadline
pub mod Retained
mod Tests
use project_apex.Prelude.{
  ℕ, zero, suc, ◌+◌, ◌-◌, ◌*◌, ◌/◌, ◌%◌, ◌^◌, ◌≤◌, ◌<◌, ◌≡◌, refl, sym, ap, ◌∙◌, ◌≢◌, ◌↔◌, ◌⊎◌, inl,
  inr, Bool, true, false, not, ◌&&◌, ◌||◌, Option, none, some, List, [], ◌∷◌, ◌++◌, map, append-nil,
  append_assoc, arith, ltb, leb, ◌==◌, if◌then◌else◌, Bool-cases, Option-cases, length,
  length-append, All, All-append, Text, codes, take, drop, min,
}
use project_apex.Engine.TaskSet.{Stream, stdout, stderr, OutputChunk, ExitStatus}

abbrev pub chunk_bytes : ℕ
chunk_bytes = 64 * 1024

abbrev pub chunk_interval_ms : ℕ
chunk_interval_ms = 20

abbrev pub retention_bytes : ℕ
retention_bytes = 4 * 1024 * 1024

pub record Partial : Type 0 where
  pub bytes : List ℕ
  pub since : Option ℕ

pub record Chunker : Type 0 where
  pub out : Partial
  pub errors : Partial
  pub ready : List OutputChunk

abbrev empty_partial : Partial
empty_partial = record { bytes = []; since = none }

abbrev pub is_nil {ℓ} : {A : Type ℓ} → List A → Bool
is_nil [] = true
is_nil (x ∷ xs) = false

unfoldable pub new : Chunker
new = record { out = empty_partial; errors = empty_partial; ready = [] }

abbrev pub partial : Stream → Chunker → Partial
partial stdout c = c.out
partial stderr c = c.errors

abbrev pub set_partial : Stream → Partial → Chunker → Chunker
set_partial stdout p c = record c { out = p }
set_partial stderr p c = record c { errors = p }

-- `while bytes.len() >= size { split_off(size) }`: the whole chunks, and the remainder.
unfoldable pub split_full : ℕ → ℕ → List ℕ → List (List ℕ) × List ℕ
split_full size zero bytes = ([], bytes)
split_full size (suc fuel) bytes =
    let (full, rest) = split_full size fuel (drop size bytes) in
    if leb size (length bytes) then (take size bytes ∷ full, rest) else ([], bytes)

-- The deadline of what is left in a partial.
unfoldable pub since_after : Option ℕ → List (List ℕ) → List ℕ → ℕ → Option ℕ
since_after since full rest now =
    if is_nil rest then none else if is_nil full then since else some now

unfoldable pub accept : Stream → List ℕ → ℕ → Chunker → Chunker
accept stream bytes now c =
    if is_nil bytes
    then c
    else (let p = partial stream c in
        let since : Option ℕ = elim p.since [ none ↦ some now | some s ↦ some s ] in
        let all = p.bytes ++ bytes in
        let (full, rest) = split_full chunk_bytes (length all) all in
        set_partial stream (record { bytes = rest; since = since_after since full rest now })
          (record c { ready = c.ready ++ map (λ b. record { stream = stream; bytes = b }) full }))

-- Whether a partial is due: it holds bytes, and the first of them has waited long enough.
unfoldable pub is_due : ℕ → Partial → Bool
is_due now p =
    not (is_nil p.bytes) && elim p.since [ none ↦ false | some s ↦ leb chunk_interval_ms (now - s) ]

-- The body of the loop over the streams of `drain_due` and `drain_all`, by their tests.
unfoldable pub flush :
    (Partial → Bool) → Stream → Chunker × List OutputChunk → Chunker × List OutputChunk
flush due stream (c, chunks) =
    if due (partial stream c)
    then (
      set_partial stream empty_partial c,
      chunks ++ record { stream = stream; bytes = (partial stream c).bytes } ∷ [],
    )
    else (c, chunks)

abbrev pub take_ready : Chunker → Chunker × List OutputChunk
take_ready c = (record c { ready = [] }, c.ready)

unfoldable pub drain_due : ℕ → Chunker → Chunker × List OutputChunk
drain_due now c = flush (is_due now) stderr (flush (is_due now) stdout (take_ready c))

abbrev pub holds_bytes : Partial → Bool
holds_bytes p = not (is_nil p.bytes)

unfoldable pub drain_all : Chunker → Chunker × List OutputChunk
drain_all c = flush holds_bytes stderr (flush holds_bytes stdout (take_ready c))

-- The deadline of one partial, if it holds bytes.
unfoldable pub deadline : Partial → Option ℕ
deadline p =
    if is_nil p.bytes
    then none
    else elim p.since [ none ↦ none | some s ↦ some (s + chunk_interval_ms) ]

-- `Iterator::min` of at most two values
abbrev pub earliest : Option ℕ → Option ℕ → Option ℕ
earliest none b = b
earliest (some a) none = some a
earliest (some a) (some b) = some (min a b)

unfoldable pub next_deadline : Chunker → Option ℕ
unfolding deadline
next_deadline c = earliest (deadline c.out) (deadline c.errors)

unfoldable pub is_empty : Chunker → Bool
is_empty c = is_nil c.ready && is_nil c.out.bytes && is_nil c.errors.bytes

pub data Admission : Type 0 where
  accepted at_bound : Admission

pub record RetainedOutput : Type 0 where
  pub chunks : List OutputChunk
  pub bytes_held : ℕ
  pub ending : Option ExitStatus

unfoldable pub new_retained : RetainedOutput
new_retained = record { chunks = []; bytes_held = 0; ending = none }

unfoldable pub push : OutputChunk → RetainedOutput → RetainedOutput × Admission
push chunk r =
    let held = r.bytes_held + length chunk.bytes in
    (
      record r { bytes_held = held; chunks = r.chunks ++ chunk ∷ [] },
      if leb retention_bytes held then at_bound else accepted,
    )

unfoldable pub drain : RetainedOutput → RetainedOutput × List OutputChunk
drain r = (record r { bytes_held = 0; chunks = [] }, r.chunks)

unfoldable pub is_full : RetainedOutput → Bool
is_full r = leb retention_bytes r.bytes_held

unfoldable pub set_ending : ExitStatus → RetainedOutput → RetainedOutput
set_ending status r = elim r.ending [ none ↦ record r { ending = some status } | some _ ↦ r ]

unfoldable pub deliverable_ending : RetainedOutput → Option ExitStatus
deliverable_ending r = if is_nil r.chunks then r.ending else none

unfoldable pub held_bytes : RetainedOutput → ℕ
held_bytes r = r.bytes_held

unfoldable pub is_drained : RetainedOutput → Bool
is_drained r = is_nil r.chunks
