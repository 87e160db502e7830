-- ===== src/Engine/Output/Retained.antt =====
-- The retention buffer is a queue that counts its bytes, and gives the ending last.
use project_apex.Prelude.{
  ℕ, ◌+◌, ◌≤◌, ◌≡◌, refl, sym, ◌∙◌, ◌↔◌, false, none, some, List, [], ◌∷◌, ◌++◌, append-nil,
  append_assoc, arith, leb, length,
}
use project_apex.Engine.TaskSet.{OutputChunk, ExitStatus}
use project_apex.Engine.Output.{
  RetainedOutput, push, drain, is_full, set_ending, deliverable_ending, at_bound, retention_bytes,
  is_nil,
}

abbrev pub total : List OutputChunk → ℕ
total [] = 0
total (c ∷ cs) = length c.bytes + total cs

total-append : (cs ds : List OutputChunk) → total (cs ++ ds) ≡ total cs + total ds
total-append [] ds = omega arith
total-append (c ∷ cs) ds = omega (arith, total-append cs ds)

-- The count is that of the bytes of the chunks.
abbrev pub IsCounted : RetainedOutput → Type 0
IsCounted r = r.bytes_held ≡ total r.chunks

-- One chunk after another, and whether the producer was told to slow down at the last of them.
unfoldable pub push_all : List OutputChunk → RetainedOutput → RetainedOutput
push_all [] r = r
push_all (c ∷ cs) r = push_all cs (push c r).0

pub push-IsCounted : (c : OutputChunk) (r : RetainedOutput) → IsCounted r → IsCounted (push c r).0
unfolding push
push-IsCounted c r h = omega (arith, total-append r.chunks (c ∷ []))

-- When the count of the bytes is that of the chunks, a push takes the chunk, says "at the bound"
-- exactly when 4 MiB or more are then held, the chunk included, and leaves a buffer that is full
-- exactly then.
pub push_admission :
    (c : OutputChunk) (r : RetainedOutput)
    → IsCounted r
    → ((push c r).0.chunks ≡ r.chunks ++ c ∷ [])
      × (((push c r).1 ≡ at_bound) ↔ (retention_bytes ≤ total (r.chunks ++ c ∷ [])))
      × (is_full (push c r).0 ≡ leb retention_bytes (total (r.chunks ++ c ∷ [])))
unfolding push is_full
push_admission c r h = ground (arith, total-append r.chunks (c ∷ []))

chunks-push_all :
    (cs : List OutputChunk) (r : RetainedOutput) → (push_all cs r).chunks ≡ r.chunks ++ cs
unfolding push_all push
chunks-push_all [] r = sym (append-nil r.chunks)
chunks-push_all (c ∷ cs) r = chunks-push_all cs (push c r).0 ∙ append_assoc r.chunks (c ∷ []) cs

ending-push_all : (cs : List OutputChunk) (r : RetainedOutput) → (push_all cs r).ending ≡ r.ending
unfolding push_all push
ending-push_all [] r = refl
ending-push_all (c ∷ cs) r = ending-push_all cs (push c r).0

not_nil : (cs ds : List OutputChunk) (c : OutputChunk) → is_nil ((cs ++ c ∷ []) ++ ds) ≡ false
not_nil [] ds c = refl
not_nil (b ∷ cs) ds c = refl

-- Whatever is pushed comes out in the order in which it was pushed, once: the drain returns it
-- all, and the buffer is then empty with no byte held.
pub drain-push_all :
    (cs : List OutputChunk) (r : RetainedOutput)
    → drain (push_all cs r)
      ≡ (record { chunks = []; bytes_held = 0; ending = r.ending }, r.chunks ++ cs)
unfolding drain
drain-push_all cs r = ground (arith, chunks-push_all cs r, ending-push_all cs r)

-- When no ending is recorded, a chunk is pushed, an ending recorded, more chunks pushed and
-- another ending recorded, nothing is delivered as the ending, and after a drain the first of the
-- two is.
pub ending_after_output :
    (cs : List OutputChunk) (c : OutputChunk) (first second : ExitStatus) (r : RetainedOutput)
    → r.ending ≡ none
    → (deliverable_ending (set_ending second (push_all cs (set_ending first (push c r).0))) ≡ none)
      × (deliverable_ending
            (drain (set_ending second (push_all cs (set_ending first (push c r).0)))).0
          ≡ some first)
unfolding set_ending deliverable_ending drain push
ending_after_output cs c first second r h =
    let r' = set_ending first (push c r).0 in
    ground (arith, chunks-push_all cs r', ending-push_all cs r', not_nil r.chunks cs c)
