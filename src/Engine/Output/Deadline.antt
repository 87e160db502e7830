-- ===== src/Engine/Output/Deadline.antt =====
-- `next_deadline` is exactly when `drain_due` next has something to send.
use project_apex.Prelude.{
  ℕ, ◌+◌, ◌≤◌, ◌<◌, ◌≡◌, refl, sym, ◌∙◌, ◌≢◌, ◌⊎◌, inl, inr, Bool, true, false, Option, none, some,
  List, [], ◌∷◌, ◌++◌, arith, leb, Bool-cases, length, length-append, leb→le,
}
use project_apex.Engine.TaskSet.{Stream, stdout, stderr, OutputChunk}
use project_apex.Engine.Output.{
  Partial, Chunker, partial, accept, flush, drain_due, split_full, is_nil, chunk_bytes, since_after,
  is_due, deadline, next_deadline, earliest,
}
use project_apex.Engine.Output.Split.{split_full-short}
use project_apex.Engine.Output.Bounds.{IsPartial}

-- A partial is due exactly from its deadline on.
abbrev pub reached : ℕ → Option ℕ → Bool
reached now none = false
reached now (some d) = leb d now

is_due-deadline : (now : ℕ) (p : Partial) → is_due now p ≡ reached now (deadline p)
unfolding is_due deadline
is_due-deadline now p = ground arith

-- What `drain_due` answers at a time, by `next_deadline`.
abbrev pub Answer : ℕ → Chunker → Option ℕ → Type 0
Answer now c none = drain_due now c ≡ (c, [])
Answer now c (some d) =
    ((now < d) × (drain_due now c ≡ (c, []))) ⊎ ((d ≤ now) × ((drain_due now c).1 ≢ []))

idle :
    (now : ℕ) (c : Chunker)
    → c.ready ≡ []
    → is_due now c.out ≡ false
    → is_due now c.errors ≡ false
    → drain_due now c ≡ (c, [])
unfolding drain_due flush
idle now c e p q = ground arith

ends : (cs : List OutputChunk) (c : OutputChunk) → cs ++ c ∷ [] ≢ []
ends [] c h = cc
ends (b ∷ cs) c h = cc

busy :
    (now : ℕ) (c : Chunker)
    → (is_due now c.out ≡ true) ⊎ (is_due now c.errors ≡ true)
    → (drain_due now c).1 ≢ []
unfolding drain_due flush
busy now c h =
    let x : OutputChunk = record { stream = stdout; bytes = c.out.bytes } in
    let y : OutputChunk = record { stream = stderr; bytes = c.errors.bytes } in
    ground (arith, ends c.ready x, ends c.ready y, ends (c.ready ++ x ∷ []) y)

answer :
    (now : ℕ) (c : Chunker) (a b : Option ℕ)
    → c.ready ≡ []
    → is_due now c.out ≡ reached now a
    → is_due now c.errors ≡ reached now b
    → Answer now c (earliest a b)
answer now c none none e p q = idle now c e p q
answer now c (some a) none e p q = elim (Bool-cases (leb a now)) [
  | inl past ↦ inr (leb→le a now past, busy now c (inl (p ∙ past)))
  | inr early ↦ inl (ground arith, idle now c e (p ∙ early) q)
]
answer now c none (some b) e p q = elim (Bool-cases (leb b now)) [
  | inl past ↦ inr (leb→le b now past, busy now c (inr (q ∙ past)))
  | inr early ↦ inl (ground arith, idle now c e p (q ∙ early))
]
answer now c (some a) (some b) e p q = elim (Bool-cases (leb a now)) [
  | inl past ↦ inr (ground arith, busy now c (inl (p ∙ past)))
  | inr early ↦ elim (Bool-cases (leb b now)) [
    | inl past ↦ inr (ground arith, busy now c (inr (q ∙ past)))
    | inr later ↦ inl (ground arith, idle now c e (p ∙ early) (q ∙ later))
  ]
]

-- With no whole chunk waiting, `drain_due` sends something exactly from the time that
-- `next_deadline` names; before it, and when no time is named, it changes nothing.
pub drain_due-next_deadline :
    (now : ℕ) (c : Chunker) → c.ready ≡ [] → Answer now c (next_deadline c)
unfolding next_deadline
drain_due-next_deadline now c e =
    answer now c (deadline c.out) (deadline c.errors) e (is_due-deadline now c.out)
      (is_due-deadline now c.errors)

reached-earliest :
    (now : ℕ) (a b : Option ℕ)
    → reached now a ≡ false
    → reached now b ≡ false
    → reached now (earliest a b) ≡ false
reached-earliest now a b p q = ground arith

not_due_empty : (now : ℕ) → is_due now (record { bytes = []; since = none }) ≡ false
unfolding is_due
not_due_empty now = refl

settled :
    (now : ℕ) (c : Chunker)
    → (is_due now (drain_due now c).0.out ≡ false) × (is_due now (drain_due now c).0.errors ≡ false)
unfolding drain_due flush
settled now c = ground (arith, not_due_empty now)

-- After `drain_due` no deadline that is left has been reached.
pub drain_due-settles :
    (now : ℕ) (c : Chunker) → reached now (next_deadline (drain_due now c).0) ≡ false
unfolding next_deadline
drain_due-settles now c =
    let c' = (drain_due now c).0 in
    let (p, q) = settled now c in
    reached-earliest now (deadline c'.out) (deadline c'.errors)
      (sym (is_due-deadline now c'.out) ∙ p) (sym (is_due-deadline now c'.errors) ∙ q)

nil_append : (xs ys : List ℕ) → is_nil xs ≡ false → is_nil (xs ++ ys) ≡ false
nil_append [] ys h = cc
nil_append (x ∷ xs) ys h = refl

joined :
    (p : Partial) (bytes : List ℕ) (now : ℕ)
    → IsPartial p
    → is_nil p.bytes ≡ false
    → length (p.bytes ++ bytes) < chunk_bytes
    → let all = p.bytes ++ bytes in
      let cut = split_full chunk_bytes (length all) all in
      let since : Option ℕ = elim p.since [ none ↦ some now | some s ↦ some s ] in
      deadline (record { bytes = cut.1; since = since_after since cut.0 cut.1 now }) ≡ deadline p
unfolding deadline since_after
joined p bytes now v held short =
    let all = p.bytes ++ bytes in
    ground
      (arith, split_full-short chunk_bytes (length all) all short, nil_append p.bytes bytes held)

-- Bytes that join a partial of a stream, which holds some, is shorter than a chunk and has a
-- deadline, without filling a chunk, do not move its deadline.
pub deadline-accept :
    (t : Stream) (bytes : List ℕ) (now : ℕ) (c : Chunker)
    → IsPartial (partial t c)
    → is_nil (partial t c).bytes ≡ false
    → length (partial t c).bytes + length bytes < chunk_bytes
    → deadline (partial t (accept t bytes now c)) ≡ deadline (partial t c)
unfolding accept
deadline-accept t [] now c v held short = refl
deadline-accept stdout (b ∷ bytes) now c v held short =
    joined c.out (b ∷ bytes) now v held (omega (arith, length-append {0} c.out.bytes (b ∷ bytes)))
deadline-accept stderr (b ∷ bytes) now c v held short =
    joined c.errors (b ∷ bytes) now v held
      (omega (arith, length-append {0} c.errors.bytes (b ∷ bytes)))
