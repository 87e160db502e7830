-- ===== src/Engine/Output/Bounds.antt =====
-- The sizes of the chunks, and when a partial has a deadline.
use project_apex.Prelude.{
  ℕ, ◌≤◌, ◌<◌, ◌≡◌, refl, sym, inl, inr, Bool, true, false, Option, none, some, List, [], ◌∷◌, ◌++◌,
  map, arith, Bool-cases, length, All, All-append,
}
use project_apex.Engine.TaskSet.{Stream, stdout, stderr, OutputChunk}
use mathlib.Core.Bool.{false≢true}
use project_apex.Engine.Output.{
  is_due, holds_bytes, Partial, Chunker, new, accept, flush, drain_due, drain_all, split_full,
  is_nil, take_ready, chunk_bytes, since_after,
}
use project_apex.Engine.Output.Split.{split_full-sizes, split_full-rest}
use project_apex.Engine.Output.Conserve.{Call, read, tick, finish, call, run}

abbrev pub is_none {ℓ} : {A : Type ℓ} → Option A → Bool
is_none none = true
is_none (some a) = false

-- A partial is shorter than a chunk, and has a deadline exactly when it holds bytes.
pub record IsPartial (p : Partial) : Type 0 where
  pub short : length p.bytes < chunk_bytes
  pub timed : is_none p.since ≡ is_nil p.bytes

-- A chunk that may be sent: not empty, and within the size bound.
abbrev pub IsChunk : OutputChunk → Type 0
IsChunk c = (0 < length c.bytes) × (length c.bytes ≤ chunk_bytes)

pub record IsValid (c : Chunker) : Type 0 where
  pub out : IsPartial c.out
  pub errors : IsPartial c.errors
  pub ready : All IsChunk c.ready

pub new-IsValid : IsValid new
unfolding new
new-IsValid = record {
  out = record { short = omega arith; timed = refl };
  errors = record { short = omega arith; timed = refl };
  ready = tt;
}

full-IsChunk :
    (t : Stream) (bs : List (List ℕ))
    → All (λ b. length b ≡ chunk_bytes) bs
    → All IsChunk (map (λ b. record { stream = t; bytes = b }) bs)
full-IsChunk t [] h = tt
full-IsChunk t (b ∷ bs) h = ((omega arith, omega arith), full-IsChunk t bs h.1)

since_timed :
    (since : Option ℕ) (full : List (List ℕ)) (rest : List ℕ) (now : ℕ)
    → is_none since ≡ false
    → is_none (since_after since full rest now) ≡ is_nil rest
unfolding since_after
since_timed since full rest now h = ground arith

grown-IsPartial :
    (all : List ℕ) (since : Option ℕ) (now : ℕ)
    → is_none since ≡ false
    → IsPartial (record {
      bytes = (split_full chunk_bytes (length all) all).1;
      since =
          since_after since
            (split_full chunk_bytes (length all) all).0
            (split_full chunk_bytes (length all) all).1
            now;
    })
grown-IsPartial all since now h = record {
  short = split_full-rest chunk_bytes (length all) all (omega arith) (omega arith);
  timed = since_timed since _ _ now h;
}

-- Reading bytes keeps the invariant.
pub accept-IsValid :
    (t : Stream) (bytes : List ℕ) (now : ℕ) (c : Chunker)
    → IsValid c
    → IsValid (accept t bytes now c)
unfolding accept
accept-IsValid t [] now c v = v
accept-IsValid stdout (b ∷ bytes) now c v = record {
  out = grown-IsPartial (c.out.bytes ++ (b ∷ bytes)) _ now (ground arith);
  errors = v.errors;
  ready =
      All-append IsChunk c.ready _ v.ready
        (full-IsChunk stdout _ (split_full-sizes chunk_bytes _ _));
}
accept-IsValid stderr (b ∷ bytes) now c v = record {
  out = v.out;
  errors = grown-IsPartial (c.errors.bytes ++ (b ∷ bytes)) _ now (ground arith);
  ready =
      All-append IsChunk c.ready _ v.ready
        (full-IsChunk stderr _ (split_full-sizes chunk_bytes _ _));
}

nil_or_pos : (bytes : List ℕ) → is_nil bytes ≡ false → 0 < length bytes
nil_or_pos [] h = absurd (false≢true (sym h))
nil_or_pos (b ∷ bytes) h = omega arith

-- A flush that takes only what holds bytes keeps the invariant and sends chunks within the bound.
flush-IsValid :
    (due : Partial → Bool)
    → ((p : Partial) → due p ≡ true → is_nil p.bytes ≡ false)
    → (t : Stream) (x : Chunker × List OutputChunk) → IsValid x.0
    → All IsChunk x.1
    → IsValid (flush due t x).0 × All IsChunk (flush due t x).1
unfolding flush
flush-IsValid due held stdout (c, cs) v a = elim (Bool-cases (due c.out)) [
  | inl now ↦
      let some_bytes = held c.out now in
      rw (now, flush)
        (
          record {
            out = record { short = omega arith; timed = refl };
            errors = v.errors;
            ready = v.ready;
          },
          All-append IsChunk cs _ a ((nil_or_pos c.out.bytes some_bytes, omega arith), tt),
        )
  | inr later ↦ rw (later, flush) (v, a)
]
flush-IsValid due held stderr (c, cs) v a = elim (Bool-cases (due c.errors)) [
  | inl now ↦
      let some_bytes = held c.errors now in
      rw (now, flush)
        (
          record {
            out = v.out;
            errors = record { short = omega arith; timed = refl };
            ready = v.ready;
          },
          All-append IsChunk cs _ a ((nil_or_pos c.errors.bytes some_bytes, omega arith), tt),
        )
  | inr later ↦ rw (later, flush) (v, a)
]

due_held : (now : ℕ) (p : Partial) → is_due now p ≡ true → is_nil p.bytes ≡ false
unfolding is_due
due_held now p h = ground arith

bytes_held : (p : Partial) → holds_bytes p ≡ true → is_nil p.bytes ≡ false
bytes_held p h = ground arith

flushed-IsValid :
    (due : Partial → Bool)
    → ((p : Partial) → due p ≡ true → is_nil p.bytes ≡ false)
    → (c : Chunker) → IsValid c
    → IsValid (flush due stderr (flush due stdout (take_ready c))).0
      × All IsChunk (flush due stderr (flush due stdout (take_ready c))).1
flushed-IsValid due held c v =
    let ready_taken : IsValid (take_ready c).0 = record {
      out = v.out;
      errors = v.errors;
      ready = tt;
    } in
    let (v', a) = flush-IsValid due held stdout (take_ready c) ready_taken v.ready in
    flush-IsValid due held stderr (flush due stdout (take_ready c)) v' a

-- Every call keeps the invariant, and sends only chunks within the bound.
pub call-IsValid :
    (k : Call) (c : Chunker) → IsValid c → IsValid (call k c).0 × All IsChunk (call k c).1
unfolding call drain_due drain_all
call-IsValid (read t bytes now) c v = (accept-IsValid t bytes now c v, tt)
call-IsValid (tick now) c v = flushed-IsValid (is_due now) (due_held now) c v
call-IsValid finish c v = flushed-IsValid holds_bytes bytes_held c v

-- From a chunker whose partials are shorter than a chunk with a deadline exactly when they hold
-- bytes, and whose ready chunks hold from 1 byte to 64 KiB, any sequence of calls sends only
-- chunks from 1 byte to 64 KiB and leaves such a chunker.
pub run-IsValid :
    (calls : List Call) (c : Chunker)
    → IsValid c
    → IsValid (run calls c).0 × All IsChunk (run calls c).1
unfolding run
run-IsValid [] c v = (v, tt)
run-IsValid (k ∷ calls) c v =
    let (v', a) = call-IsValid k c v in
    let (last, b) = run-IsValid calls (call k c).0 v' in
    (last, All-append IsChunk (call k c).1 (run calls (call k c).0).1 a b)
