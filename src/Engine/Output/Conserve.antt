-- ===== src/Engine/Output/Conserve.antt =====
-- No byte is lost, repeated or moved within its stream, whatever is read and whenever it is
-- drained.
use project_apex.Prelude.{
  ℕ, ◌≡◌, refl, sym, ap, ◌∙◌, Bool, true, false, List, [], ◌∷◌, ◌++◌, map, append-nil, append_assoc,
  arith, if◌then◌else◌, length,
}
use project_apex.Engine.TaskSet.{Stream, stdout, stderr, OutputChunk}
use project_apex.Engine.Output.{
  Partial, Chunker, partial, accept, flush, split_full, chunk_bytes, drain_due, take_ready,
  drain_all, is_due, holds_bytes,
}
use project_apex.Engine.Output.Split.{concat, split_full-concat}

abbrev is_stream : Stream → Stream → Bool
is_stream stdout stdout = true
is_stream stderr stderr = true
is_stream stdout stderr = false
is_stream stderr stdout = false

-- The bytes of the chunks of one stream, in order.
pub of_stream : Stream → List OutputChunk → List ℕ
of_stream s [] = []
of_stream s (c ∷ cs) =
    let rest = of_stream s cs in if is_stream s c.stream then c.bytes ++ rest else rest

-- What the chunker holds of one stream, in the order in which it will be sent.
unfoldable pub queued : Stream → Chunker → List ℕ
unfolding of_stream
queued s c = of_stream s c.ready ++ (partial s c).bytes

of_stream-append :
    (s : Stream) (cs ds : List OutputChunk)
    → of_stream s (cs ++ ds) ≡ of_stream s cs ++ of_stream s ds
unfolding of_stream
of_stream-append s [] ds = refl
of_stream-append s (c ∷ cs) ds =
    ground (arith, of_stream-append s cs ds, append_assoc c.bytes (of_stream s cs) (of_stream s ds))

abbrev chunks_of : Stream → List (List ℕ) → List OutputChunk
chunks_of s bs = map (λ b. record { stream = s; bytes = b }) bs

of_stream-chunks :
    (s t : Stream) (bs : List (List ℕ))
    → of_stream s (chunks_of t bs) ≡ (if is_stream s t then concat bs else [])
unfolding of_stream
of_stream-chunks s t [] = ground arith
of_stream-chunks s t (b ∷ bs) = ground (arith, of_stream-chunks s t bs)

-- `old` and `bytes` are cut into `full` and `rest`, behind what was ready.
regroup :
    (ready old bytes full rest : List ℕ)
    → full ++ rest ≡ old ++ bytes
    → (ready ++ full) ++ rest ≡ (ready ++ old) ++ bytes
regroup ready old bytes full rest h =
    append_assoc ready full rest ∙ ap (λ l. ready ++ l) h ∙ sym (append_assoc ready old bytes)

queued-accept :
    (s t : Stream) (bytes : List ℕ) (now : ℕ) (c : Chunker)
    → queued s (accept t bytes now c) ≡ queued s c ++ (if is_stream s t then bytes else [])
unfolding queued accept
queued-accept s t bytes now c =
    let old = (partial t c).bytes in
    let all = old ++ bytes in
    let cut = split_full chunk_bytes (length all) all in
    ground (
      arith,
      of_stream-append s c.ready (chunks_of t cut.0),
      of_stream-chunks s t cut.0,
      regroup (of_stream s c.ready) old bytes (concat cut.0) cut.1
          (split_full-concat chunk_bytes (length all) all),
      append-nil (of_stream s c.ready),
      append-nil (of_stream s c.ready ++ (partial s c).bytes),
    )

flush-queued :
    (due : Partial → Bool) (s t : Stream) (c : Chunker) (cs : List OutputChunk)
    → of_stream s (flush due t (c, cs)).1 ++ (partial s (flush due t (c, cs)).0).bytes
      ≡ of_stream s cs ++ (partial s c).bytes
unfolding flush of_stream
flush-queued due s t c cs =
    let chunk : OutputChunk = record { stream = t; bytes = (partial t c).bytes } in
    ground (
      arith,
      of_stream-append s cs (chunk ∷ []),
      append-nil (of_stream s cs),
      append-nil (of_stream s (cs ++ chunk ∷ [])),
      append-nil (partial t c).bytes,
    )

partial-ready : (s : Stream) (c : Chunker) → partial s (record c { ready = [] }) ≡ partial s c
partial-ready stdout c = refl
partial-ready stderr c = refl

flushed-queued :
    (due : Partial → Bool) (s : Stream) (c : Chunker)
    → of_stream s (flush due stderr (flush due stdout (take_ready c))).1
        ++ (partial s (flush due stderr (flush due stdout (take_ready c))).0).bytes
      ≡ queued s c
unfolding queued
flushed-queued due s c =
    let first = flush due stdout (take_ready c) in
    flush-queued due s stderr first.0 first.1
    ∙ flush-queued due s stdout (record c { ready = [] }) c.ready
    ∙ ap (λ p. of_stream s c.ready ++ p.bytes) (partial-ready s c)

flush-ready :
    (due : Partial → Bool) (t : Stream) (c : Chunker) (cs : List OutputChunk)
    → (flush due t (c, cs)).0.ready ≡ c.ready
unfolding flush
flush-ready due stdout c cs = ground arith
flush-ready due stderr c cs = ground arith

flushed-ready :
    (due : Partial → Bool) (c : Chunker)
    → (flush due stderr (flush due stdout (take_ready c))).0.ready ≡ []
flushed-ready due c =
    let (c', cs) = flush due stdout (take_ready c) in
    flush-ready due stderr c' cs ∙ flush-ready due stdout (record c { ready = [] }) c.ready

-- What a drain sends, and what it leaves, are what was queued.
drained :
    (due : Partial → Bool) (s : Stream) (c : Chunker)
    → of_stream s (flush due stderr (flush due stdout (take_ready c))).1
        ++ queued s (flush due stderr (flush due stdout (take_ready c))).0
      ≡ queued s c
drained due s c =
    unfold queued of_stream in
    let last = flush due stderr (flush due stdout (take_ready c)) in
    ap (λ cs. of_stream s last.1 ++ (of_stream s cs ++ (partial s last.0).bytes))
      (flushed-ready due c)
    ∙ flushed-queued due s c

-- One call: bytes read from a stream, a look at the clock, or the flush at the end.
pub data Call : Type 0 where
  read : Stream → List ℕ → ℕ → Call
  tick : ℕ → Call
  finish : Call

unfoldable pub call : Call → Chunker → Chunker × List OutputChunk
call (read t bytes now) c = (accept t bytes now c, [])
call (tick now) c = drain_due now c
call finish c = drain_all c

-- What was read from a stream in a sequence of calls.
unfoldable pub read_from : Stream → List Call → List ℕ
read_from s [] = []
read_from s (read t bytes now ∷ calls) =
    let rest = read_from s calls in if is_stream s t then bytes ++ rest else rest
read_from s (tick now ∷ calls) = read_from s calls
read_from s (finish ∷ calls) = read_from s calls

-- What a sequence of calls sends, and the chunker that it leaves.
unfoldable pub run : List Call → Chunker → Chunker × List OutputChunk
run [] c = (c, [])
run (k ∷ calls) c =
    let (c', sent) = call k c in let (last, later) = run calls c' in (last, sent ++ later)

call-queued :
    (s : Stream) (k : Call) (c : Chunker)
    → of_stream s (call k c).1 ++ queued s (call k c).0 ≡ queued s c ++ read_from s (k ∷ [])
unfolding call read_from drain_due drain_all of_stream
call-queued s (read t bytes now) c =
    ground (arith, queued-accept s t bytes now c, append-nil bytes, append-nil (queued s c))
call-queued s (tick now) c = drained (is_due now) s c ∙ sym (append-nil (queued s c))
call-queued s finish c = drained holds_bytes s c ∙ sym (append-nil (queued s c))

read_from-cons :
    (s : Stream) (k : Call) (calls : List Call)
    → read_from s (k ∷ calls) ≡ read_from s (k ∷ []) ++ read_from s calls
unfolding read_from
read_from-cons s (read t bytes now) calls = ground (arith, append-nil bytes)
read_from-cons s (tick now) calls = refl
read_from-cons s finish calls = refl

-- For each stream, the bytes sent in any sequence of calls followed by the bytes still held are
-- the bytes held before followed by the bytes read, in that order.
pub run-queued :
    (s : Stream) (calls : List Call) (c : Chunker)
    → of_stream s (run calls c).1 ++ queued s (run calls c).0 ≡ queued s c ++ read_from s calls
unfolding run of_stream read_from
run-queued s [] c = sym (append-nil (queued s c))
run-queued s (k ∷ calls) c =
    let (c', sent) = call k c in
    let (last, later) = run calls c' in
    ap (λ l. l ++ queued s last) (of_stream-append s sent later)
    ∙ append_assoc (of_stream s sent) (of_stream s later) (queued s last)
    ∙ ap (λ l. of_stream s sent ++ l) (run-queued s calls c')
    ∙ sym (append_assoc (of_stream s sent) (queued s c') (read_from s calls))
    ∙ ap (λ l. l ++ read_from s calls) (call-queued s k c)
    ∙ append_assoc (queued s c) (read_from s (k ∷ [])) (read_from s calls)
    ∙ ap (λ l. queued s c ++ l) (sym (read_from-cons s k calls))
