-- ===== src/Engine/Coalescer/Invariant.antt =====
-- engine/src/application/coalescer.rs: the maps stay maps under every operation, and a batch is in
-- the order of arrival.
use project_apex.Prelude.{
  ℕ, ◌≤◌, inl, inr, Bool, true, List, [], ◌∷◌, arith, leb, Bool-cases, Option-cases, All, Text,
}
use project_apex.Prelude.Int.{ℤ}
use project_apex.Prelude.Map.{get, insert-IsSorted, remove-IsSorted}
use project_apex.Engine.Event.{RawKind, RawEvent, EventKind}
use project_apex.Engine.Coalescer.{
  Coalescer, Pending, new, accept, note_recent, record_event, record_rename, moved_from, moved_to,
  drain_due, place, sort_by_seq, min,
}
use project_apex.Engine.Coalescer.Ready.{IsValid, new-IsValid, upsert-IsValid}
use project_apex.Engine.Coalescer.Drain.{drain_due-IsValid}
use project_apex.Prelude.Order.{nat_ord}

note_recent-IsValid :
    (path : Text) (now : ℕ) (c : Coalescer) → IsValid c → IsValid (note_recent path now c)
unfolding note_recent
note_recent-IsValid path now c v = record {
  pending = v.pending;
  unpaired_from = v.unpaired_from;
  unpaired_to = v.unpaired_to;
}

counted-IsValid : (c : Coalescer) (n : ℕ) → IsValid c → IsValid (record c { seq = n })
counted-IsValid c n v = record {
  pending = v.pending;
  unpaired_from = v.unpaired_from;
  unpaired_to = v.unpaired_to;
}

record_event-IsValid :
    (raw : RawEvent) (kind : EventKind) (now : ℕ) (c : Coalescer)
    → IsValid c
    → IsValid (record_event raw kind now c)
unfolding record_event
record_event-IsValid raw kind now c v =
    upsert-IsValid raw.relative_path _ _ _ (counted-IsValid c _ v)

record_rename-IsValid :
    (source to : Text) (is_directory : Bool) (size : ℕ) (modified : ℤ) (started : ℕ) (c : Coalescer)
    → IsValid c
    → IsValid (record_rename source to is_directory size modified started c)
unfolding record_rename
record_rename-IsValid source to is_directory size modified started c v =
    upsert-IsValid source _ _ _
      (counted-IsValid (note_recent to started c) _ (note_recent-IsValid to started c v))

moved_from-IsValid :
    (raw : RawEvent) (cookie now : ℕ) (c : Coalescer)
    → IsValid c
    → IsValid (moved_from raw cookie now c)
unfolding moved_from
moved_from-IsValid raw cookie now c v = elim (Option-cases (get cookie c.unpaired_to)) [
  | inl alone ↦
      rw (alone, moved_from)
        (record {
          pending = v.pending;
          unpaired_from = insert-IsSorted cookie _ c.unpaired_from v.unpaired_from;
          unpaired_to = v.unpaired_to;
        })
  | inr (a, met) ↦
      rw (met, moved_from)
        (record_rename-IsValid raw.relative_path a.path a.is_directory a.size a.modified
          (min a.seen now) _
          (record {
            pending = v.pending;
            unpaired_from = v.unpaired_from;
            unpaired_to = remove-IsSorted cookie c.unpaired_to v.unpaired_to;
          }))
]

moved_to-IsValid :
    (raw : RawEvent) (cookie now : ℕ) (c : Coalescer)
    → IsValid c
    → IsValid (moved_to raw cookie now c)
unfolding moved_to
moved_to-IsValid raw cookie now c v = elim (Option-cases (get cookie c.unpaired_from)) [
  | inl alone ↦
      rw (alone, moved_to)
        (record {
          pending = v.pending;
          unpaired_from = v.unpaired_from;
          unpaired_to = insert-IsSorted cookie _ c.unpaired_to v.unpaired_to;
        })
  | inr (a, met) ↦
      rw (met, moved_to)
        (record_rename-IsValid a.0 raw.relative_path raw.is_directory raw.size raw.modified
          (min a.1 now) _
          (record {
            pending = v.pending;
            unpaired_from = remove-IsSorted cookie c.unpaired_from v.unpaired_from;
            unpaired_to = v.unpaired_to;
          }))
]

accept-IsValid : (raw : RawEvent) (now : ℕ) (c : Coalescer) → IsValid c → IsValid (accept raw now c)
unfolding accept
accept-IsValid raw now c v =
    let noted = note_recent raw.relative_path now c in
    let w = note_recent-IsValid raw.relative_path now c v in
    elim raw.kind
      as (λ k. IsValid (elim k [
        | RawKind.overflow ↦ record c { overflowed = true }
        | RawKind.moved_from cookie ↦ moved_from raw cookie now noted
        | RawKind.moved_to cookie ↦ moved_to raw cookie now noted
        | RawKind.created ↦ record_event raw EventKind.created now noted
        | RawKind.modified ↦ record_event raw EventKind.modified now noted
        | RawKind.deleted ↦ record_event raw EventKind.deleted now noted
      ])) [
        | RawKind.overflow ↦ record {
          pending = v.pending;
          unpaired_from = v.unpaired_from;
          unpaired_to = v.unpaired_to;
        }
        | RawKind.moved_from cookie ↦ moved_from-IsValid raw cookie now noted w
        | RawKind.moved_to cookie ↦ moved_to-IsValid raw cookie now noted w
        | RawKind.created ↦ record_event-IsValid raw EventKind.created now noted w
        | RawKind.modified ↦ record_event-IsValid raw EventKind.modified now noted w
        | RawKind.deleted ↦ record_event-IsValid raw EventKind.deleted now noted w
      ]

-- The states that the watcher thread can bring about.
pub data Reached (start : Coalescer) : Coalescer → Type 0 where
  begin : Reached start start
  accepted :
      (c : Coalescer) (raw : RawEvent) (now : ℕ)
      → Reached start c
      → Reached start (accept raw now c)
  drained : (c : Coalescer) (now : ℕ) → Reached start c → Reached start (drain_due now c).0

-- In every state that accepts and drains bring about from a new coalescer, the three maps are
-- sorted by their keys.
pub Reached-IsValid :
    (window bulk_window limit : ℕ) (c : Coalescer)
    → Reached (new window bulk_window limit) c
    → IsValid c
Reached-IsValid window bulk_window limit c begin = new-IsValid window bulk_window limit
Reached-IsValid window bulk_window limit c (accepted d raw now r) =
    accept-IsValid raw now d (Reached-IsValid window bulk_window limit d r)
Reached-IsValid window bulk_window limit c (drained d now r) =
    drain_due-IsValid now d (Reached-IsValid window bulk_window limit d r)

abbrev pub Ordered : List (Text × Pending) → Type 0
Ordered [] = Unit
Ordered (e ∷ es) = All (λ (f : Text × Pending). e.1.seq ≤ f.1.seq) es × Ordered es

place-All :
    (P : Text × Pending → Type 0) (e : Text × Pending) (es : List (Text × Pending))
    → P e
    → All P es
    → All P (place e es)
unfolding place
place-All P e [] h a = (h, tt)
place-All P e (f ∷ fs) h a = elim (Bool-cases (leb e.1.seq f.1.seq)) [
  | inl first ↦ rw (first, place) (h, (a.0, a.1))
  | inr after ↦ rw (after, place) (a.0, place-All P e fs h a.1)
]

raise :
    (n m : ℕ) (es : List (Text × Pending))
    → n ≤ m
    → All (λ (f : Text × Pending). m ≤ f.1.seq) es
    → All (λ (f : Text × Pending). n ≤ f.1.seq) es
raise n m [] h a = tt
raise n m (e ∷ es) h a = (omega (arith, h, a.0), raise n m es h a.1)

place-Ordered :
    (e : Text × Pending) (es : List (Text × Pending)) → Ordered es → Ordered (place e es)
unfolding place
place-Ordered e [] o = (tt, tt)
place-Ordered e (f ∷ fs) o = elim (Bool-cases (leb e.1.seq f.1.seq)) [
  | inl first ↦
      rw (first, place) ((ground arith, raise e.1.seq f.1.seq fs (ground arith) o.0), (o.0, o.1))
  | inr after ↦
      rw (after, place)
        (
          place-All (λ (g : Text × Pending). f.1.seq ≤ g.1.seq) e fs (ground arith) o.0,
          place-Ordered e fs o.1,
        )
]

-- What is sorted is in the order of arrival.
pub sort_by_seq-Ordered : (es : List (Text × Pending)) → Ordered (sort_by_seq es)
unfolding sort_by_seq
sort_by_seq-Ordered [] = tt
sort_by_seq-Ordered (e ∷ es) = place-Ordered e (sort_by_seq es) (sort_by_seq-Ordered es)
