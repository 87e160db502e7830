-- ===== src/Engine/Coalescer/Drain.antt =====
-- engine/src/application/coalescer.rs: `drain_due`, on its three branches.
use project_apex.Engine.Event.{RawKind, RawEvent}
use project_apex.Engine.Coalescer.{
  accept, Coalescer, Pending, Arrival, drain_due, emit_ready, expire_unpaired, is_ready,
  is_stale_from, is_stale_to, earliest, first_of, next_deadline, clear, event_of, sort_by_seq,
  batch, invalidate_all, is_recent, filter,
}
use project_apex.Prelude.{
  ℕ, ◌+◌, ◌<◌, ◌≡◌, refl, ◌∙◌, inl, inr, true, false, not, Option, none, some, List, [], ◌∷◌, map,
  arith, leb, Bool-cases, Option-cases, length, All, All-append, Text,
}
use project_apex.Prelude.Map.{values, take_each-filter}
use project_apex.Prelude.Kept.{filter-IsSorted, All-values-filter}
use project_apex.Engine.Coalescer.Ready.{IsValid, expire_unpaired-IsValid, expire_unpaired-left}
use project_apex.Prelude.Order.{nat_ord, text_ord}

earliest-late :
    (now : ℕ) (ts : List ℕ) (t : ℕ) → All (λ u. now < u) ts → earliest ts ≡ some t → now < t
unfolding earliest
earliest-late now [] t late e = ground arith
earliest-late now (u ∷ ts) t late e =
    let rest : (v : ℕ) → earliest ts ≡ some v → now < v = λ v. earliest-late now ts v late.1 in
    elim (Option-cases (earliest ts)) [
      | inl last ↦ ground (arith, last, late.0)
      | inr (v, next) ↦ ground (arith, next, late.0, rest v next)
    ]

first_of-late :
    (now : ℕ) (a b : Option ℕ) (t : ℕ)
    → ((u : ℕ) → a ≡ some u → now < u)
    → ((u : ℕ) → b ≡ some u → now < u)
    → first_of a b ≡ some t
    → now < t
first_of-late now none none t ha hb e = ground arith
first_of-late now none (some b) t ha hb e = hb t e
first_of-late now (some a) none t ha hb e = ha t e
first_of-late now (some a) (some b) t ha hb e = ground (arith, ha a, hb b)

-- The due events leave, and what is left is not due.
pub emit_ready-batch :
    (now : ℕ) (c : Coalescer)
    → IsValid c
    → emit_ready now c ≡ (
      record c { pending = filter (λ e. not (is_ready now e)) c.pending },
      batch (map event_of (sort_by_seq (filter (is_ready now) c.pending))),
    )
unfolding emit_ready
emit_ready-batch now c v = rw (take_each-filter (is_ready now) c.pending v.pending) refl

emit_ready-IsValid : (now : ℕ) (c : Coalescer) → IsValid c → IsValid (emit_ready now c).0
emit_ready-IsValid now c v = rw (emit_ready-batch now c v) (record {
  pending = filter-IsSorted (λ e. not (is_ready now e)) c.pending v.pending;
  unpaired_from = v.unpaired_from;
  unpaired_to = v.unpaired_to;
})

-- When nothing overflowed and no half of a move has waited a whole window, nothing is due now.
emit_ready-settles :
    (now : ℕ) (c : Coalescer) (t : ℕ)
    → IsValid c
    → c.overflowed ≡ false
    → All (λ u. now < u) (map (λ (m : Text × ℕ). m.1 + c.window) (values c.unpaired_from))
    → All (λ u. now < u) (map (λ (a : Arrival). a.seen + c.window) (values c.unpaired_to))
    → next_deadline (emit_ready now c).0 ≡ some t
    → now < t
unfolding next_deadline is_ready
emit_ready-settles now c t v calm froms tos =
    rw (emit_ready-batch now c v, calm)
      (first_of-late now _ _ t
        (λ u. earliest-late now _ u (
          All-values-filter (is_ready now) (λ (p : Pending). p.due) now (λ e h. ground arith)
            c.pending))
        (λ u. earliest-late now _ u (All-append (λ u. now < u) _ _ froms tos)))

abbrev pub refreshed : ℕ → Coalescer → Coalescer
refreshed now c = record c { recent = filter (is_recent c.bulk_window now) c.recent }

pub refreshed-IsValid : (now : ℕ) (c : Coalescer) → IsValid c → IsValid (refreshed now c)
refreshed-IsValid now c v = record {
  pending = v.pending;
  unpaired_from = v.unpaired_from;
  unpaired_to = v.unpaired_to;
}

-- What the third branch drains has nothing left that is due.
expired-settles :
    (now : ℕ) (c : Coalescer) (t : ℕ)
    → IsValid c
    → c.overflowed ≡ false
    → next_deadline (emit_ready now (expire_unpaired now c)).0 ≡ some t
    → now < t
unfolding is_stale_from is_stale_to
expired-settles now c t v calm =
    let left = expire_unpaired-left now c v in
    emit_ready-settles now (expire_unpaired now c) t (expire_unpaired-IsValid now c v)
      (left.3 ∙ calm)
      (rw (left.0, left.2)
        (All-values-filter (is_stale_from c.window now) (λ (m : Text × ℕ). m.1 + c.window) now
          (λ e h. ground arith) c.unpaired_from))
      (rw (left.1, left.2)
        (All-values-filter (is_stale_to c.window now) (λ (a : Arrival). a.seen + c.window) now
          (λ e h. ground arith) c.unpaired_to))

cleared-quiet : (c : Coalescer) → c.overflowed ≡ false → next_deadline (clear c) ≡ none
unfolding next_deadline clear earliest
cleared-quiet c calm = rw calm refl

drain_due-overflow :
    (now : ℕ) (c : Coalescer)
    → c.overflowed ≡ true
    → drain_due now c ≡ (clear (record c { overflowed = false }), invalidate_all)
unfolding drain_due
drain_due-overflow now c over = rw over refl

drain_due-bulk :
    (now : ℕ) (c : Coalescer)
    → c.overflowed ≡ false
    → leb c.bulk_limit (length (refreshed now c).recent) ≡ true
    → drain_due now c ≡ (clear (refreshed now c), invalidate_all)
unfolding drain_due
drain_due-bulk now c calm bulk = rw (calm, bulk) refl

pub drain_due-few :
    (now : ℕ) (c : Coalescer)
    → c.overflowed ≡ false
    → leb c.bulk_limit (length (refreshed now c).recent) ≡ false
    → drain_due now c ≡ emit_ready now (expire_unpaired now (refreshed now c))
unfolding drain_due
drain_due-few now c calm few = rw (calm, few) refl

-- When the maps are sorted, every deadline that is left after a drain lies after the time of the
-- drain, on each branch of it.
pub drain_due-is_settled :
    (now : ℕ) (c : Coalescer) (t : ℕ)
    → IsValid c
    → next_deadline (drain_due now c).0 ≡ some t
    → now < t
drain_due-is_settled now c t v = elim (Bool-cases c.overflowed) [
  | inl over ↦
      rw (drain_due-overflow now c over, cleared-quiet (record c { overflowed = false }) refl)
        (λ h. ground arith)
  | inr calm ↦ elim (Bool-cases (leb c.bulk_limit (length (refreshed now c).recent))) [
    | inl bulk ↦
        rw (drain_due-bulk now c calm bulk, cleared-quiet (refreshed now c) calm)
          (λ h. ground arith)
    | inr few ↦
        rw (drain_due-few now c calm few)
          (expired-settles now (refreshed now c) t (refreshed-IsValid now c v) calm)
  ]
]

accept-overflow :
    (raw : RawEvent) (at : ℕ) (c : Coalescer)
    → raw.kind ≡ RawKind.overflow
    → accept raw at c ≡ record c { overflowed = true }
unfolding accept
accept-overflow raw at c dropped = rw dropped refl

-- When an overflow is accepted, the drain that follows, at any time, tells the client to read
-- everything again and leaves no deadline.
pub overflow-invalidate_all :
    (raw : RawEvent) (at now : ℕ) (c : Coalescer)
    → raw.kind ≡ RawKind.overflow
    → ((drain_due now (accept raw at c)).1 ≡ invalidate_all)
      × (next_deadline (drain_due now (accept raw at c)).0 ≡ none)
overflow-invalidate_all raw at now c dropped =
    rw
      (
        accept-overflow raw at c dropped,
        drain_due-overflow now (record c { overflowed = true }) refl,
      )
      (refl, cleared-quiet (record c { overflowed = false }) refl)

pub drain_due-IsValid : (now : ℕ) (c : Coalescer) → IsValid c → IsValid (drain_due now c).0
unfolding clear
drain_due-IsValid now c v = elim (Bool-cases c.overflowed) [
  | inl over ↦
      rw (drain_due-overflow now c over)
        (record { pending = tt; unpaired_from = tt; unpaired_to = tt })
  | inr calm ↦ elim (Bool-cases (leb c.bulk_limit (length (refreshed now c).recent))) [
    | inl bulk ↦
        rw (drain_due-bulk now c calm bulk)
          (record { pending = tt; unpaired_from = tt; unpaired_to = tt })
    | inr few ↦ rw (drain_due-few now c calm few) (
        emit_ready-IsValid now _
          (expire_unpaired-IsValid now (refreshed now c) (refreshed-IsValid now c v)))
  ]
]
