-- ===== src/Engine/Coalescer/Due.antt =====
-- engine/src/application/coalescer.rs: the window of a path closes when its first event said.
use project_apex.Prelude.{
  ℕ, ◌≡◌, refl, sym, ◌∙◌, inl, inr, Bool, true, some, List, [], ◌∷◌, Bool-cases, Option-cases, Text,
}
use project_apex.Prelude.Int.{ℤ}
use project_apex.Prelude.Map.{remove, get, same, get-insert, same_eq}
use project_apex.Engine.Event.{RawKind, RawEvent, EventKind}
use project_apex.Engine.Coalescer.{
  Coalescer, Pending, accept, note_recent, record_event, record_rename, upsert, moved_from,
  moved_to, min,
}
use project_apex.Prelude.Order.{text_ord, nat_ord}

-- The path still pends, and its window still closes when it did.
abbrev pub Keeps : Text → Pending → Coalescer → Type 0
Keeps path p c = (q : Pending) × (get path c.pending ≡ some q) × (q.due ≡ p.due) × (q.seq ≡ p.seq)

upsert-Keeps :
    (at : Text) (fresh : Pending) (change : Pending → Pending) (c : Coalescer) (path : Text)
    (p : Pending)
    → ((r : Pending) → ((change r).due ≡ r.due) × ((change r).seq ≡ r.seq))
    → Keeps path p c
    → Keeps path p (upsert at fresh change c)
unfolding upsert
upsert-Keeps at fresh change c path p steady (q, held, due, seq) =
    elim (Bool-cases (same path at)) [
      | inl one ↦
          let here = same_eq path at one in
          (
            change q,
            rw (get-insert at path, one, sym here, held) refl,
            (steady q).0 ∙ due,
            (steady q).1 ∙ seq,
          )
      | inr other ↦ (q, rw (get-insert at path, other) held, due, seq)
    ]

record_event-Keeps :
    (raw : RawEvent) (kind : EventKind) (now : ℕ) (c : Coalescer) (path : Text) (p : Pending)
    → Keeps path p c
    → Keeps path p (record_event raw kind now c)
unfolding record_event
record_event-Keeps raw kind now c path p keeps =
    upsert-Keeps raw.relative_path _ _ _ path p (λ r. (refl, refl)) keeps

record_rename-Keeps :
    (source to : Text) (is_directory : Bool) (size : ℕ) (modified : ℤ) (started : ℕ) (c : Coalescer)
    (path : Text) (p : Pending)
    → Keeps path p c
    → Keeps path p (record_rename source to is_directory size modified started c)
unfolding record_rename note_recent
record_rename-Keeps source to is_directory size modified started c path p keeps =
    upsert-Keeps source _ _ _ path p (λ r. (refl, refl)) keeps

moved_from-Keeps :
    (raw : RawEvent) (cookie now : ℕ) (c : Coalescer) (path : Text) (p : Pending)
    → Keeps path p c
    → Keeps path p (moved_from raw cookie now c)
unfolding moved_from
moved_from-Keeps raw cookie now c path p keeps = elim (Option-cases (get cookie c.unpaired_to)) [
  | inl alone ↦ rw (alone, moved_from) keeps
  | inr (a, met) ↦
      rw (met, moved_from)
        (record_rename-Keeps raw.relative_path a.path a.is_directory a.size a.modified
          (min a.seen now) (record c { unpaired_to = remove cookie c.unpaired_to }) path p keeps)
]

moved_to-Keeps :
    (raw : RawEvent) (cookie now : ℕ) (c : Coalescer) (path : Text) (p : Pending)
    → Keeps path p c
    → Keeps path p (moved_to raw cookie now c)
unfolding moved_to
moved_to-Keeps raw cookie now c path p keeps = elim (Option-cases (get cookie c.unpaired_from)) [
  | inl alone ↦ rw (alone, moved_to) keeps
  | inr (a, met) ↦
      rw (met, moved_to)
        (record_rename-Keeps a.0 raw.relative_path raw.is_directory raw.size raw.modified
          (min a.1 now) (record c { unpaired_from = remove cookie c.unpaired_from }) path p keeps)
]

accept-Keeps :
    (raw : RawEvent) (now : ℕ) (c : Coalescer) (path : Text) (p : Pending)
    → Keeps path p c
    → Keeps path p (accept raw now c)
unfolding accept note_recent
accept-Keeps raw now c path p keeps =
    let noted = note_recent raw.relative_path now c in
    elim raw.kind
      as (λ k. Keeps path p (elim k [
        | RawKind.overflow ↦ record c { overflowed = true }
        | RawKind.moved_from cookie ↦ moved_from raw cookie now noted
        | RawKind.moved_to cookie ↦ moved_to raw cookie now noted
        | RawKind.created ↦ record_event raw EventKind.created now noted
        | RawKind.modified ↦ record_event raw EventKind.modified now noted
        | RawKind.deleted ↦ record_event raw EventKind.deleted now noted
      ])) [
        | RawKind.overflow ↦ keeps
        | RawKind.moved_from cookie ↦ moved_from-Keeps raw cookie now noted path p keeps
        | RawKind.moved_to cookie ↦ moved_to-Keeps raw cookie now noted path p keeps
        | RawKind.created ↦ record_event-Keeps raw EventKind.created now noted path p keeps
        | RawKind.modified ↦ record_event-Keeps raw EventKind.modified now noted path p keeps
        | RawKind.deleted ↦ record_event-Keeps raw EventKind.deleted now noted path p keeps
      ]

-- The events as they arrive, each with its time.
abbrev pub absorb : List (RawEvent × ℕ) → Coalescer → Coalescer
absorb [] c = c
absorb ((raw, now) ∷ rest) c = absorb rest (accept raw now c)

absorb-Keeps :
    (events : List (RawEvent × ℕ)) (c : Coalescer) (path : Text) (p : Pending)
    → Keeps path p c
    → Keeps path p (absorb events c)
absorb-Keeps [] c path p keeps = keeps
absorb-Keeps ((raw, now) ∷ rest) c path p keeps =
    absorb-Keeps rest (accept raw now c) path p (accept-Keeps raw now c path p keeps)

-- When a path pends, it pends after any events, of any kinds and times, and neither the end of its
-- window nor its place in the order has changed.
pub absorb-due :
    (events : List (RawEvent × ℕ)) (c : Coalescer) (path : Text) (p : Pending)
    → get path c.pending ≡ some p
    → (q : Pending) × (get path (absorb events c).pending ≡ some q)
      × (q.due ≡ p.due)
      × (q.seq ≡ p.seq)
absorb-due events c path p held = absorb-Keeps events c path p (p, held, refl, refl)
