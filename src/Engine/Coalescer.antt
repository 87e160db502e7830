-- ===== src/Engine/Coalescer.antt =====
-- engine/src/application/coalescer.rs: which observed changes are told to the client, and when.
-- Times are `Millis`, a `u64` of milliseconds since the start; the sums of two times are taken to
-- stay below 2 ^ 64. `saturating_sub` is `-` on ℕ, and a `sort_by_key` is a stable insertion sort.
pub mod Ready
pub mod Drain
pub mod Ordered
pub mod Told
pub mod Invariant
pub mod Due
pub mod Renames
mod Tests
use project_apex.Prelude.{
  ℕ, zero, suc, ◌+◌, ◌-◌, ◌*◌, ◌/◌, ◌%◌, ◌^◌, ◌≤◌, ◌<◌, ◌≡◌, refl, sym, ap, ◌∙◌, ◌≢◌, ◌↔◌, ◌⊎◌, inl,
  inr, Bool, true, false, not, ◌&&◌, ◌||◌, Option, none, some, List, [], ◌∷◌, ◌++◌, map, append-nil,
  append_assoc, arith, ltb, leb, ◌==◌, if◌then◌else◌, Bool-cases, Option-cases, length,
  length-append, All, All-append, Text, codes, filter, min,
}
use project_apex.Prelude.Int.{ℤ, pos}
use project_apex.Prelude.Map.{Map, get, insert, remove, values, take_each, keys_of, same}
use project_apex.Engine.Event.{RawKind, RawEvent, EventKind, FileEvent}
use project_apex.Prelude.Order.{nat_ord, text_ord}

abbrev pub window_ms : ℕ
window_ms = 100

abbrev pub bulk_threshold : ℕ
bulk_threshold = 256

abbrev pub bulk_window_ms : ℕ
bulk_window_ms = 1000

pub data Emission : Type 0 where
  batch : List FileEvent → Emission
  invalidate_all : Emission

pub record Pending : Type 0 where
  pub kind : EventKind
  pub is_directory : Bool
  pub size : ℕ
  pub modified : ℤ
  pub due : ℕ
  pub seq : ℕ

-- One half of a move that arrived before the other.
pub record Arrival : Type 0 where
  pub path : Text
  pub seen : ℕ
  pub is_directory : Bool
  pub size : ℕ
  pub modified : ℤ

pub record Coalescer : Type 0 where
  pub window : ℕ
  pub bulk_window : ℕ
  pub bulk_limit : ℕ
  pub pending : Map Text Pending
  pub unpaired_from : Map ℕ (Text × ℕ)
  pub unpaired_to : Map ℕ Arrival
  pub recent : List (ℕ × Text)
  pub overflowed : Bool
  pub seq : ℕ

unfoldable pub new : ℕ → ℕ → ℕ → Coalescer
new window bulk_window limit = record {
  window = window;
  bulk_window = bulk_window;
  bulk_limit = limit;
  pending = [];
  unpaired_from = [];
  unpaired_to = [];
  recent = [];
  overflowed = false;
  seq = 0;
}

unfoldable pub is_recent : ℕ → ℕ → ℕ × Text → Bool
is_recent bulk_window now (at, path) = ltb (now - at) bulk_window

abbrev pub sees : Text → List (ℕ × Text) → Bool
sees path [] = false
sees path ((at, other) ∷ recent) = same other path || sees path recent

unfoldable pub note_recent : Text → ℕ → Coalescer → Coalescer
note_recent path now c =
    let kept = filter (is_recent c.bulk_window now) c.recent in
    record c { recent = if sees path kept then kept else kept ++ (now, path) ∷ [] }

unfoldable pub merge : EventKind → EventKind → EventKind
merge EventKind.created EventKind.modified = EventKind.created
merge (EventKind.renamed to) EventKind.modified = EventKind.renamed to
merge existing incoming = incoming

-- `entry(path).or_insert_with(fresh)`, then the changes to the entry.
unfoldable pub upsert : Text → Pending → (Pending → Pending) → Coalescer → Coalescer
upsert path fresh change c =
    let entry : Pending = elim (get path c.pending) [ none ↦ fresh | some p ↦ p ] in
    record c { pending = insert path (change entry) c.pending }

abbrev pub next_seq : Coalescer → Coalescer
next_seq c = record c { seq = c.seq + 1 }

unfoldable pub record_event : RawEvent → EventKind → ℕ → Coalescer → Coalescer
record_event raw kind now c =
    upsert raw.relative_path
      (record {
        kind = kind;
        is_directory = raw.is_directory;
        size = raw.size;
        modified = raw.modified;
        due = now + c.window;
        seq = c.seq + 1;
      })
      (λ p. record p {
        kind = merge p.kind kind;
        is_directory = raw.is_directory;
        size = raw.size;
        modified = raw.modified;
      })
      (next_seq c)

unfoldable pub record_rename : Text → Text → Bool → ℕ → ℤ → ℕ → Coalescer → Coalescer
record_rename source to is_directory size modified started c =
    let noted = note_recent to started c in
    upsert source
      (record {
        kind = EventKind.renamed to;
        is_directory = is_directory;
        size = size;
        modified = modified;
        due = started + noted.window;
        seq = noted.seq + 1;
      })
      (λ p. record p { kind = EventKind.renamed to; is_directory = is_directory }) (next_seq noted)

unfoldable pub moved_from : RawEvent → ℕ → ℕ → Coalescer → Coalescer
moved_from raw cookie now c = elim (get cookie c.unpaired_to) [
  | some a ↦
      record_rename raw.relative_path a.path a.is_directory a.size a.modified (min a.seen now)
        (record c { unpaired_to = remove cookie c.unpaired_to })
  | none ↦ record c { unpaired_from = insert cookie (raw.relative_path, now) c.unpaired_from }
]

abbrev pub arrival : RawEvent → ℕ → Arrival
arrival raw now = record {
  path = raw.relative_path;
  seen = now;
  is_directory = raw.is_directory;
  size = raw.size;
  modified = raw.modified;
}

unfoldable pub moved_to : RawEvent → ℕ → ℕ → Coalescer → Coalescer
moved_to raw cookie now c = elim (get cookie c.unpaired_from) [
  | some (source, seen) ↦
      record_rename source raw.relative_path raw.is_directory raw.size raw.modified (min seen now)
        (record c { unpaired_from = remove cookie c.unpaired_from })
  | none ↦ record c { unpaired_to = insert cookie (arrival raw now) c.unpaired_to }
]

unfoldable pub accept : RawEvent → ℕ → Coalescer → Coalescer
accept raw now c =
    let noted = note_recent raw.relative_path now c in
    elim raw.kind [
      | RawKind.overflow ↦ record c { overflowed = true }
      | RawKind.moved_from cookie ↦ moved_from raw cookie now noted
      | RawKind.moved_to cookie ↦ moved_to raw cookie now noted
      | RawKind.created ↦ record_event raw EventKind.created now noted
      | RawKind.modified ↦ record_event raw EventKind.modified now noted
      | RawKind.deleted ↦ record_event raw EventKind.deleted now noted
    ]

-- `Iterator::min`
unfoldable pub earliest : List ℕ → Option ℕ
earliest [] = none
earliest (t ∷ ts) = elim (earliest ts) [ none ↦ some t | some u ↦ some (min t u) ]

abbrev pub first_of : Option ℕ → Option ℕ → Option ℕ
first_of none b = b
first_of (some a) none = some a
first_of (some a) (some b) = some (min a b)

unfoldable pub next_deadline : Coalescer → Option ℕ
next_deadline c =
    if c.overflowed
    then some 0
    else first_of (earliest (map (λ (p : Pending). p.due) (values c.pending))) (
        earliest (
          map (λ (m : Text × ℕ). m.1 + c.window) (values c.unpaired_from)
          ++ map (λ (a : Arrival). a.seen + c.window) (values c.unpaired_to)))

-- `entry(path).or_insert(..)` of a half of a move whose partner did not come
unfoldable pub settle : Text → EventKind → Bool → ℕ → ℤ → ℕ → Coalescer → Coalescer
settle path kind is_directory size modified at c =
    upsert path
      (record {
        kind = kind;
        is_directory = is_directory;
        size = size;
        modified = modified;
        due = at;
        seq = c.seq + 1;
      })
      (λ p. p) (next_seq c)

abbrev pub settle_from : List (ℕ × (Text × ℕ)) → Coalescer → Coalescer
settle_from [] c = c
settle_from ((cookie, (path, at)) ∷ stale) c =
    settle_from stale (settle path EventKind.deleted false 0 (pos 0) at c)

abbrev pub settle_to : List (ℕ × Arrival) → Coalescer → Coalescer
settle_to [] c = c
settle_to ((cookie, a) ∷ stale) c =
    settle_to stale (settle a.path EventKind.created a.is_directory a.size a.modified a.seen c)

unfoldable pub is_stale_from : ℕ → ℕ → ℕ × (Text × ℕ) → Bool
is_stale_from window now (cookie, (path, at)) = leb (at + window) now

unfoldable pub is_stale_to : ℕ → ℕ → ℕ × Arrival → Bool
is_stale_to window now (cookie, a) = leb (a.seen + window) now

unfoldable pub expire_from : ℕ → Coalescer → Coalescer
expire_from now c =
    let (left, stale) =
      take_each (keys_of (is_stale_from c.window now) c.unpaired_from) c.unpaired_from in
    settle_from stale (record c { unpaired_from = left })

unfoldable pub expire_to : ℕ → Coalescer → Coalescer
expire_to now c =
    let (left, stale) =
      take_each (keys_of (is_stale_to c.window now) c.unpaired_to) c.unpaired_to in
    settle_to stale (record c { unpaired_to = left })

unfoldable pub expire_unpaired : ℕ → Coalescer → Coalescer
expire_unpaired now c = expire_to now (expire_from now c)

unfoldable pub is_ready : ℕ → Text × Pending → Bool
is_ready now (path, p) = leb p.due now

abbrev pub event_of : Text × Pending → FileEvent
event_of (path, p) = record {
  kind = p.kind;
  relative_path = path;
  is_directory = p.is_directory;
  size = p.size;
  modified = p.modified;
}

-- `sort_by_key` on the order of arrival
unfoldable pub place : Text × Pending → List (Text × Pending) → List (Text × Pending)
place e [] = e ∷ []
place e (f ∷ fs) = let rest = place e fs in if leb e.1.seq f.1.seq then e ∷ f ∷ fs else f ∷ rest

unfoldable pub sort_by_seq : List (Text × Pending) → List (Text × Pending)
sort_by_seq [] = []
sort_by_seq (e ∷ es) = place e (sort_by_seq es)

unfoldable pub clear : Coalescer → Coalescer
clear c = record c { pending = []; unpaired_from = []; unpaired_to = []; recent = [] }

unfoldable pub emit_ready : ℕ → Coalescer → Coalescer × Emission
emit_ready now c =
    let (left, ready) = take_each (keys_of (is_ready now) c.pending) c.pending in
    (record c { pending = left }, batch (map event_of (sort_by_seq ready)))

unfoldable pub drain_due : ℕ → Coalescer → Coalescer × Emission
drain_due now c =
    if c.overflowed
    then (clear (record c { overflowed = false }), invalidate_all)
    else (let kept = record c { recent = filter (is_recent c.bulk_window now) c.recent } in
        if leb c.bulk_limit (length kept.recent)
        then (clear kept, invalidate_all)
        else emit_ready now (expire_unpaired now kept))
