-- ===== src/Engine/Coalescer/Tests.antt =====
-- The events of the tests of engine/src/application/coalescer.rs.
use project_apex.Prelude.{◌<◌, ◌≡◌, refl, false, some, [], ◌∷◌, Text, codes}
use project_apex.Engine.Coalescer.{
  record_event, upsert, note_recent, merge, earliest, emit_ready, expire_from, expire_to,
  is_stale_from, is_stale_to, Coalescer, Pending, accept, drain_due, next_deadline, is_ready,
  is_recent, expire_unpaired,
}
use project_apex.Prelude.Map.{insert, remove, take_each, get, same}
use project_apex.Prelude.Int.{pos}
use project_apex.Prelude.Order.{text_ord, nat_ord}
use project_apex.Engine.Event.{RawKind, RawEvent, EventKind}
use project_apex.Engine.Coalescer.Ready.{IsValid}
use project_apex.Engine.Coalescer.Drain.{drain_due-is_settled}
use project_apex.Engine.Coalescer.Due.{absorb, absorb-due}

abbrev raw : RawKind → Text → RawEvent
raw kind path = record {
  kind = kind;
  relative_path = path;
  is_directory = false;
  size = 1;
  modified = pos 0;
}

abbrev entry : Pending
entry = record {
  kind = EventKind.created;
  is_directory = false;
  size = 1;
  modified = pos 0;
  due = 100;
  seq = 1;
}

-- "a.rs" was created at 0, and is told of at 100.
abbrev created_once : Coalescer
created_once = record {
  window = 100;
  bulk_window = 1000;
  bulk_limit = 256;
  pending = (codes "a.rs", entry) ∷ [];
  unpaired_from = [];
  unpaired_to = [];
  recent = (0, codes "a.rs") ∷ [];
  overflowed = false;
  seq = 1;
}

created_once-IsValid : IsValid created_once
created_once-IsValid = record { pending = (tt, tt); unpaired_from = tt; unpaired_to = tt }

abbrev start : Coalescer
start = record {
  window = 100;
  bulk_window = 1000;
  bulk_limit = 256;
  pending = [];
  unpaired_from = [];
  unpaired_to = [];
  recent = [];
  overflowed = false;
  seq = 0;
}

created_at_0 : accept (raw RawKind.created (codes "a.rs")) 0 start ≡ created_once
unfolding accept record_event upsert note_recent insert merge get is_recent
created_at_0 = refl

next_of_created : next_deadline created_once ≡ some 100
unfolding next_deadline earliest
next_of_created = refl

still_100 : next_deadline (drain_due 60 created_once).0 ≡ some 100
unfolding next_deadline earliest drain_due emit_ready expire_unpaired expire_from expire_to is_ready
    is_recent is_stale_from is_stale_to take_each remove get
still_100 = refl

created_pends : get (codes "a.rs") created_once.pending ≡ some entry
unfolding get same
created_pends = refl

drain_due-is_settled_example : 60 < 100
drain_due-is_settled_example =
    drain_due-is_settled 60 created_once 100 created_once-IsValid still_100

absorb-due_example :
    (q : Pending) × (get
        (codes "a.rs")
        (absorb
          ((raw RawKind.modified (codes "a.rs"), 50) ∷ (raw RawKind.deleted (codes "b"), 60) ∷ [])
          created_once).pending
      ≡ some q)
    × (q.due ≡ entry.due)
    × (q.seq ≡ entry.seq)
absorb-due_example =
    absorb-due
      ((raw RawKind.modified (codes "a.rs"), 50) ∷ (raw RawKind.deleted (codes "b"), 60) ∷ [])
      created_once (codes "a.rs") entry created_pends

abbrev from_a : RawEvent
from_a = raw (RawKind.moved_from 7) (codes "a")

abbrev to_b : RawEvent
to_b = raw (RawKind.moved_to 7) (codes "b")
