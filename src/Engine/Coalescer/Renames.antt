-- ===== src/Engine/Coalescer/Renames.antt =====
-- engine/src/application/coalescer.rs: the two halves of a move, in either order.
use project_apex.Prelude.{ℕ, ◌≡◌, none, Text, ◌+◌}
use project_apex.Prelude.Map.{Map, IsSorted, get}
use project_apex.Engine.Event.{RawKind, RawEvent}
use project_apex.Engine.Coalescer.{
  Coalescer, Pending, note_recent, record_rename, moved_from, moved_to, EventKind,
}
use project_apex.Prelude.Order.{nat_ord, text_ord}

module _ (source target : RawEvent) (cookie : ℕ) (c : Coalescer) where
  -- Neither half waits, and the two events are the halves of one move.
  pub record IsMove : Type 0 where
    pub leaves : source.kind ≡ RawKind.moved_from cookie
    pub arrives : target.kind ≡ RawKind.moved_to cookie
    pub sorted_from : IsSorted c.unpaired_from
    pub sorted_to : IsSorted c.unpaired_to
    pub no_source : get cookie c.unpaired_from ≡ none
    pub no_target : get cookie c.unpaired_to ≡ none

  -- The pending map once both halves have come, the first of them at the given time.
  abbrev settled : ℕ → Map Text Pending
  settled first =
      (record_rename source.relative_path target.relative_path target.is_directory target.size
        target.modified first c).pending

  abbrev noted : RawEvent → ℕ → Coalescer → Coalescer
  noted raw now d = note_recent raw.relative_path now d

  -- The entry of a move whose first half was seen at the given time.
  abbrev pub moved : ℕ → Pending
  moved first = record {
    kind = EventKind.renamed target.relative_path;
    is_directory = target.is_directory;
    size = target.size;
    modified = target.modified;
    due = first + c.window;
    seq = c.seq + 1;
  }
