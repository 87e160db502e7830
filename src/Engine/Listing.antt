-- ===== src/Engine/Listing.antt =====
-- engine/src/application/use_cases/workspace.rs: `read_directory`, one page of a directory's entries,
-- and `page_cursor`. What the file system lists is an argument.
pub mod Sorted
pub mod Pages
mod Tests
use project_apex.Prelude.{
  ℕ, zero, suc, ◌+◌, ◌-◌, ◌*◌, ◌/◌, ◌%◌, ◌^◌, ◌≤◌, ◌<◌, ◌≡◌, refl, sym, ap, ◌∙◌, ◌≢◌, ◌↔◌, ◌⊎◌, inl,
  inr, Bool, true, false, not, ◌&&◌, ◌||◌, Option, none, some, List, [], ◌∷◌, ◌++◌, map, append-nil,
  append_assoc, arith, ltb, leb, ◌==◌, if◌then◌else◌, Bool-cases, Option-cases, length,
  length-append, All, All-append, Text, codes, take,
}
use project_apex.Prelude.Int.{ℤ}
use project_apex.Prelude.Order.{lex}
use Prim.Native.Nat.{Ordering, min}
use project_apex.Engine.Exclusions.{RawEntry}

pub data EntryKind : Type 0 where
  file directory : EntryKind

pub record FsEntryWire : Type 0 where
  pub name : Text
  pub kind : EntryKind
  pub size : ℕ
  pub modified : ℤ

abbrev pub max_directory_page : ℕ
max_directory_page = 1000

unfoldable pub to_wire : RawEntry → FsEntryWire
to_wire e = record {
  name = e.name;
  kind = if e.is_directory then directory else file;
  size = e.size;
  modified = e.modified;
}

-- The order of the listing: directories first, then by the bytes of the name.
unfoldable pub entry_order : FsEntryWire → FsEntryWire → Ordering
entry_order a b = elim a.kind [
  | directory ↦ elim b.kind [ directory ↦ lex a.name b.name | file ↦ Ordering.lt ]
  | file ↦ elim b.kind [ directory ↦ Ordering.gt | file ↦ lex a.name b.name ]
]

abbrev pub is_gt : Ordering → Bool
is_gt Ordering.lt = false
is_gt Ordering.eq = false
is_gt Ordering.gt = true

-- `sort_by`, which is stable.
unfoldable pub place : FsEntryWire → List FsEntryWire → List FsEntryWire
place e [] = e ∷ []
place e (f ∷ fs) = let rest = place e fs in if is_gt (entry_order e f) then f ∷ rest else e ∷ f ∷ fs

unfoldable pub sort : List FsEntryWire → List FsEntryWire
sort [] = []
sort (e ∷ es) = place e (sort es)

-- The digit of the kind, a unit separator, and the name.
unfoldable pub page_cursor : FsEntryWire → Text
page_cursor e = elim e.kind [ directory ↦ 48 ∷ 31 ∷ e.name | file ↦ 49 ∷ 31 ∷ e.name ]

-- `drain(..at)`, where `at` is the first entry whose cursor comes behind the one given.
unfoldable pub after_cursor : Text → List FsEntryWire → List FsEntryWire
after_cursor c [] = []
after_cursor c (e ∷ es) =
    let rest = after_cursor c es in if is_gt (lex (page_cursor e) c) then e ∷ es else rest

unfoldable pub last : List FsEntryWire → Option FsEntryWire
last [] = none
last (e ∷ []) = some e
last (e ∷ f ∷ es) = last (f ∷ es)

abbrev pub limit_of : Option ℕ → ℕ
limit_of none = max_directory_page
limit_of (some n) = min n max_directory_page

abbrev pub from : Option Text → List FsEntryWire → List FsEntryWire
from none es = es
from (some c) es = after_cursor c es

abbrev pub cursor_of : Option FsEntryWire → Option Text
cursor_of none = none
cursor_of (some e) = some (page_cursor e)

unfoldable pub read_directory :
    List RawEntry → Option Text → Option ℕ → List FsEntryWire × Option Text
read_directory listed cursor limit =
    let items = from cursor (sort (map to_wire listed)) in
    let n = limit_of limit in
    (take n items, if ltb n (length items) then cursor_of (last (take n items)) else none)
