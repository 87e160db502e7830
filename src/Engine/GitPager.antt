-- ===== src/Engine/GitPager.antt =====
-- engine/src/application/use_cases/git_status.rs: `StatusPager`, which serves one snapshot in pages,
-- and `GitService` around it, with engine/src/application/ports/git.rs. The answers of git, and the
-- length of a path in JSON, are parameters. The map behind the lock is read and written as one
-- step; the order of its entries does not matter.
pub mod Cursor
pub mod Collect
pub mod Generations
pub mod Service
mod Tests
use project_apex.Prelude.{
  ℕ, zero, suc, ◌+◌, ◌-◌, ◌*◌, ◌/◌, ◌%◌, ◌^◌, ◌≤◌, ◌<◌, ◌≡◌, refl, sym, ap, ◌∙◌, ◌≢◌, ◌↔◌, ◌⊎◌, inl,
  inr, Bool, true, false, not, ◌&&◌, ◌||◌, Option, none, some, List, [], ◌∷◌, ◌++◌, map, append-nil,
  append_assoc, arith, ltb, leb, ◌==◌, if◌then◌else◌, Bool-cases, Option-cases, length,
  length-append, All, All-append, Text, codes, max, take, drop, min,
}
use project_apex.Prelude.Map.{Map, get, insert, remove, values}
use project_apex.Prelude.Order.{text_ord}
use project_apex.Prelude.Decimal.{decimal, parse_usize}
use project_apex.Protocol.Wire.{
  GitChange, BranchPosition, no_branch, GitStatusResult, max_git_status_page,
}

pub record StatusSnapshot : Type 0 where
  pub branch : BranchPosition
  pub changes : List GitChange

unfoldable pub nothing : StatusSnapshot
nothing = record { branch = no_branch; changes = [] }

pub data PageRefusal : Type 0 where
  unknown_cursor : PageRefusal

pub data Result (E A : Type 0) : Type 0 where
  err : E → Result E A
  ok : A → Result E A

pub record Held : Type 0 where
  pub snapshot : StatusSnapshot
  pub generation : ℕ

pub record StatusPager : Type 0 where
  pub held : Map Text Held

unfoldable pub new : StatusPager
new = record { held = [] }

abbrev pub colon : ℕ
colon = 58

-- `raw.split_once(':')`
unfoldable pub split_once : Text → Option (Text × Text)
split_once [] = none
split_once (c ∷ text) =
    let rest = split_once text in
    if c == colon then some ([], text) else elim rest [ none ↦ none | some p ↦ some (c ∷ p.0, p.1) ]

unfoldable pub parse_cursor : Text → Option (ℕ × ℕ)
parse_cursor raw = elim (split_once raw) [
  | none ↦ none
  | some p ↦ elim (parse_usize p.0) [
    | none ↦ none
    | some g ↦ elim (parse_usize p.1) [ none ↦ none | some o ↦ some (g, o) ]
  ]
]

-- `format!("{}:{}", generation, next)`
unfoldable pub cursor_text : ℕ → ℕ → Text
cursor_text generation next = decimal generation ++ colon ∷ decimal next

-- `limit.clamp(1, MAX_GIT_STATUS_PAGE)`
abbrev pub clamp : ℕ → ℕ
clamp limit = max 1 (min limit max_git_status_page)

-- The page from an offset.
unfoldable pub slice : Held → ℕ → ℕ → GitStatusResult
slice entry offset limit =
    let changes = take (clamp limit) (drop offset entry.snapshot.changes) in
    let next = offset + length changes in
    record {
      current_branch = entry.snapshot.branch;
      changes = changes;
      next_cursor =
          if ltb next (length entry.snapshot.changes)
          then some (cursor_text entry.generation next)
          else none;
    }

-- Where a cursor points to in what is held.
unfoldable pub offset_of : Held → Option Text → Option ℕ
offset_of entry none = some 0
offset_of entry (some c) = elim (parse_cursor c) [
  | none ↦ none
  | some p ↦ if p.0 == entry.generation then some p.1 else none
]

unfoldable pub page : Text → Option Text → ℕ → StatusPager → Result PageRefusal GitStatusResult
page workspace cursor limit pager = elim (get workspace pager.held) [
  | none ↦ err unknown_cursor
  | some entry ↦ elim (offset_of entry cursor) [
    | none ↦ err unknown_cursor
    | some offset ↦ ok (slice entry offset limit)
  ]
]

-- `values().map(generation).max().unwrap_or(0)`
unfoldable pub max_generation : Map Text Held → ℕ
max_generation [] = 0
max_generation (e ∷ m) = max e.1.generation (max_generation m)

unfoldable pub hold :
    Text → StatusSnapshot → ℕ → StatusPager → StatusPager × Result PageRefusal GitStatusResult
hold workspace snapshot limit pager =
    let entry : Held = record { snapshot = snapshot; generation = max_generation pager.held + 1 } in
    let after : StatusPager = record { held = insert workspace entry pager.held } in
    (after, page workspace none limit after)

unfoldable pub forget : Text → StatusPager → StatusPager
forget workspace pager = record { held = remove workspace pager.held }
