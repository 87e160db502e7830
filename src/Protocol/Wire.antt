-- ===== src/Protocol/Wire.antt =====
-- protocol/src/wire.rs: the messages about git.
use project_apex.Prelude.{ℕ, Option, List, [], Text}

pub data GitStatusKind : Type 0 where
  modified untracked staged deleted conflict : GitStatusKind

pub record GitChange : Type 0 where
  pub path : Text
  pub status : GitStatusKind

pub data BranchPosition : Type 0 where
  branch detached : Text → BranchPosition
  no_branch : BranchPosition

pub record GitStatusResult : Type 0 where
  pub current_branch : BranchPosition
  pub changes : List GitChange
  pub next_cursor : Option Text

pub record RecentlyChangedResult : Type 0 where
  pub paths : List Text

-- Ranges are pairs of a first and a last line.
pub record GitDiffResult : Type 0 where
  pub added : List (ℕ × ℕ)
  pub deleted : List ℕ
  pub modified : List (ℕ × ℕ)

-- `GitDiffResult::default()`
unfoldable pub empty_diff : GitDiffResult
empty_diff = record { added = []; deleted = []; modified = [] }

abbrev pub max_recent_commits : ℕ
max_recent_commits = 100

abbrev pub max_git_status_page : ℕ
max_git_status_page = 1000
