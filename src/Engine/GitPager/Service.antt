-- ===== src/Engine/GitPager/Service.antt =====
-- engine/src/application/use_cases/git_status.rs: `GitService`. Each function takes what git answers.
pub mod Frame
use project_apex.Prelude.{
  ℕ, zero, suc, ◌+◌, ◌-◌, ◌*◌, ◌/◌, ◌%◌, ◌^◌, ◌≤◌, ◌<◌, ◌≡◌, refl, sym, ap, ◌∙◌, ◌≢◌, ◌↔◌, ◌⊎◌, inl,
  inr, Bool, true, false, not, ◌&&◌, ◌||◌, Option, none, some, List, [], ◌∷◌, ◌++◌, map, append-nil,
  append_assoc, arith, ltb, leb, ◌==◌, if◌then◌else◌, Bool-cases, Option-cases, length,
  length-append, All, All-append, Text, codes,
}
use project_apex.Prelude.Map.{Map, get, insert, get-insert, same_refl}
use project_apex.Prelude.Order.{text_ord}
use project_apex.Protocol.Framing.{max_frame_bytes}
use project_apex.Protocol.Wire.{
  GitChange, GitStatusResult, GitDiffResult, empty_diff, RecentlyChangedResult, max_recent_commits,
}
use project_apex.Engine.GitPager.{
  Held, Result, err, ok, StatusPager, StatusSnapshot, PageRefusal, page, slice, nothing, hold,
  forget, max_generation, min,
}
use project_apex.Engine.GitPager.Collect.{collect, collect_all}

pub data GitFailure : Type 0 where
  not_a_repository git_unavailable : GitFailure
  failed : Text → GitFailure

unfoldable pub is_absence : GitFailure → Bool
is_absence not_a_repository = true
is_absence git_unavailable = true
is_absence (failed text) = false

unfoldable pub status_or_nothing :
    Result GitFailure StatusSnapshot → Result GitFailure StatusSnapshot
status_or_nothing (ok s) = ok s
status_or_nothing (err e) = if is_absence e then ok nothing else err e

-- `refresh`: `hold` answers with a page always, which its caller takes for granted.
unfoldable pub refresh :
    Result GitFailure StatusSnapshot
    → Text
    → ℕ
    → StatusPager
    → StatusPager × Result GitFailure (Result PageRefusal GitStatusResult)
refresh answer workspace limit pager = elim (status_or_nothing answer) [
  | err e ↦ (pager, err e)
  | ok snapshot ↦ let (after, first) = hold workspace snapshot limit pager in (after, ok first)
]

unfoldable pub file_diff : Result GitFailure GitDiffResult → Result GitFailure GitDiffResult
file_diff (ok d) = ok d
file_diff (err e) = if is_absence e then ok empty_diff else err e

abbrev pub recent_envelope_headroom : ℕ
recent_envelope_headroom = 4 * 1024

abbrev pub budget : ℕ
budget = max_frame_bytes - recent_envelope_headroom

-- What one path takes: its length in JSON and a separator, or more than any frame.
abbrev pub cost : Option ℕ → ℕ
cost none = (2 ^ 64 - 1) / 2 + 1
cost (some n) = n + 1

-- The closure of `take_while`, with what was used before. `encoded` is the length in JSON.
unfoldable pub take_fitting : (Text → Option ℕ) → ℕ → List Text → List Text
take_fitting encoded used [] = []
take_fitting encoded used (p ∷ paths) =
    let rest = take_fitting encoded (used + cost (encoded p)) paths in
    if leb (used + cost (encoded p)) budget then p ∷ rest else []

unfoldable pub within_one_frame : (Text → Option ℕ) → List Text → List Text
within_one_frame encoded paths = take_fitting encoded 0 paths

-- `git` answers for a number of commits.
unfoldable pub recently_changed :
    (Text → Option ℕ)
    → (ℕ → Result GitFailure (List Text))
    → ℕ
    → Result GitFailure RecentlyChangedResult
recently_changed encoded git commits = elim (git (min commits max_recent_commits)) [
  | ok paths ↦ ok (record { paths = within_one_frame encoded paths })
  | err e ↦ if is_absence e then ok (record { paths = within_one_frame encoded [] }) else err e
]

-- What a client has after a refresh when it follows the cursors.
abbrev pub collected :
    Result GitFailure StatusSnapshot → Option (List GitChange) → Option (List GitChange)
collected (ok s) before = some s.changes
collected (err (failed text)) before = before
collected (err not_a_repository) before = some []
collected (err git_unavailable) before = some []

abbrev pub size : Result GitFailure StatusSnapshot → ℕ
size (ok s) = length s.changes
size (err e) = 0

hold-collect :
    (snapshot : StatusSnapshot) (limits : ℕ → ℕ) (workspace : Text) (limit : ℕ)
    (pager : StatusPager)
    → max_generation pager.held + 1 < 2 ^ 64
    → length snapshot.changes < 2 ^ 64
    → collect
        (suc (length snapshot.changes))
        limits
        workspace
        none
        (hold workspace snapshot limit pager).0
      ≡ some snapshot.changes
unfolding hold
hold-collect snapshot limits workspace limit pager g l =
    let fresh : Held = record { snapshot = snapshot; generation = max_generation pager.held + 1 } in
    collect_all limits workspace (hold workspace snapshot limit pager).0 fresh
      (ground (arith, get-insert workspace workspace fresh pager.held, same_refl workspace)) g l

-- After a refresh, when the generations held lie below 2 ^ 64 - 1 and git names fewer than 2 ^ 64
-- changes, a client that follows the cursors, with any limits, has the changes git named, none when
-- there is no repository or no git, and, when git failed, what it would have had before.
pub refresh-collect :
    (answer : Result GitFailure StatusSnapshot) (limits : ℕ → ℕ) (workspace : Text) (limit : ℕ)
    (pager : StatusPager)
    → max_generation pager.held + 1 < 2 ^ 64
    → size answer < 2 ^ 64
    → collect (suc (size answer)) limits workspace none (refresh answer workspace limit pager).0
      ≡ collected answer (collect (suc (size answer)) limits workspace none pager)
unfolding refresh status_or_nothing is_absence nothing
refresh-collect (ok s) limits workspace limit pager g l =
    hold-collect s limits workspace limit pager g l
refresh-collect (err not_a_repository) limits workspace limit pager g l =
    hold-collect nothing limits workspace limit pager g l
refresh-collect (err git_unavailable) limits workspace limit pager g l =
    hold-collect nothing limits workspace limit pager g l
refresh-collect (err (failed text)) limits workspace limit pager g l = refl
