-- ===== src/Engine/GitOutput.antt =====
-- engine/src/adapters/outbound/git_cli.rs: what is read from the output of git; Hunks has
-- the differences. A text is the list of its characters.
pub mod Fields
pub mod Rooted
pub mod Reported
pub mod Hunks
mod Tests
use project_apex.Prelude.{
  ℕ, zero, suc, ◌+◌, ◌-◌, ◌*◌, ◌/◌, ◌%◌, ◌^◌, ◌≤◌, ◌<◌, ◌≡◌, refl, sym, ap, ◌∙◌, ◌≢◌, ◌↔◌, ◌⊎◌, inl,
  inr, Bool, true, false, not, ◌&&◌, ◌||◌, Option, none, some, List, [], ◌∷◌, ◌++◌, map, append-nil,
  append_assoc, arith, ltb, leb, ◌==◌, if◌then◌else◌, Bool-cases, Option-cases, length,
  length-append, All, All-append, Text, codes, filter, get_or,
}
use project_apex.Prelude.Map.{Map, insert, same}
use project_apex.Prelude.Order.{text_ord}
use project_apex.Prelude.Utf8.{lines, trim, trim_start, strip_prefix, is_whitespace}
use project_apex.Prelude.Decimal.{parse_usize}
use project_apex.Client.RelPath.{contains, split, Part, skipped, refused, kept, part_of, join_parts}
use project_apex.Protocol.Wire.{
  GitChange, GitStatusKind, modified, untracked, staged, deleted, conflict, BranchPosition, branch,
  detached, no_branch, GitDiffResult, empty_diff,
}
use project_apex.Engine.GitPager.{StatusSnapshot, Result, err, ok}
use project_apex.Engine.GitPager.Service.{GitFailure, failed}

abbrev slash : ℕ
slash = 47

-- The names of a path: `none` when a part would leave it.
unfoldable pub names : List Text → Option (List Text)
names [] = some []
names (p ∷ ps) =
    let rest = names ps in
    elim (part_of p) [
      | skipped ↦ rest
      | refused ↦ none
      | kept q ↦ elim rest [ none ↦ none | some qs ↦ some (q ∷ qs) ]
    ]

-- The names behind a separator each, if there is one at all.
abbrev pub rooted : Option (List Text) → Option Text
rooted none = none
rooted (some []) = none
rooted (some (q ∷ qs)) = some (slash ∷ join_parts (q ∷ qs))

abbrev starts_with_slash : Text → Bool
starts_with_slash [] = false
starts_with_slash (c ∷ t) = c == slash

unfoldable pub contained : Text → Text → Option Text
contained [] prefix = none
contained (c ∷ raw) prefix =
    if contains 0 (c ∷ raw)
    then none
    else if starts_with_slash (c ∷ raw)
    then none
    else elim (strip_prefix prefix (c ∷ raw)) [
      | none ↦ none
      | some within ↦ rooted (names (split within))
    ]

-- By the character of the worktree, and by that of the index where it is a dot.
unfoldable pub of_index : ℕ → Option GitStatusKind
of_index i =
    if i == 77 || i == 65 || i == 82 || i == 67 || i == 84
    then some staged
    else if i == 68
    then some deleted
    else none

unfoldable pub collapse : Text → Option GitStatusKind
collapse [] = none
collapse (i ∷ []) = none
collapse (i ∷ w ∷ rest) =
    if w == 77 || w == 84
    then some modified
    else if w == 68
    then some deleted
    else if w == 65
    then some untracked
    else if w == 46
    then of_index i
    else none

unfoldable pub trim_cr : Text → Text
trim_cr [] = []
trim_cr (c ∷ t) = elim (trim_cr t) [ [] ↦ if c == 13 then [] else c ∷ [] | d ∷ rest ↦ c ∷ d ∷ rest ]

-- `filter_map` into a `BTreeSet`, which is a map of its members.
unfoldable pub collect_paths : Text → List Text → Map {0, 0} Text Unit
collect_paths prefix [] = []
collect_paths prefix (l ∷ ls) =
    let rest = collect_paths prefix ls in
    elim (contained (trim_cr l) prefix) [ none ↦ rest | some p ↦ insert p tt rest ]

unfoldable pub parse_recent : Text → Text → List Text
parse_recent raw prefix = map (λ (e : Text × Unit). e.0) (collect_paths prefix (lines raw))

-- `split_once(' ')`
unfoldable pub split_space : Text → Option (Text × Text)
split_space [] = none
split_space (c ∷ t) =
    let rest = split_space t in
    if c == 32 then some ([], t) else elim rest [ none ↦ none | some p ↦ some (c ∷ p.0, p.1) ]

-- `splitn(n, ' ')`
unfoldable pub splitn : ℕ → Text → List Text
splitn zero t = []
splitn (suc zero) t = t ∷ []
splitn (suc (suc n)) t = elim (split_space t) [ none ↦ t ∷ [] | some p ↦ p.0 ∷ splitn (suc n) p.1 ]

-- `split_at(find(' '))`, where a field without a space is its kind, and what follows trimmed.
unfoldable pub kind_of : Text → Text × Text
kind_of field = elim (split_space field) [ none ↦ (field, []) | some p ↦ (p.0, trim_start p.1) ]

-- `split('\0')` without the empty fields.
unfoldable pub fields_of : Text → List Text
fields_of [] = [] ∷ []
fields_of (c ∷ t) =
    let rest = fields_of t in
    if c == 0 then [] ∷ rest else elim rest [ [] ↦ (c ∷ []) ∷ [] | f ∷ fs ↦ (c ∷ f) ∷ fs ]

abbrev pub not_empty : Text → Bool
not_empty [] = false
not_empty (c ∷ t) = true

pub record Parsed : Type 0 where
  pub position : BranchPosition
  pub oid : Option Text
  pub changes : List GitChange

unfoldable pub start : Parsed
start = record { position = no_branch; oid = none; changes = [] }

unfoldable pub push_change : Option GitStatusKind → Option Text → Parsed → Parsed
push_change (some k) (some p) st = record st {
  changes = st.changes ++ record { path = p; status = k } ∷ [];
}
push_change (some k) none st = st
push_change none path st = st

-- A `#` record.
unfoldable pub header : Text → Parsed → Parsed
header rest st = elim (split_space rest) [
  | none ↦ st
  | some p ↦
      if same p.0 (codes "branch.oid")
      then record st { oid = some (trim p.1) }
      else if same p.0 (codes "branch.head")
      then record st {
        position = if same (trim p.1) (codes "(detached)") then detached [] else branch (trim p.1);
      }
      else st
]

unfoldable pub unreadable : Text → Text → Result GitFailure Parsed
unreadable kind field = err (failed (codes "unreadable `" ++ kind ++ codes "` record: " ++ field))

-- A record of `count` parts whose last is the path; `status` reads the first.
unfoldable pub counted :
    ℕ
    → (Text → Option GitStatusKind)
    → Text
    → Text
    → Text
    → Text
    → Parsed
    → Result GitFailure Parsed
counted count status kind field rest prefix st =
    let parts = splitn count rest in
    if length parts == count
    then ok (
        push_change (status (get_or parts 0 [])) (contained (get_or parts (count - 1) []) prefix)
          st)
    else unreadable kind field

unfoldable pub is_rename : Text → Bool
is_rename field = same (kind_of field).0 (codes "2")

unfoldable pub record_of : Text → Text → Parsed → Result GitFailure Parsed
record_of field prefix st =
    let (kind, rest) = kind_of field in
    if same kind (codes "#")
    then ok (header rest st)
    else if same kind (codes "1")
    then counted 8 collapse kind field rest prefix st
    else if same kind (codes "2")
    then counted 9 collapse kind field rest prefix st
    else if same kind (codes "u")
    then counted 10 (λ xy. some conflict) kind field rest prefix st
    else if same kind (codes "?")
    then ok (push_change (some untracked) (contained rest prefix) st)
    else if same kind (codes "!")
    then ok st
    else err (failed (codes "unknown status record type `" ++ kind ++ codes "`"))

-- A rename takes one field more.
unfoldable pub read_fields : List Text → Text → Parsed → Result GitFailure Parsed
read_fields [] prefix st = ok st
read_fields (f ∷ []) prefix st = elim (record_of f prefix st) [
  | err e ↦ err e
  | ok st' ↦
      if is_rename f
      then err (failed (codes "a rename record without its original path"))
      else ok st'
]
read_fields (f ∷ g ∷ fs) prefix st = elim (record_of f prefix st) [
  | err e ↦ err e
  | ok st' ↦ elim (is_rename f) [
    | true ↦ read_fields fs prefix st'
    | false ↦ read_fields (g ∷ fs) prefix st'
  ]
]

abbrev pub with_oid : BranchPosition → Option Text → BranchPosition
with_oid (branch name) oid = branch name
with_oid no_branch oid = no_branch
with_oid (detached commit) none = detached commit
with_oid (detached commit) (some o) = detached (trim o)

abbrev pub finish : Result GitFailure Parsed → Result GitFailure StatusSnapshot
finish (err e) = err e
finish (ok st) = ok (record { branch = with_oid st.position st.oid; changes = st.changes })

unfoldable pub parse_status_in : Text → Text → Result GitFailure StatusSnapshot
parse_status_in raw prefix = finish (read_fields (filter not_empty (fields_of raw)) prefix start)

unfoldable pub parse_status : Text → Result GitFailure StatusSnapshot
parse_status raw = parse_status_in raw []
