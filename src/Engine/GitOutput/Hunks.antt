-- ===== src/Engine/GitOutput/Hunks.antt =====
-- engine/src/adapters/outbound/git_cli.rs: the headers of the hunks that git diff prints. A sum of two
-- `u32` is taken modulo 2 ^ 32, as in the released program.
use project_apex.Prelude.{
  ℕ, ◌+◌, ◌-◌, ◌%◌, ◌^◌, Bool, true, false, ◌&&◌, ◌||◌, Option, none, some, List, [], ◌∷◌, ◌++◌,
  ltb, ◌==◌, if◌then◌else◌, Text, codes,
}
use project_apex.Prelude.Utf8.{lines, strip_prefix, is_whitespace}
use project_apex.Prelude.Decimal.{parse_usize}
use project_apex.Protocol.Wire.{GitDiffResult, empty_diff}

-- `parse::<u32>()`
unfoldable pub parse_u32 : Text → Option ℕ
parse_u32 t = elim (parse_usize t) [
  | none ↦ none
  | some n ↦ if ltb n (2 ^ 32) then some n else none
]

-- `trim_start_matches(['-', '+'])`
unfoldable pub trim_signs : Text → Text
trim_signs [] = []
trim_signs (c ∷ t) = let rest = trim_signs t in if c == 45 || c == 43 then rest else c ∷ t

unfoldable pub split_comma : Text → Text × Option Text
split_comma [] = ([], none)
split_comma (c ∷ t) =
    let rest = split_comma t in if c == 44 then ([], some t) else (c ∷ rest.0, rest.1)

unfoldable pub parse_side : Text → ℕ × ℕ
parse_side s =
    let parts = split_comma (trim_signs s) in
    (
      elim (parse_u32 parts.0) [ none ↦ 0 | some n ↦ n ],
      elim parts.1 [ none ↦ 1 | some v ↦ elim (parse_u32 v) [ none ↦ 1 | some n ↦ n ] ],
    )

-- `split(" @@").next()`
unfoldable pub before_end : Text → Text
before_end [] = []
before_end (c ∷ t) =
    let rest = before_end t in
    elim (strip_prefix (codes " @@") (c ∷ t)) [ none ↦ c ∷ rest | some _ ↦ [] ]

-- A character before the words that follow.
abbrev push_word : ℕ → Bool → List Text → List Text
push_word c false [] = (c ∷ []) ∷ []
push_word c false (w ∷ ws) = (c ∷ w) ∷ ws
push_word c true ws = (c ∷ []) ∷ ws

abbrev ends_word : Text → Bool
ends_word [] = true
ends_word (c ∷ t) = is_whitespace c

-- `split_whitespace`
unfoldable pub words : Text → List Text
words [] = []
words (c ∷ t) =
    let rest = words t in if is_whitespace c then rest else push_word c (ends_word t) rest

unfoldable pub lines_of : ℕ → ℕ → ℕ × ℕ
lines_of start n = (start, (start + n + (2 ^ 32 - 1)) % 2 ^ 32)

-- A hunk by the counts of its two sides.
unfoldable pub push_hunk : ℕ → ℕ × ℕ → GitDiffResult → GitDiffResult
push_hunk old_count (new_start, new_count) out =
    if old_count == 0 && ltb 0 new_count
    then record out { added = out.added ++ lines_of new_start new_count ∷ [] }
    else if ltb 0 old_count && new_count == 0
    then record out { deleted = out.deleted ++ new_start ∷ [] }
    else if ltb 0 new_count
    then record out { modified = out.modified ++ lines_of new_start new_count ∷ [] }
    else out

abbrev of_sides : List Text → GitDiffResult → GitDiffResult
of_sides [] out = out
of_sides (old ∷ []) out = out
of_sides (old ∷ new ∷ rest) out = push_hunk (parse_side old).1 (parse_side new) out

unfoldable pub push_line : Text → GitDiffResult → GitDiffResult
push_line l out = elim (strip_prefix (codes "@@ ") l) [
  | none ↦ out
  | some body ↦ of_sides (words (before_end body)) out
]

unfoldable pub push_lines : List Text → GitDiffResult → GitDiffResult
push_lines [] out = out
push_lines (l ∷ ls) out = push_lines ls (push_line l out)

unfoldable pub parse_diff : Text → GitDiffResult
parse_diff raw = push_lines (lines raw) empty_diff
