-- ===== src/Engine/GitOutput/Tests.antt =====
-- Runs on what git prints.
use project_apex.Prelude.{[], ◌∷◌, ◌++◌, Text, codes, ◌≡◌, refl}
use project_apex.Engine.GitOutput.{parse_status_in}
use project_apex.Engine.GitOutput.Reported.{parse_status_in-ArePrinted, ArePrinted}
use project_apex.Protocol.Wire.{empty_diff}
use project_apex.Engine.GitOutput.Hunks.{
  parse_diff, push_lines, push_line, push_hunk, lines_of, words, before_end, parse_side,
  split_comma, trim_signs, parse_u32,
}
use project_apex.Prelude.Decimal.{parse_usize, parse_digits}
use project_apex.Prelude.Utf8.{lines, strip_prefix, is_whitespace}

abbrev zero_byte : Text
zero_byte = 0 ∷ []

abbrev printed : Text
printed =
    codes "# branch.head main"
    ++ zero_byte
    ++ codes "1 .M N... 100644 100644 100644 a b apps/src/x"
    ++ zero_byte
    ++ codes "2 RM N... 100644 100644 100644 a b R90 apps/new"
    ++ zero_byte
    ++ codes "? gone"
    ++ zero_byte
    ++ codes "? apps/../etc"
    ++ zero_byte
    ++ codes "? apps/a b"
    ++ zero_byte

parse_status_in-ArePrinted_example :
    ArePrinted printed (codes "apps/") (parse_status_in printed (codes "apps/"))
parse_status_in-ArePrinted_example = parse_status_in-ArePrinted printed (codes "apps/")

abbrev hunks : Text
hunks =
    codes "@@ -4,0 +5 @@ fn x"
    ++ 10 ∷ codes "+text"
    ++ 10 ∷ codes "@@ -9,2 +9,0 @@"
    ++ 10 ∷ codes "@@ -20 +20,3 @@"

hunks_read :
    parse_diff hunks ≡ record { added = (5, 5) ∷ []; deleted = 9 ∷ []; modified = (20, 22) ∷ [] }
unfolding parse_diff push_lines push_line push_hunk lines_of words before_end parse_side split_comma
    trim_signs parse_u32 parse_usize parse_digits lines strip_prefix is_whitespace empty_diff
hunks_read = refl
