-- ===== src/Engine/Exclusions/Tests.antt =====
-- Runs on concrete patterns.
use project_apex.Prelude.{
  ◌+◌, ◌≡◌, refl, Bool, true, false, none, some, [], ◌∷◌, ◌++◌, ◌==◌, if◌then◌else◌, length, All,
  Text, codes,
}
use Prim.Native.String.{String}
use project_apex.Prelude.Int.{pos}
use project_apex.Prelude.Utf8.{
  lines, from_utf8, trim, trim_start, trim_end, is_whitespace, strip_prefix,
}
use project_apex.Engine.Exclusions.Glob.{
  slash, glob, glob_fuel, glob_flat, loop, turn, retry, only_stars, split_stars, split_slash,
  glob_segment_prefix, trim_end_slashes, trim_start_slashes, tails, any, enough,
}
use project_apex.Engine.Exclusions.Glob.Reference.{skipping, matches_flat}
use project_apex.Engine.Exclusions.Glob.Ends.{loop-ends}
use project_apex.Engine.Exclusions.Glob.Agrees.{glob_flat-matches_flat}
use project_apex.Engine.Exclusions.{
  parse_lines, parse_line, strip_first, strip_slash, contains_slash, Pattern, ExclusionSet,
  FileSystem, built_in, built_in_pattern, decides, decide, is_excluded, matches, strip_base,
  covers_ancestor, read_ignore, parse_into, child_of, each, collect, resolve, heads,
}
use project_apex.Engine.Exclusions.Below.{IsPositive, is_excluded_below}
use project_apex.Engine.Exclusions.BuiltIn.{under, resolve-built_in}

abbrev logs : Text
logs = codes "*a*.log"

abbrev name : Text
name = codes "bab-a.x.log"

glob_flat-matches_flat_example : glob_flat logs name ≡ matches_flat logs name
glob_flat-matches_flat_example =
    glob_flat-matches_flat logs name (refl, (refl, (refl, (refl, (refl, (refl, (refl, tt)))))))
      (refl, (refl, (refl, (refl, (refl, (refl, (refl, (refl, (refl, (refl, (refl, tt)))))))))))

loop-ends_example : (b : Bool) × (loop (enough logs name + 5) (logs, name, none) ≡ some b)
loop-ends_example = loop-ends logs name 5

found : glob_flat logs name ≡ true
unfolding glob_flat loop turn retry only_stars
found = refl

-- A star in the text is taken for the star of the pattern.
star_in_text :
    (glob_flat (codes "*b") (codes "*xb") ≡ false)
    × (matches_flat (codes "*b") (codes "*xb") ≡ true)
unfolding glob_flat loop turn retry only_stars matches_flat skipping
star_in_text = (refl, refl)

-- A question mark is any character, a separator too.
question_mark : glob_flat (codes "a?b") (codes "a/b") ≡ true
unfolding glob_flat loop turn retry only_stars
question_mark = refl

-- What stands before `**` is compared with the first part only.
long_head : glob (codes "a/b/**") (codes "a/b/c") ≡ false
unfolding glob glob_fuel glob_flat loop turn retry only_stars split_stars split_slash
    glob_segment_prefix trim_end_slashes trim_start_slashes
long_head = refl

abbrev pattern_of : String → Bool → Pattern
pattern_of s negated = record {
  base = [];
  body = codes s;
  negated = negated;
  directory_only = false;
  anchored = false;
}

abbrev two : ExclusionSet
two = record { patterns = pattern_of "logs" false ∷ pattern_of "keep" true ∷ [] }

abbrev one : ExclusionSet
one = record { patterns = pattern_of "logs" false ∷ [] }

excluded_logs : is_excluded one (codes "a/logs") true ≡ true
unfolding is_excluded decide decides matches strip_base covers_ancestor heads tails any glob
    glob_fuel glob_flat loop turn retry only_stars split_stars
excluded_logs = refl

is_excluded_below_example : is_excluded one (codes "a/logs/x/y") false ≡ true
is_excluded_below_example =
    is_excluded_below one (codes "a/logs") (codes "x/y") false (refl, tt) excluded_logs

-- One ignore file with the line `*.o`, and a directory `src`.
abbrev fs : FileSystem
fs = record {
  read_range = λ path. if length path == 11 then some (codes "*.o") else none;
  read_dir = λ path.
      if length path == 1
      then some
          (record { name = codes "src"; is_directory = true; size = 0; modified = pos 0 } ∷ [])
      else none;
  join = λ a b. a ++ b;
}

positive : IsPositive (resolve (codes "r") fs).patterns
unfolding resolve collect each read_ignore parse_into parse_lines parse_line lines strip_first
    strip_slash contains_slash from_utf8 trim trim_start trim_end is_whitespace strip_prefix
    is_excluded decide decides matches strip_base covers_ancestor heads tails any glob glob_fuel
    glob_flat loop turn retry only_stars split_stars child_of built_in built_in_pattern
positive = (refl, (refl, (refl, (refl, (refl, (refl, (refl, (refl, tt))))))))

resolve-built_in_example :
    All
      (λ name.
        is_excluded
          (resolve (codes "r") fs)
          (under (some (codes "x")) name ++ slash ∷ codes "y/z")
          false
        ≡ true)
      built_in
resolve-built_in_example =
    resolve-built_in (codes "r") fs (some (codes "x")) (codes "y/z") false positive
