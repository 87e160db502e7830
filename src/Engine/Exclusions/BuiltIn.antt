-- ===== src/Engine/Exclusions/BuiltIn.antt =====
-- The fixed names are excluded at any depth, whatever the repository says but for a negation.
use project_apex.Prelude.{
  ℕ, zero, suc, ◌≡◌, refl, sym, ap, ◌∙◌, inl, inr, Bool, true, Option, none, some, List, [], ◌∷◌,
  ◌++◌, map, append-nil, append_assoc, arith, Bool-cases, Option-cases, All, Text, codes,
}
use project_apex.Engine.Exclusions.Glob.{
  slash, glob, glob_fuel, glob_flat, loop, turn, only_stars, split_stars, tails, any,
}
use project_apex.Engine.Exclusions.{
  Pattern, ExclusionSet, FileSystem, RawEntry, built_in, built_in_pattern, decides, is_excluded,
  matches, strip_base, read_ignore, parse_into, child_of, each, collect, resolve, filter, from_utf8,
  parse_lines, lines,
}
use project_apex.Engine.Exclusions.Below.{
  IsPositive, any_decides, is_excluded_of_positive, is_excluded_below,
}

-- Reading ignore files adds patterns behind those that are there.
abbrev Extends : List Pattern → ExclusionSet → Type 0
Extends ps set = (more : List Pattern) × (set.patterns ≡ ps ++ more)

read_ignore-Extends :
    (fs : FileSystem) (absolute relative : Text) (set : ExclusionSet) (ps : List Pattern)
    → Extends ps set
    → Extends ps (read_ignore fs absolute relative set)
unfolding read_ignore parse_into
read_ignore-Extends fs absolute relative set ps (more, e) =
    elim (Option-cases (fs.read_range (fs.join absolute (codes ".gitignore")))) [
      | inl unread ↦ (more, rw (read_ignore, unread) e)
      | inr (bytes, got) ↦ elim (Option-cases (from_utf8 bytes)) [
        | inl broken ↦ (more, rw (read_ignore, got, broken) e)
        | inr (text, read) ↦ (
          more ++ parse_lines relative (lines text),
          rw (read_ignore, got, read, parse_into)
              (ap (λ l. l ++ parse_lines relative (lines text)) e
                ∙ append_assoc ps more (parse_lines relative (lines text))),
        )
      ]
    ]

each-Extends :
    (f : RawEntry → ExclusionSet → ExclusionSet) (es : List RawEntry) (set : ExclusionSet)
    (ps : List Pattern)
    → ((e : RawEntry) (s : ExclusionSet) → Extends ps s → Extends ps (f e s))
    → Extends ps set
    → Extends ps (each f es set)
unfolding each
each-Extends f [] set ps h x = x
each-Extends f (e ∷ es) set ps h x = each-Extends f es (f e set) ps h (h e set x)

collect-Extends :
    (n : ℕ) (fs : FileSystem) (absolute relative : Text) (set : ExclusionSet) (ps : List Pattern)
    → Extends ps set
    → Extends ps (collect n fs absolute relative set)
unfolding collect
collect-Extends zero fs absolute relative set ps x = x
collect-Extends (suc n) fs absolute relative set ps x =
    let parsed = read_ignore-Extends fs absolute relative set ps x in
    elim (Option-cases (fs.read_dir absolute)) [
      | inl unread ↦ rw (collect, unread) parsed
      | inr (entries, got) ↦
          rw (collect, got)
            (each-Extends _ (filter (λ (e : RawEntry). e.is_directory) entries) _ ps
              (λ e s y. elim (Bool-cases (is_excluded s (child_of relative e.name) true)) [
                | inl skipped ↦ rw skipped y
                | inr entered ↦ rw entered (
                    collect-Extends n fs (fs.join absolute e.name) (child_of relative e.name) s ps
                      y)
              ])
              parsed)
    ]

-- Each fixed name matches itself.
built_in-glob : All (λ name. glob name name ≡ true) built_in
unfolding built_in glob glob_fuel glob_flat loop turn only_stars split_stars
built_in-glob = (refl, (refl, (refl, (refl, (refl, (refl, (refl, tt)))))))

-- A name, at the root or below a directory.
abbrev pub under : Option Text → Text → Text
under none name = name
under (some dir) name = dir ++ slash ∷ name

any-tails :
    (f : Text → Bool) (dir name : Text) → f name ≡ true → any f (tails (dir ++ slash ∷ name)) ≡ true
unfolding tails any
any-tails f [] name h = ground (arith, h)
any-tails f (c ∷ dir) name h = ground (arith, any-tails f dir name h)

matches-under :
    (above : Option Text) (name : Text)
    → glob name name ≡ true
    → matches (built_in_pattern name) (under above name) ≡ true
unfolding matches built_in_pattern strip_base
matches-under none name h = ground (arith, h)
matches-under (some dir) name h = ground (arith, any-tails (glob name) dir name h)

decides-under :
    (above : Option Text) (name : Text)
    → glob name name ≡ true
    → decides (under above name) true (built_in_pattern name) ≡ true
unfolding decides
decides-under above name h = ground (arith, matches-under above name h)

module _ {A : Type 0} where
  All-map : (P Q : A → Type 0) (xs : List A) → ((x : A) → P x → Q x) → All P xs → All Q xs
  All-map P Q [] f h = tt
  All-map P Q (x ∷ xs) f h = (f x h.0, All-map P Q xs f h.1)

any_decides-front :
    (names : List Text) (path : Text → Text)
    → All (λ name. decides (path name) true (built_in_pattern name) ≡ true) names
    → All (λ name. any_decides (map built_in_pattern names) (path name) true ≡ true) names
unfolding any_decides
any_decides-front [] path h = tt
any_decides-front (n ∷ names) path h = (
  ground (arith, h.0),
  All-map _ _ names (λ name found. ground (arith, found)) (any_decides-front names path h.1),
)

any_decides-append :
    (ps more : List Pattern) (path : Text)
    → any_decides ps path true ≡ true
    → any_decides (ps ++ more) path true ≡ true
unfolding any_decides
any_decides-append [] more path h = absurd (ground (arith, h))
any_decides-append (p ∷ ps) more path h = ground (arith, h, any_decides-append ps more path)

-- When the ignore files of the workspace hold no negation, everything in a directory of one of the
-- fixed names is excluded, at the root or at any depth, whatever the file system holds.
pub resolve-built_in :
    (root : Text) (fs : FileSystem) (above : Option Text) (rest : Text) (is_directory : Bool)
    → IsPositive (resolve root fs).patterns
    → All
        (λ name.
          is_excluded (resolve root fs) (under above name ++ slash ∷ rest) is_directory ≡ true)
        built_in
resolve-built_in root fs above rest is_directory positive =
    let (more, e) : Extends (map built_in_pattern built_in) (resolve root fs) =
      unfold resolve in
      collect-Extends 65 fs root [] (record { patterns = map built_in_pattern built_in })
        (map built_in_pattern built_in) ([], sym (append-nil (map built_in_pattern built_in))) in
    let decided =
      any_decides-front built_in (under above)
        (All-map _ _ built_in (λ name. decides-under above name) built_in-glob) in
    All-map _ _ built_in
      (λ name found.
        is_excluded_below (resolve root fs) (under above name) rest is_directory positive (
          is_excluded_of_positive (resolve root fs) (under above name) true positive
          ∙ rw e
              (any_decides-append (map built_in_pattern built_in) more (under above name) found)))
      decided
