-- ===== src/Engine/Exclusions.antt =====
-- engine/src/application/exclusions.rs: which paths are neither watched nor indexed. A path is the
-- list of its characters. The file system is a parameter.
pub mod Glob
pub mod Last
pub mod Below
pub mod BuiltIn
mod Tests
use project_apex.Prelude.{
  ℕ, zero, suc, ◌+◌, ◌-◌, ◌*◌, ◌/◌, ◌%◌, ◌^◌, ◌≤◌, ◌<◌, ◌≡◌, refl, sym, ap, ◌∙◌, ◌≢◌, ◌↔◌, ◌⊎◌, inl,
  inr, Bool, true, false, not, ◌&&◌, ◌||◌, Option, none, some, List, [], ◌∷◌, ◌++◌, map, append-nil,
  append_assoc, arith, ltb, leb, ◌==◌, if◌then◌else◌, Bool-cases, Option-cases, length,
  length-append, All, All-append, Text, codes, filter,
}
use project_apex.Prelude.Int.{ℤ}
use project_apex.Prelude.Utf8.{lines, from_utf8, trim, strip_prefix}
use project_apex.Engine.Exclusions.Glob.{slash, glob, tails, any, is_empty}

pub record Pattern : Type 0 where
  pub base : Text
  pub body : Text
  pub negated : Bool
  pub directory_only : Bool
  pub anchored : Bool

pub record ExclusionSet : Type 0 where
  pub patterns : List Pattern

unfoldable pub built_in : List Text
built_in =
    codes ".git"
    ∷ codes "node_modules"
    ∷ codes "target"
    ∷ codes "dist"
    ∷ codes "build"
    ∷ codes ".venv"
    ∷ codes "__pycache__"
    ∷ []

unfoldable pub built_in_pattern : Text → Pattern
built_in_pattern name = record {
  base = [];
  body = name;
  negated = false;
  directory_only = true;
  anchored = false;
}

abbrev starts_with_hash : Text → Bool
starts_with_hash [] = false
starts_with_hash (c ∷ text) = c == 35

-- Whether a leading character was there, and what is left.
unfoldable pub strip_first : ℕ → Text → Bool × Text
unfolding strip_prefix
strip_first b text = elim (strip_prefix (b ∷ []) text) [
  | none ↦ (false, text)
  | some rest ↦ (true, rest)
]

-- `rest.strip_suffix('/')`
unfoldable pub strip_slash : Text → Bool × Text
strip_slash [] = (false, [])
strip_slash (c ∷ []) = if c == slash then (true, []) else (false, c ∷ [])
strip_slash (c ∷ d ∷ text) = let (found, rest) = strip_slash (d ∷ text) in (found, c ∷ rest)

unfoldable pub contains_slash : Text → Bool
contains_slash [] = false
contains_slash (c ∷ text) = c == slash || contains_slash text

unfoldable pub parse_line : Text → Text → Option Pattern
parse_line base raw =
    let line = trim raw in
    let (negated, rest) = strip_first 33 line in
    let (directory_only, named) = strip_slash rest in
    let (leading, body) = strip_first slash named in
    if is_empty line || starts_with_hash line
    then none
    else if is_empty body
    then none
    else some (record {
      base = base;
      body = body;
      negated = negated;
      directory_only = directory_only;
      anchored = leading || contains_slash named;
    })

unfoldable pub parse_lines : Text → List Text → List Pattern
parse_lines base [] = []
parse_lines base (raw ∷ rest) =
    let others = parse_lines base rest in
    elim (parse_line base raw) [ none ↦ others | some p ↦ p ∷ others ]

unfoldable pub parse_into : Text → Text → ExclusionSet → ExclusionSet
parse_into text base set = record { patterns = set.patterns ++ parse_lines base (lines text) }

unfoldable pub strip_base : Text → Text → Option Text
strip_base [] path = some path
strip_base (c ∷ base) path = elim (strip_prefix (c ∷ base) path) [
  | none ↦ none
  | some rest ↦ strip_prefix (slash ∷ []) rest
]

unfoldable pub matches : Pattern → Text → Bool
matches pattern path = elim (strip_base pattern.base path) [
  | none ↦ false
  | some within ↦
      if pattern.anchored
      then glob pattern.body within
      else glob pattern.body within || any (glob pattern.body) (tails within)
]

-- What `rsplit_once('/')` leaves, again and again: the text before each separator.
unfoldable pub heads : Text → List Text
heads [] = []
heads (c ∷ t) =
    let rest = map (λ (h : Text). c ∷ h) (heads t) in if c == slash then rest ++ [] ∷ [] else rest

unfoldable pub covers_ancestor : Pattern → Text → Bool
covers_ancestor pattern path = any (matches pattern) (heads path)

-- Whether a pattern decides: by naming the path, or a directory above it.
unfoldable pub decides : Text → Bool → Pattern → Bool
decides path is_directory pattern =
    (matches pattern path && (not pattern.directory_only || is_directory))
    || covers_ancestor pattern path

unfoldable pub decide : List Pattern → Text → Bool → Bool → Bool
decide [] path is_directory excluded = excluded
decide (p ∷ ps) path is_directory excluded =
    decide ps path is_directory (if decides path is_directory p then not p.negated else excluded)

unfoldable pub is_excluded : ExclusionSet → Text → Bool → Bool
is_excluded set path is_directory = decide set.patterns path is_directory false

pub record RawEntry : Type 0 where
  pub name : Text
  pub is_directory : Bool
  pub size : ℕ
  pub modified : ℤ

-- `read_range` of the first 1 << 20 bytes, `read_dir`, and `Path::join`.
pub record FileSystem : Type 0 where
  pub read_range : Text → Option (List ℕ)
  pub read_dir : Text → Option (List RawEntry)
  pub join : Text → Text → Text

unfoldable pub read_ignore : FileSystem → Text → Text → ExclusionSet → ExclusionSet
read_ignore fs absolute relative set =
    elim (fs.read_range (fs.join absolute (codes ".gitignore"))) [
      | none ↦ set
      | some bytes ↦ elim (from_utf8 bytes) [
        | none ↦ set
        | some text ↦ parse_into text relative set
      ]
    ]

unfoldable pub child_of : Text → Text → Text
child_of relative name = if is_empty relative then name else relative ++ slash ∷ name

unfoldable pub each :
    (RawEntry → ExclusionSet → ExclusionSet) → List RawEntry → ExclusionSet → ExclusionSet
each f [] set = set
each f (e ∷ es) set = each f es (f e set)

-- The fuel is what is left of the depth: 65 less `depth`.
unfoldable pub collect : ℕ → FileSystem → Text → Text → ExclusionSet → ExclusionSet
collect zero fs absolute relative set = set
collect (suc n) fs absolute relative set =
    let parsed = read_ignore fs absolute relative set in
    elim (fs.read_dir absolute) [
      | none ↦ parsed
      | some entries ↦
          each
            (λ e s. elim (is_excluded s (child_of relative e.name) true) [
              | true ↦ s
              | false ↦ collect n fs (fs.join absolute e.name) (child_of relative e.name) s
            ])
            (filter (λ e. e.is_directory) entries) parsed
    ]

unfoldable pub resolve : Text → FileSystem → ExclusionSet
resolve root fs = collect 65 fs root [] (record { patterns = map built_in_pattern built_in })
