-- ===== src/Engine/Exclusions/Last.antt =====
-- Later patterns win.
use project_apex.Prelude.{
  ◌≡◌, refl, Bool, false, not, Option, none, some, List, [], ◌∷◌, arith, if◌then◌else◌, Text,
}
use project_apex.Engine.Exclusions.{Pattern, ExclusionSet, decides, decide, is_excluded}

-- The last pattern that decides, found from the end.
unfoldable pub last_deciding : List Pattern → Text → Bool → Option Pattern
last_deciding [] path is_directory = none
last_deciding (p ∷ ps) path is_directory = elim (last_deciding ps path is_directory) [
  | some q ↦ some q
  | none ↦ if decides path is_directory p then some p else none
]

abbrev verdict : Bool → Option Pattern → Bool
verdict excluded none = excluded
verdict excluded (some p) = not p.negated

decide-last_deciding :
    (ps : List Pattern) (path : Text) (is_directory excluded : Bool)
    → decide ps path is_directory excluded ≡ verdict excluded (last_deciding ps path is_directory)
unfolding decide last_deciding
decide-last_deciding [] path is_directory excluded = refl
decide-last_deciding (p ∷ ps) path is_directory excluded = ground (
  arith,
  decide-last_deciding ps path is_directory (not p.negated),
  decide-last_deciding ps path is_directory excluded,
)

-- A path is excluded exactly when a pattern decides about it and the last one that does is not a
-- negation.
pub is_excluded-last_deciding :
    (set : ExclusionSet) (path : Text) (is_directory : Bool)
    → is_excluded set path is_directory ≡ elim (last_deciding set.patterns path is_directory) [
      | none ↦ false
      | some p ↦ not p.negated
    ]
unfolding is_excluded
is_excluded-last_deciding set path is_directory =
    ground (arith, decide-last_deciding set.patterns path is_directory false)
