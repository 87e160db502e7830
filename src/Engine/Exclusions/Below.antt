-- ===== src/Engine/Exclusions/Below.antt =====
-- What lies in an excluded directory is excluded.
use project_apex.Prelude.{
  ◌≡◌, refl, sym, ◌∙◌, Bool, true, false, ◌||◌, List, [], ◌∷◌, ◌++◌, map, arith, All, Text,
}
use project_apex.Engine.Exclusions.Glob.{slash, any}
use project_apex.Engine.Exclusions.{
  Pattern, ExclusionSet, decides, decide, is_excluded, heads, matches, covers_ancestor,
}

abbrev pub IsPositive : List Pattern → Type 0
IsPositive = All (λ (p : Pattern). p.negated ≡ false)

-- Whether any pattern decides.
unfoldable pub any_decides : List Pattern → Text → Bool → Bool
any_decides [] path is_directory = false
any_decides (p ∷ ps) path is_directory =
    decides path is_directory p || any_decides ps path is_directory

decide_of_positive :
    (ps : List Pattern) (path : Text) (is_directory excluded : Bool)
    → IsPositive ps
    → decide ps path is_directory excluded ≡ (excluded || any_decides ps path is_directory)
unfolding decide any_decides
decide_of_positive [] path is_directory excluded h = ground arith
decide_of_positive (p ∷ ps) path is_directory excluded h = ground (
  arith,
  h.0,
  decide_of_positive ps path is_directory true h.1,
  decide_of_positive ps path is_directory excluded h.1,
)

pub is_excluded_of_positive :
    (set : ExclusionSet) (path : Text) (is_directory : Bool)
    → IsPositive set.patterns
    → is_excluded set path is_directory ≡ any_decides set.patterns path is_directory
unfolding is_excluded
is_excluded_of_positive set path is_directory h =
    decide_of_positive set.patterns path is_directory false h

any-append : (f : Text → Bool) (xs ys : List Text) → any f (xs ++ ys) ≡ (any f xs || any f ys)
unfolding any
any-append f [] ys = refl
any-append f (x ∷ xs) ys = ground (arith, any-append f xs ys)

any-map :
    (f : Text → Bool) (g : Text → Text) (xs : List Text) → any f (map g xs) ≡ any (λ x. f (g x)) xs
unfolding any
any-map f g [] = refl
any-map f g (x ∷ xs) = ground (arith, any-map f g xs)

-- The directories above a path are those above a directory on the way, that directory, and more.
any-heads :
    (f : Text → Bool) (dir rest : Text)
    → (f dir || any f (heads dir)) ≡ true
    → any f (heads (dir ++ slash ∷ rest)) ≡ true
unfolding heads any
any-heads f [] rest h =
    rw (any-append f (map (λ t. slash ∷ t) (heads rest)) ([] ∷ [])) (ground (arith, h))
any-heads f (c ∷ dir) rest h =
    let grown = λ (t : Text). c ∷ t in
    let ih = any-heads (λ t. f (c ∷ t)) dir rest in
    let here = any-map f grown (heads dir) in
    let there = any-map f grown (heads (dir ++ slash ∷ rest)) in
    ground (
      arith,
      h,
      ih,
      here,
      there,
      any-append f (map grown (heads dir)) ([] ∷ []),
      any-append f (map grown (heads (dir ++ slash ∷ rest))) ([] ∷ []),
    )

decides_below :
    (p : Pattern) (dir rest : Text) (is_directory : Bool)
    → decides dir true p ≡ true
    → decides (dir ++ slash ∷ rest) is_directory p ≡ true
unfolding decides covers_ancestor
decides_below p dir rest is_directory h =
    let above = any-heads (matches p) dir rest (ground (arith, h)) in ground (arith, above)

any_decides_below :
    (ps : List Pattern) (dir rest : Text) (is_directory : Bool)
    → any_decides ps dir true ≡ true
    → any_decides ps (dir ++ slash ∷ rest) is_directory ≡ true
unfolding any_decides
any_decides_below [] dir rest is_directory h = h
any_decides_below (p ∷ ps) dir rest is_directory h =
    ground
      (arith, h, decides_below p dir rest is_directory, any_decides_below ps dir rest is_directory)

-- When no pattern is a negation, everything below an excluded directory, at any depth and file or
-- directory, is excluded.
pub is_excluded_below :
    (set : ExclusionSet) (dir rest : Text) (is_directory : Bool)
    → IsPositive set.patterns
    → is_excluded set dir true ≡ true
    → is_excluded set (dir ++ slash ∷ rest) is_directory ≡ true
is_excluded_below set dir rest is_directory p h =
    is_excluded_of_positive set (dir ++ slash ∷ rest) is_directory p
    ∙ any_decides_below set.patterns dir rest is_directory
        (sym (is_excluded_of_positive set dir true p) ∙ h)
