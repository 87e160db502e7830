-- ===== src/Engine/Exclusions/Glob/Reference.antt =====
-- What a pattern without `**` means: a star is any characters but separators, every other character
-- is itself.
use project_apex.Prelude.{Bool, true, false, not, ◌&&◌, ◌||◌, [], ◌∷◌, ◌==◌, if◌then◌else◌, Text}
use project_apex.Engine.Exclusions.Glob.{slash, star}

-- Leave off characters other than separators, none at first, until the rest is matched.
unfoldable pub skipping : (Text → Bool) → Text → Bool
skipping f [] = f []
skipping f (d ∷ t) = f (d ∷ t) || (not (d == slash) && skipping f t)

unfoldable pub matches_flat : Text → Text → Bool
matches_flat [] [] = true
matches_flat [] (d ∷ t) = false
matches_flat (c ∷ p) [] = if c == star then skipping (matches_flat p) [] else false
matches_flat (c ∷ p) (d ∷ t) =
    if c == star then skipping (matches_flat p) (d ∷ t) else c == d && matches_flat p t
