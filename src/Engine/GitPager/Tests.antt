-- ===== src/Engine/GitPager/Tests.antt =====
-- Runs on concrete snapshots.
use project_apex.Prelude.{◌+◌, ◌≡◌, refl, false, none, some, List, [], ◌∷◌, arith, codes}
use project_apex.Prelude.Map.{insert, remove, get, same}
use project_apex.Prelude.Order.{text_ord}
use project_apex.Protocol.Wire.{GitChange, modified, untracked, branch}
use project_apex.Engine.GitPager
use project_apex.Engine.GitPager.{
  Held, Result, err, ok, StatusPager, StatusSnapshot, PageRefusal, unknown_cursor, page, slice,
  hold, forget, max_generation, cursor_text, offset_of, parse_cursor, split_once,
}
use project_apex.Engine.GitPager.Collect.{collect, page-slice, offset_of_own, collect_all}
use project_apex.Engine.GitPager.Generations.{Reached, page-elsewhere, hold-page, held_then, here}
use project_apex.Engine.GitPager.Service.{refresh, refresh-collect}

abbrev changes : List GitChange
changes =
    record { path = codes "a"; status = modified }
    ∷ record { path = codes "b"; status = untracked }
    ∷ record { path = codes "c"; status = modified }
    ∷ []

abbrev three : StatusSnapshot
three = record { branch = branch (codes "main"); changes = changes }

abbrev one_held : StatusPager
one_held = record { held = (codes "w", record { snapshot = three; generation = 7 }) ∷ [] }

one_held_get : get (codes "w") one_held.held ≡ some (record { snapshot = three; generation = 7 })
unfolding get same
one_held_get = refl

collect_all_example : collect 4 (λ n. 1) (codes "w") none one_held ≡ some changes
collect_all_example =
    collect_all (λ n. 1) (codes "w") one_held (record { snapshot = three; generation = 7 })
      one_held_get (omega arith) (omega arith)

-- The new snapshot of "w", and then the first of "v".
abbrev then_held : StatusPager
then_held = (hold (codes "v") three 2 (hold (codes "w") three 2 one_held).0).0

hold-page_example :
    ((hold (codes "w") three 2 one_held).1
      ≡ ok (slice (record { snapshot = three; generation = max_generation one_held.held + 1 }) 0 2))
    × (page (codes "w") (some (cursor_text 7 2)) 2 then_held ≡ err unknown_cursor)
hold-page_example =
    hold-page one_held then_held (codes "w") (codes "w")
      (record { snapshot = three; generation = 7 }) three 2 2 2 one_held_get (omega arith)
      (omega arith) (held_then (codes "v") three 2 here)

abbrev two_held : StatusPager
two_held = (hold (codes "v") three 2 (hold (codes "w") three 2 GitPager.new).0).0

two_held_get : get (codes "w") two_held.held ≡ some (record { snapshot = three; generation = 1 })
unfolding get same hold GitPager.new max_generation insert
two_held_get = refl

apart : same (codes "w") (codes "v") ≡ false
unfolding same
apart = refl

page-elsewhere_example : page (codes "v") (some (cursor_text 1 2)) 2 two_held ≡ err unknown_cursor
page-elsewhere_example =
    page-elsewhere two_held (codes "w") (codes "v") (record { snapshot = three; generation = 1 }) 2
      2 (Reached.held (codes "v") three 2 (Reached.held (codes "w") three 2 Reached.at_first))
      two_held_get apart (omega arith) (omega arith)

refresh-collect_example :
    collect 4 (λ n. 2) (codes "w") none (refresh (ok three) (codes "w") 2 one_held).0 ≡ some changes
unfolding max_generation
refresh-collect_example =
    refresh-collect (ok three) (λ n. 2) (codes "w") 2 one_held (omega arith) (omega arith)

-- A snapshot that is forgotten gives its generation back: the cursor of the old one is read in the
-- new one, of another workspace.
abbrev reusing : StatusPager
reusing =
    (hold (codes "v") three 2 (forget (codes "w") (hold (codes "w") three 2 GitPager.new).0)).0

reusing_get : get (codes "v") reusing.held ≡ some (record { snapshot = three; generation = 1 })
unfolding get same hold forget GitPager.new max_generation insert remove
reusing_get = refl

reused_after_forget :
    page (codes "v") (some (cursor_text 1 2)) 2 reusing
    ≡ ok (slice (record { snapshot = three; generation = 1 }) 2 2)
reused_after_forget =
    page-slice (codes "v") (some (cursor_text 1 2)) 2 2 reusing
      (record { snapshot = three; generation = 1 }) reusing_get
      (offset_of_own (record { snapshot = three; generation = 1 }) 2 (omega arith) (omega arith))
