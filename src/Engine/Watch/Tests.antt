-- ===== src/Engine/Watch/Tests.antt =====
-- The requests of the tests of engine/src/domain/watch.rs.
use project_apex.Prelude.{◌≡◌, List, [], ◌∷◌, codes}
use project_apex.Engine.Watch.{new}
use project_apex.Engine.Watch.Invariant.{new-IsValid}
use project_apex.Engine.Watch.Counts.{Op, acquired, released, run, run_count, run-refines, reasons}

abbrev requests : List Op
requests =
    acquired (codes "/ws/src")
    ∷ acquired (codes "/ws/src")
    ∷ released (codes "/ws/src")
    ∷ released (codes "/ws/src")
    ∷ []

run-refines_example :
    (reasons (run requests new).0 ≡ (run_count requests (reasons new)).0)
    × ((run requests new).1 ≡ (run_count requests (reasons new)).1)
run-refines_example = run-refines requests new new-IsValid
