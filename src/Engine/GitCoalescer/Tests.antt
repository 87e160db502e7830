-- ===== src/Engine/GitCoalescer/Tests.antt =====
-- Runs on concrete calls.
use project_apex.Prelude.{◌+◌, ◌≤◌, ◌≡◌, refl, true, false, none, List, [], ◌∷◌, arith}
use project_apex.Engine.GitCoalescer.{
  StatusCoalescer, new, notice, due, begin, finish, idle, at, edge_ms,
}
use project_apex.Engine.GitCoalescer.Runs.{
  Op, start, run_all, noticed, began, finished, run_all-begins, step,
}
use project_apex.Engine.GitCoalescer.Live.{settled, burst-begin}

abbrev busy : StatusCoalescer
busy = record { edge = edge_ms; pending_since = none; running = true; dirty_while_running = false }

-- A burst of three during a run that ends at 250: the follow-up is due at 350.
burst-begin_example :
    (due 300 (settled 110 (120 ∷ 240 ∷ []) 250 busy) ≡ at 350)
    × ((begin 350 (settled 110 (120 ∷ 240 ∷ []) 250 busy)).1 ≡ true)
    × (due 900 (finish 400 (begin 350 (settled 110 (120 ∷ 240 ∷ []) 250 busy)).0) ≡ idle)
burst-begin_example = burst-begin busy 110 (120 ∷ 240 ∷ []) 250 350 400 300 900 (omega arith)

abbrev calls : List Op
calls =
    noticed 0
    ∷ noticed 50
    ∷ began 100
    ∷ began 150
    ∷ noticed 160
    ∷ noticed 170
    ∷ finished 200
    ∷ began 300
    ∷ []

run_all-begins_example :
    ((run_all calls (start 100)).begins ≤ (run_all calls (start 100)).notices)
    × ((run_all calls (start 100)).begins ≤ (run_all calls (start 100)).finishes + 1)
run_all-begins_example = run_all-begins calls 100

two_runs : (run_all calls (start 100)).begins ≡ 2
unfolding run_all step new notice due begin finish
two_runs = refl
