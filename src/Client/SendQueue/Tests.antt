-- ===== src/Client/SendQueue/Tests.antt =====
-- The orders of the tests of client/core/src/adapters/outbound/openssh/sendq.rs.
use project_apex.Prelude.{◌≡◌, refl, false, List, [], ◌∷◌, codes}
use project_apex.Client.SendQueue.{
  interactive, background, frame, ended, waits, new, push, pop, close,
}
use project_apex.Client.SendQueue.Traces.{Op, pushes, pops, closes, run, run_outbox, run-hand_out}

abbrev ops : List Op
ops =
    pushes background (codes "bg1")
    ∷ pushes background (codes "bg2")
    ∷ pushes interactive (codes "ui")
    ∷ pops
    ∷ pops
    ∷ pops
    ∷ pops
    ∷ closes
    ∷ pushes interactive (codes "late")
    ∷ pops
    ∷ []

run-ops :
    run ops new
    ≡ frame (codes "ui") ∷ frame (codes "bg1") ∷ frame (codes "bg2") ∷ waits ∷ ended ∷ []
unfolding run push pop close new
run-ops = refl

run-hand_out_example : run ops new ≡ run_outbox ops (record { items = []; closed = false })
run-hand_out_example = run-hand_out ops
