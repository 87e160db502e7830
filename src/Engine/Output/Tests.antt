-- ===== src/Engine/Output/Tests.antt =====
-- Small runs of the chunker and of the retained output of engine/src/application/output.rs.
use project_apex.Prelude.{◌≡◌, refl, none, some, List, [], ◌∷◌, ◌++◌, arith, All, codes}
use project_apex.Engine.TaskSet.{stdout, stderr, OutputChunk}
use project_apex.Engine.Output.{Partial, Chunker, new, RetainedOutput}
use project_apex.Engine.Output.Conserve.{
  Call, read, tick, finish, run, of_stream, queued, read_from, run-queued,
}
use project_apex.Engine.Output.Bounds.{IsPartial, IsValid, IsChunk, new-IsValid, run-IsValid}

abbrev calls : List Call
calls =
    read stdout (codes "ab") 5
    ∷ read stderr (codes "!") 6
    ∷ read stdout (codes "c") 9
    ∷ tick 25
    ∷ finish
    ∷ []

run-queued_example :
    of_stream stdout (run calls new).1 ++ queued stdout (run calls new).0
    ≡ queued stdout new ++ read_from stdout calls
run-queued_example = run-queued stdout calls new

run-IsValid_example : IsValid (run calls new).0 × All IsChunk (run calls new).1
run-IsValid_example = run-IsValid calls new new-IsValid

-- "ab" came to the standard output at 5.
abbrev waiting : Chunker
waiting = record {
  out = record { bytes = codes "ab"; since = some 5 };
  errors = record { bytes = []; since = none };
  ready = [];
}

abbrev waiting_out : Partial
waiting_out = record { bytes = codes "ab"; since = some 5 }

waiting-IsPartial : IsPartial waiting_out
waiting-IsPartial = record { short = omega arith; timed = refl }

abbrev line : OutputChunk
line = record { stream = stdout; bytes = codes "ok" }

abbrev fresh : RetainedOutput
fresh = record { chunks = []; bytes_held = 0; ending = none }
