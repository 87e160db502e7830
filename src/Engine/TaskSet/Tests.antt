-- ===== src/Engine/TaskSet/Tests.antt =====
-- The tasks of the tests of engine/src/domain/task.rs.
use project_apex.Prelude.{◌≡◌, refl, false, [], ◌∷◌, Text, codes}
use project_apex.Prelude.Order.{text_ord}
use project_apex.Prelude.Map
use project_apex.Engine.TaskSet.{Task, TaskSet, pipes, running, contains}
use project_apex.Engine.TaskSet.Drain.{IsValid}

abbrev task : Text → Text → Task
task id workspace = record {
  id = id;
  workspace = workspace;
  command = codes "true" ∷ [];
  shape = pipes;
  pid = 7;
  env = [];
  state = running;
}

abbrev two_tasks : TaskSet
two_tasks = record {
  tasks =
      (codes "t1", task (codes "t1") (codes "a"))
      ∷ (codes "t2", task (codes "t2") (codes "b"))
      ∷ [];
}

two_tasks-IsValid : IsValid two_tasks
two_tasks-IsValid = record { sorted = ((refl, tt), (tt, tt)); named = (refl, (refl, tt)) }

abbrev third : Task
third = task (codes "t3") (codes "a")

third_is_new : contains third.id two_tasks ≡ false
unfolding contains Map.get Map.same
third_is_new = refl
