-- ===== src/Engine/Tasks/Tests.antt =====
-- Runs over two tasks of one workspace.
use project_apex.Prelude.{ℕ, suc, ◌≡◌, refl, true, none, some, [], ◌∷◌, ◌++◌, All, Text, codes}
use project_apex.Prelude.Map
use project_apex.Prelude.Map.{Map}
use project_apex.Prelude.Order.{text_ord}
use project_apex.Engine.Path.{Disk}
use project_apex.Engine.Exclusions.{FileSystem}
use project_apex.Engine.Workspace
use project_apex.Engine.Workspace.{InMemoryRoots, register}
use project_apex.Engine.TaskSet.{Task, TaskSet, pipes, running}
use project_apex.Engine.TaskSet.Drain.{IsValid}
use project_apex.Engine.Tasks.{
  Result, ok, RunTaskParams, SpawnRequest, SpawnFailure, list_tasks, merge_over,
}
use project_apex.Engine.Tasks.Told.{Promised, over, attach_task-list_tasks, get-merge_over}
use Prim.Native.String.{String}

abbrev task : String → Task
task id = record {
  id = codes id;
  workspace = codes "w";
  command = codes "make" ∷ [];
  shape = pipes;
  pid = 7;
  env = [];
  state = running;
}

abbrev two : TaskSet
two = record { tasks = (codes "a", task "a") ∷ (codes "b", task "b") ∷ [] }

valid : IsValid two
valid = record { sorted = ((refl, tt), (tt, tt)); named = (refl, (refl, tt)) }

attach_task-list_tasks_example :
    All (Promised (codes "w") 3 two) (list_tasks (some (codes "w")) two)
attach_task-list_tasks_example = attach_task-list_tasks (codes "w") 3 two valid

abbrev inherited : Map Text Text
inherited = (codes "HOME", codes "/h") ∷ (codes "PATH", codes "/bin") ∷ []

abbrev overrides : Map Text Text
overrides = (codes "PATH", codes "/x") ∷ []

get-merge_over_example :
    Map.get (codes "PATH") (merge_over inherited overrides)
    ≡ over (Map.get (codes "PATH") overrides) (Map.get (codes "PATH") inherited)
get-merge_over_example = get-merge_over (codes "PATH") inherited overrides (tt, tt)

abbrev disk : Disk
disk = record { canonicalize = λ p. some p; is_directory = λ p. some true }

abbrev fs : FileSystem
fs = record { read_range = λ p. none; read_dir = λ p. none; join = λ a b. a ++ b }

abbrev roots : InMemoryRoots
roots = (register (λ t. t ∷ []) disk fs (codes "w") (codes "root") Workspace.new).0

abbrev params : RunTaskParams
params = record {
  workspace_id = codes "w";
  task_id = codes "c";
  command = codes "make" ∷ [];
  cwd = none;
  env = some overrides;
  pty = true;
  cols = none;
  rows = some 50;
}

-- The world counts the processes.
abbrev spawn : SpawnRequest → ℕ → ℕ × Result SpawnFailure (ℕ × Unit)
spawn request n = (suc n, ok (n, tt))
