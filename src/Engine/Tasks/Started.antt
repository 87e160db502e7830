-- ===== src/Engine/Tasks/Started.antt =====
-- What the answer to a start says.
use project_apex.Prelude.{ℕ, ◌≡◌, true, false, some, [], ◌∷◌, Text, inr}
use project_apex.Prelude.Map
use project_apex.Prelude.Map.{Map}
use project_apex.Prelude.Order.{text_ord}
use project_apex.Engine.Path.{Components, Disk}
use project_apex.Engine.Path
use project_apex.Engine.Workspace
use project_apex.Engine.Workspace.{InMemoryRoots}
use project_apex.Engine.TaskSet
use project_apex.Engine.TaskSet.{Task, TaskSet, running, pty, pipes}
use project_apex.Engine.Tasks.{
  Result, err, ok, RunTaskParams, StartRefusal, SpawnFailure, not_registered, root_gone, refused,
  not_found, already_running, could_not_start, SpawnRequest, or_else, request_of, shape_of, inr,
}

-- The task is held under its identity, running, with the process that was made for it.
abbrev pub Holds : RunTaskParams → ℕ → TaskSet → Type 0
Holds params pid tasks =
    (t : Task) × (TaskSet.get params.task_id tasks ≡ some t)
    × (t.pid ≡ pid)
    × (t.state ≡ running)
    × (t.workspace ≡ params.workspace_id)

module _ {W H : Type 0} (spawn : SpawnRequest → W → W × Result SpawnFailure (ℕ × H)) where
  -- The one process that was made, in a directory of the workspace.
  abbrev pub Spawned : RunTaskParams → InMemoryRoots → Disk → Map Text Text → W → W → ℕ × H → Type 0
  Spawned params roots disk inherited w w' spawned =
      (root : Components) × (cwd : Components) × (Workspace.resolve disk params.workspace_id roots
        ≡ Workspace.ok root)
      × (Path.resolve root (or_else params.cwd (46 ∷ [])) disk ≡ Path.ok cwd)
      × (spawn (request_of spawn params inherited cwd) w ≡ (w', ok spawned))

  abbrev pub Says :
      RunTaskParams
      → InMemoryRoots
      → Disk
      → Map Text Text
      → TaskSet
      → W
      → W × (TaskSet × Result StartRefusal (ℕ × H))
      → Type 0
  Says params roots disk inherited tasks w (w', (tasks', ok spawned)) =
      (TaskSet.contains params.task_id tasks ≡ false)
      × Holds params spawned.0 tasks'
      × Spawned params roots disk inherited w w' spawned
  Says params roots disk inherited tasks w (w', (tasks', err already_running)) =
      (TaskSet.contains params.task_id tasks ≡ true) × (w' ≡ w) × (tasks' ≡ tasks)
  Says params roots disk inherited tasks w (w', (tasks', err (could_not_start e))) = tasks' ≡ tasks
  Says params roots disk inherited tasks w (w', (tasks', err not_registered)) =
      (w' ≡ w) × (tasks' ≡ tasks)
  Says params roots disk inherited tasks w (w', (tasks', err root_gone)) =
      (w' ≡ w) × (tasks' ≡ tasks)
  Says params roots disk inherited tasks w (w', (tasks', err refused)) = (w' ≡ w) × (tasks' ≡ tasks)
  Says params roots disk inherited tasks w (w', (tasks', err not_found)) =
      (w' ≡ w) × (tasks' ≡ tasks)

  task_of : RunTaskParams → ℕ → Task
  task_of params pid = record {
    id = params.task_id;
    workspace = params.workspace_id;
    command = params.command;
    shape = shape_of params;
    pid = pid;
    env = or_else params.env [];
    state = running;
  }
