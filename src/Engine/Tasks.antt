-- ===== src/Engine/Tasks.antt =====
-- engine/src/application/use_cases/task.rs: what is decided about a task before and after there is a
-- process. The runner is a parameter with its state `W`; the handle `H` that it gives is kept, and the
-- two calls on it are parameters where they are used.
pub mod Started
pub mod Told
mod Tests
use project_apex.Prelude.{
  ℕ, zero, suc, ◌+◌, ◌-◌, ◌*◌, ◌/◌, ◌%◌, ◌^◌, ◌≤◌, ◌<◌, ◌≡◌, refl, sym, ap, ◌∙◌, ◌≢◌, ◌↔◌, ◌⊎◌, inl,
  inr, Bool, true, false, not, ◌&&◌, ◌||◌, Option, none, some, List, [], ◌∷◌, ◌++◌, map, append-nil,
  append_assoc, arith, ltb, leb, ◌==◌, if◌then◌else◌, Bool-cases, Option-cases, length,
  length-append, All, All-append, Text, codes,
}
use project_apex.Prelude.Int.{ℤ, pos, negsuc}
use project_apex.Prelude.Decimal.{decimal}
use project_apex.Prelude.Map
use project_apex.Prelude.Map.{Map}
use project_apex.Prelude.Order.{text_ord}
use project_apex.Engine.Path.{Components, Disk, path_refused}
use project_apex.Engine.Path
use project_apex.Engine.Workspace
use project_apex.Engine.Workspace.{InMemoryRoots, RootError}
use project_apex.Engine.TaskSet
use project_apex.Engine.TaskSet.{
  Task, TaskSet, Shape, pty, pipes, TaskState, ExitStatus, exited, signalled, running, ended,
  TaskSignal, terminate, interrupt, kill, drain_for_workspace, drain_all, list,
}

pub data Result (E A : Type 0) : Type 0 where
  err : E → Result E A
  ok : A → Result E A

pub record RunTaskParams : Type 0 where
  pub workspace_id : Text
  pub task_id : Text
  pub command : List Text
  pub cwd : Option Text
  pub env : Option (Map Text Text)
  pub pty : Bool
  pub cols : Option ℕ
  pub rows : Option ℕ

abbrev pub default_cols : ℕ
default_cols = 80

abbrev pub default_rows : ℕ
default_rows = 24

-- The kinds of `std::io::Error` are texts.
pub data SpawnFailure : Type 0 where
  not_executable cwd_unusable no_device limit_refused : SpawnFailure
  failed : Text → SpawnFailure

pub data StartRefusal : Type 0 where
  not_registered root_gone refused not_found already_running : StartRefusal
  could_not_start : SpawnFailure → StartRefusal

abbrev pub or_else {ℓ} : {A : Type ℓ} → Option A → A → A
or_else none d = d
or_else (some a) d = a

unfoldable pub merge_over : Map Text Text → Map Text Text → Map Text Text
merge_over inherited [] = inherited
merge_over inherited ((k, v) ∷ overrides) = merge_over (Map.insert k v inherited) overrides

unfoldable pub shape_of : RunTaskParams → Shape
shape_of p =
    if p.pty then pty (or_else p.cols default_cols) (or_else p.rows default_rows) else pipes

-- `ResourceLimits::FIXED` is part of every request and left out.
pub record SpawnRequest : Type 0 where
  pub command : List Text
  pub cwd : Components
  pub env : Map Text Text
  pub shape : Shape

abbrev pub of_root : RootError → StartRefusal
of_root Workspace.not_registered = not_registered
of_root (Workspace.root_conflict existing) = not_registered
of_root Workspace.gone = root_gone
of_root Workspace.unusable = root_gone

abbrev pub of_path : Path.PathRefusal → StartRefusal
of_path path_refused = refused
of_path Path.not_found = not_found

module _ {W H : Type 0} (spawn : SpawnRequest → W → W × Result SpawnFailure (ℕ × H)) where
  -- What is kept of a task that was spawned.
  unfoldable pub record_task :
      RunTaskParams
      → TaskSet
      → W × Result SpawnFailure (ℕ × H)
      → W × (TaskSet × Result StartRefusal (ℕ × H))
  record_task params tasks (w, err e) = (w, (tasks, err (could_not_start e)))
  record_task params tasks (w, ok spawned) =
      let task : Task = record {
        id = params.task_id;
        workspace = params.workspace_id;
        command = params.command;
        shape = shape_of params;
        pid = spawned.0;
        env = or_else params.env [];
        state = running;
      } in
      let (after, answer) = TaskSet.start task tasks in
      elim answer [
        | TaskSet.ok ↦ (w, (after, ok spawned))
        | TaskSet.refused _ ↦ (w, (after, err already_running))
      ]

  -- The request of the task, in a directory that was resolved.
  unfoldable pub request_of : RunTaskParams → Map Text Text → Components → SpawnRequest
  request_of params inherited cwd = record {
    command = params.command;
    cwd = cwd;
    env = merge_over inherited (or_else params.env []);
    shape = shape_of params;
  }

  unfoldable pub start_task :
      RunTaskParams
      → InMemoryRoots
      → Disk
      → Map Text Text
      → TaskSet
      → W
      → W × (TaskSet × Result StartRefusal (ℕ × H))
  start_task params roots disk inherited tasks w = elim (TaskSet.contains params.task_id tasks) [
    | true ↦ (w, (tasks, err already_running))
    | false ↦ elim (Workspace.resolve disk params.workspace_id roots) [
      | Workspace.err e ↦ (w, (tasks, err (of_root e)))
      | Workspace.ok root ↦ elim (Path.resolve root (or_else params.cwd (46 ∷ [])) disk) [
        | Path.err e ↦ (w, (tasks, err (of_path e)))
        | Path.ok cwd ↦ record_task params tasks (spawn (request_of params inherited cwd) w)
      ]
    ]
  ]

abbrev pub escalation_grace_ms : ℕ
escalation_grace_ms = 5000

pub data InputOutcome : Type 0 where
  written no_such_task input_refused : InputOutcome

-- `control` is the call on the handle, if there is one: the state after it and whether it succeeded.
unfoldable pub write_input :
    {W : Type 0} → List ℕ → Option (List ℕ → W → W × Bool) → W → W × InputOutcome
write_input bytes none w = (w, no_such_task)
write_input [] (some control) w = (w, written)
write_input (b ∷ bytes) (some control) w =
    let (w', fine) = control (b ∷ bytes) w in (w', if fine then written else input_refused)

pub data ResizeOutcome : Type 0 where
  resized no_terminal no_such_window resize_refused : ResizeOutcome

unfoldable pub resize_task :
    {W : Type 0} → Option Shape → ℕ → ℕ → Option (ℕ → ℕ → W → W × Bool) → W → W × ResizeOutcome
resize_task none cols rows control w = (w, no_such_window)
resize_task (some pipes) cols rows control w = (w, no_terminal)
resize_task (some (pty c r)) cols rows control w = elim (cols == 0 || rows == 0) [
  | true ↦ (w, resize_refused)
  | false ↦ elim control [
    | none ↦ (w, no_such_window)
    | some resize ↦
        let (w', fine) = resize cols rows w in (w', if fine then resized else resize_refused)
  ]
]

pub record StopPlan : Type 0 where
  pub id : Text
  pub send : TaskSignal
  pub escalate_at : Option ℕ

unfoldable pub escalation : TaskSignal → ℕ → Option ℕ
escalation terminate now = some (now + escalation_grace_ms)
escalation interrupt now = none
escalation kill now = none

-- It is never refused.
unfoldable pub stop_task : Text → TaskSignal → ℕ → StopPlan
stop_task id signal now = record { id = id; send = signal; escalate_at = escalation signal now }

unfoldable pub plan_of : ℕ → Task → StopPlan
plan_of now t = record {
  id = t.id;
  send = terminate;
  escalate_at = some (now + escalation_grace_ms);
}

unfoldable pub close_workspace : Text → ℕ → TaskSet → TaskSet × List StopPlan
close_workspace workspace now tasks =
    let (left, taken) = drain_for_workspace workspace tasks in (left, map (plan_of now) taken)

unfoldable pub drain_all_tasks : ℕ → TaskSet → TaskSet × List StopPlan
drain_all_tasks now tasks = let (left, taken) = drain_all tasks in (left, map (plan_of now) taken)

abbrev signal_names : List (ℕ × Text)
signal_names =
    (1, codes "SIGHUP")
    ∷ (2, codes "SIGINT")
    ∷ (3, codes "SIGQUIT")
    ∷ (4, codes "SIGILL")
    ∷ (6, codes "SIGABRT")
    ∷ (8, codes "SIGFPE")
    ∷ (9, codes "SIGKILL")
    ∷ (11, codes "SIGSEGV")
    ∷ (13, codes "SIGPIPE")
    ∷ (14, codes "SIGALRM")
    ∷ (15, codes "SIGTERM")
    ∷ (24, codes "SIGXCPU")
    ∷ (25, codes "SIGXFSZ")
    ∷ (28, codes "SIGWINCH")
    ∷ []

abbrev name_in : ℕ → List (ℕ × Text) → Text
name_in n [] = codes "SIG" ++ decimal n
name_in n ((k, name) ∷ names) = let rest = name_in n names in if n == k then name else rest

-- `SignalName::from_number`
unfoldable pub from_number : ℤ → Text
from_number (pos n) = name_in n signal_names
from_number (negsuc n) = codes "SIG-" ++ decimal (n + 1)

-- Whether it runs, its code, its signal.
pub record Fate : Type 0 where
  pub running : Bool
  pub exit_code : Option ℤ
  pub signal : Option Text

unfoldable pub fate_of : TaskState → Fate
fate_of running = record { running = true; exit_code = none; signal = none }
fate_of (ended (exited code)) = record { running = false; exit_code = some code; signal = none }
fate_of (ended (signalled n)) = record {
  running = false;
  exit_code = none;
  signal = some (from_number n);
}

pub data AttachRefusal : Type 0 where
  not_this_workspace no_task : AttachRefusal

pub record AttachResult : Type 0 where
  pub pid : ℕ
  pub retained : ℕ
  pub fate : Fate

unfoldable pub attach_task : Text → Text → ℕ → TaskSet → Result AttachRefusal AttachResult
attach_task workspace id retained tasks = elim (TaskSet.get id tasks) [
  | none ↦ err no_task
  | some t ↦
      if Map.same t.workspace workspace
      then ok (record { pid = t.pid; retained = retained; fate = fate_of t.state })
      else err not_this_workspace
]

pub record TaskSummary : Type 0 where
  pub task_id : Text
  pub workspace_id : Text
  pub command : List Text
  pub pty : Bool
  pub pid : ℕ
  pub fate : Fate

abbrev pub is_pty : Shape → Bool
is_pty (pty c r) = true
is_pty pipes = false

unfoldable pub summary_of : Task → TaskSummary
summary_of t = record {
  task_id = t.id;
  workspace_id = t.workspace;
  command = t.command;
  pty = is_pty t.shape;
  pid = t.pid;
  fate = fate_of t.state;
}

unfoldable pub list_tasks : Option Text → TaskSet → List TaskSummary
list_tasks workspace tasks = map summary_of (list workspace tasks)
