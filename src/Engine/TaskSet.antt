-- ===== src/Engine/TaskSet.antt =====
-- engine/src/domain/task.rs: the tasks that the engine holds, by identity. A `TaskId` and a
-- `WorkspaceId` are texts. An `i32` is its number, and not computed with. What spawns a task, and
-- what an environment is merged into, is in other modules; `EnvOverrides` prints no variable, which
-- is about formatting and is left out.
pub mod Drain
pub mod Lookup
mod Tests
use project_apex.Prelude.{
  ℕ, zero, suc, ◌+◌, ◌-◌, ◌*◌, ◌/◌, ◌%◌, ◌^◌, ◌≤◌, ◌<◌, ◌≡◌, refl, sym, ap, ◌∙◌, ◌≢◌, ◌↔◌, ◌⊎◌, inl,
  inr, Bool, true, false, not, ◌&&◌, ◌||◌, Option, none, some, List, [], ◌∷◌, ◌++◌, map, append-nil,
  append_assoc, arith, ltb, leb, ◌==◌, if◌then◌else◌, Bool-cases, Option-cases, length,
  length-append, All, All-append, Text, codes, filter,
}
use project_apex.Prelude.Order.{text_ord}
use project_apex.Prelude.Map
use project_apex.Prelude.Map.{Map}
use project_apex.Prelude.Int.{ℤ}

pub data Stream : Type 0 where
  stdout stderr : Stream

pub data Shape : Type 0 where
  pty : ℕ → ℕ → Shape
  pipes : Shape

pub data ExitStatus : Type 0 where
  exited : ℤ → ExitStatus
  signalled : ℤ → ExitStatus

pub data TaskState : Type 0 where
  running : TaskState
  ended : ExitStatus → TaskState

pub record OutputChunk : Type 0 where
  pub stream : Stream
  pub bytes : List ℕ

pub record Task : Type 0 where
  pub id : Text
  pub workspace : Text
  pub command : List Text
  pub shape : Shape
  pub pid : ℕ
  pub env : Map Text Text
  pub state : TaskState

unfoldable pub is_running : Task → Bool
is_running t = elim t.state [ running ↦ true | ended _ ↦ false ]

pub record TaskSet : Type 0 where
  pub tasks : Map Text Task

unfoldable pub new : TaskSet
new = record { tasks = [] }

pub data StartRefused : Type 0 where
  already_running : StartRefused

pub data Started : Type 0 where
  ok : Started
  refused : StartRefused → Started

unfoldable pub start : Task → TaskSet → TaskSet × Started
start task set =
    if Map.contains task.id set.tasks
    then (set, refused already_running)
    else (record { tasks = Map.insert task.id task set.tasks }, ok)

unfoldable pub get : Text → TaskSet → Option Task
get id set = Map.get id set.tasks

unfoldable pub contains : Text → TaskSet → Bool
contains id set = Map.contains id set.tasks

unfoldable pub release : Text → TaskSet → TaskSet × Option Task
release id set = (record { tasks = Map.remove id set.tasks }, Map.get id set.tasks)

abbrev pub is_of : Text → Task → Bool
is_of workspace t = Map.same t.workspace workspace

unfoldable pub list : Option Text → TaskSet → List Task
list none set = filter (λ t. true) (Map.values set.tasks)
list (some workspace) set = filter (is_of workspace) (Map.values set.tasks)

-- `ids.iter().filter_map(|id| self.tasks.remove(id)).collect()`
unfoldable pub remove_each : List Text → Map Text Task → Map Text Task × List Task
remove_each [] tasks = (tasks, [])
remove_each (id ∷ ids) tasks =
    let (left, taken) = remove_each ids (Map.remove id tasks) in
    elim (Map.get id tasks) [ none ↦ (left, taken) | some t ↦ (left, t ∷ taken) ]

unfoldable pub drain_for_workspace : Text → TaskSet → TaskSet × List Task
unfolding remove_each
drain_for_workspace workspace set =
    let ids = map (λ (t : Task). t.id) (filter (is_of workspace) (Map.values set.tasks)) in
    let (left, taken) = remove_each ids set.tasks in (record { tasks = left }, taken)

unfoldable pub drain_all : TaskSet → TaskSet × List Task
drain_all set = (record { tasks = [] }, Map.values set.tasks)

unfoldable pub len : TaskSet → ℕ
len set = length set.tasks

unfoldable pub is_empty : TaskSet → Bool
is_empty set = elim set.tasks [ [] ↦ true | _ ∷ _ ↦ false ]

-- What a client may ask to be sent to a task.
pub data TaskSignal : Type 0 where
  interrupt terminate kill : TaskSignal
