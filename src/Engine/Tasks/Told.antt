-- ===== src/Engine/Tasks/Told.antt =====
-- What a client is told of the tasks, and what closing a workspace plans.
use project_apex.Prelude.{
  ℕ, ◌+◌, ◌≡◌, refl, ap, ◌∙◌, inl, inr, true, Option, none, some, List, [], ◌∷◌, map, arith,
  Bool-cases, All, Text, filter,
}
use project_apex.Prelude.Map
use project_apex.Prelude.Map.{
  Map, same_refl, same_of_lt, get_of_Above, same_eq, get-insert, get_of_Above, same_eq,
}
use project_apex.Prelude.Order.{text_ord}
use project_apex.Engine.TaskSet
use project_apex.Engine.TaskSet.{terminate, Task, TaskSet, is_of, list, drain_for_workspace}
use project_apex.Engine.TaskSet.Drain.{IsValid}
use project_apex.Engine.Tasks.{
  StopPlan, ok, merge_over, attach_task, TaskSummary, summary_of, list_tasks,
}

-- What is planned for a task when its workspace is closed: to end it now, and to kill it 5 s later.
abbrev pub ended : ℕ → Task → StopPlan
ended now t = record { id = t.id; send = terminate; escalate_at = some (now + 5000) }

All-map :
    {A : Type 0} (P Q : A → Type 0) (xs : List A) → ((x : A) → P x → Q x) → All P xs → All Q xs
All-map P Q [] f h = tt
All-map P Q (x ∷ xs) f h = (f x h.0, All-map P Q xs f h.1)

All-zip :
    {A : Type 0} (P Q R : A → Type 0) (xs : List A)
    → ((x : A) → P x → Q x → R x)
    → All P xs
    → All Q xs
    → All R xs
All-zip P Q R [] f h k = tt
All-zip P Q R (x ∷ xs) f h k = (f x h.0 k.0, All-zip P Q R xs f h.1 k.1)

-- Every entry of a map is found under its key.
get_of_entries :
    (m : Map Text Task) → Map.IsSorted m → All (λ (e : Text × Task). Map.get e.0 m ≡ some e.1) m
unfolding Map.get
get_of_entries [] s = tt
get_of_entries ((k, t) ∷ m) s = (
  ground (arith, same_refl k),
  All-zip _ _ _ m (λ e found above. ground (arith, found, (same_of_lt k e.0 above).1))
      (get_of_entries m s.1) s.0,
)

-- Where every entry has a property, so has every value that is listed.
All-listed :
    (P : Task → Type 0) (workspace : Text) (m : Map Text Task)
    → All (λ (e : Text × Task). is_of workspace e.1 ≡ true → P e.1) m
    → All P (filter (is_of workspace) (Map.values m))
All-listed P workspace [] h = tt
All-listed P workspace ((k, t) ∷ m) h = elim (Bool-cases (is_of workspace t)) [
  | inl mine ↦ rw (mine, All) (h.0 mine, All-listed P workspace m h.1)
  | inr other ↦ rw (other, All) (All-listed P workspace m h.1)
]

-- The answer to an attach that a summary promises.
abbrev pub Promised : Text → ℕ → TaskSet → TaskSummary → Type 0
Promised workspace retained tasks s =
    attach_task workspace s.task_id retained tasks
    ≡ ok (record { pid = s.pid; retained = retained; fate = s.fate })

attach_one :
    (workspace : Text) (retained : ℕ) (tasks : TaskSet) (t : Task)
    → TaskSet.get t.id tasks ≡ some t
    → is_of workspace t ≡ true
    → Promised workspace retained tasks (summary_of t)
unfolding attach_task summary_of
attach_one workspace retained tasks t found mine = rw (attach_task, found, mine) refl

All-summaries :
    (P : TaskSummary → Type 0) (ts : List Task)
    → All (λ (t : Task). P (summary_of t)) ts
    → All P (map summary_of ts)
All-summaries P [] h = tt
All-summaries P (t ∷ ts) h = (h.0, All-summaries P ts h.1)

-- When the tasks are sorted by identity, each under its own, every task that is listed for a workspace
-- can be attached to from it, and the answer tells of its process and its end what the listing told.
pub attach_task-list_tasks :
    (workspace : Text) (retained : ℕ) (tasks : TaskSet)
    → IsValid tasks
    → All (Promised workspace retained tasks) (list_tasks (some workspace) tasks)
unfolding list_tasks list TaskSet.get
attach_task-list_tasks workspace retained tasks v =
    All-summaries (Promised workspace retained tasks)
      (filter (is_of workspace) (Map.values tasks.tasks))
      (All-listed (λ t. Promised workspace retained tasks (summary_of t)) workspace tasks.tasks
        (All-zip _ _ _ tasks.tasks
          (λ e found named mine.
            attach_one workspace retained tasks e.1 (ap (λ k. Map.get k tasks.tasks) named ∙ found)
              mine)
          (get_of_entries tasks.tasks v.sorted) v.named))

abbrev pub over : Option Text → Option Text → Option Text
over none inherited = inherited
over (some v) inherited = some v

-- When the caller's variables are sorted by name, what `merge_over` gives for a name is the caller's
-- value where the caller has one, and the inherited value, or none, where not.
pub get-merge_over :
    (k : Text) (inherited overrides : Map Text Text)
    → Map.IsSorted overrides
    → Map.get k (merge_over inherited overrides) ≡ over (Map.get k overrides) (Map.get k inherited)
unfolding merge_over Map.get
get-merge_over k inherited [] s = refl
get-merge_over k inherited ((j, v) ∷ overrides) s =
    let ih = get-merge_over k (Map.insert j v inherited) overrides s.1 in
    elim (Bool-cases (Map.same k j)) [
      | inl here ↦
          let gone = get_of_Above k overrides (rw (same_eq k j here) s.0) in
          ih ∙ rw (gone, get-insert j k v inherited, here) refl
      | inr there ↦ ih ∙ rw (get-insert j k v inherited, there) refl
    ]
