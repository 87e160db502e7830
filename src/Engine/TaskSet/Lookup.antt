-- ===== src/Engine/TaskSet/Lookup.antt =====
-- Starting, releasing and looking up single tasks.
use project_apex.Prelude.{◌≡◌, refl, ◌⊎◌, true, false, some, [], ◌∷◌, arith, if◌then◌else◌, Text}
use project_apex.Prelude.Order.{text_ord}
use project_apex.Prelude.Map
use project_apex.Prelude.Map.{Map}
use project_apex.Engine.TaskSet.{
  Task, TaskSet, get, start, release, ok, refused, already_running, contains,
}
use project_apex.Engine.TaskSet.Drain.{IsValid, IsNamed}

-- What `start` does, by whether the identity is live: a live identity is refused and nothing
-- changes; otherwise the task is found under its identity, and every other task is as before.
pub get-start :
    (task : Task) (set : TaskSet) (j : Text)
    → ((contains task.id set ≡ true) × (start task set ≡ (set, refused already_running)))
      ⊎ ((contains task.id set ≡ false)
          × ((start task set).1 ≡ ok)
          × (get j (start task set).0 ≡ (if Map.same j task.id then some task else get j set)))
unfolding start contains get
get-start task set j = ground (arith, Map.get-insert task.id j task set.tasks)

-- When the tasks are sorted by identity, each under its own, a task whose identity is not live and
-- that is started and released leaves the set as it was, and the release returns it.
pub release-start :
    (task : Task) (set : TaskSet)
    → IsValid set
    → contains task.id set ≡ false
    → release task.id (start task set).0 ≡ (set, some task)
unfolding release start contains
release-start task set v h = ground (
  arith,
  Map.get-insert task.id task.id task set.tasks,
  Map.remove-insert task.id task set.tasks v.sorted,
  Map.same_refl task.id,
)

insert-IsNamed : (t : Task) (m : Map Text Task) → IsNamed m → IsNamed (Map.insert t.id t m)
unfolding Map.insert
insert-IsNamed t [] n = (refl, tt)
insert-IsNamed t (e ∷ m) n = ground (arith, insert-IsNamed t m n.1)

remove-IsNamed : (k : Text) (m : Map Text Task) → IsNamed m → IsNamed (Map.remove k m)
unfolding Map.remove
remove-IsNamed k [] n = tt
remove-IsNamed k (e ∷ m) n = ground (arith, remove-IsNamed k m n.1)

-- `start` and `release` keep the invariant.
pub start-IsValid : (task : Task) (set : TaskSet) → IsValid set → IsValid (start task set).0
unfolding start
start-IsValid task set v = ground (
  arith,
  Map.insert-IsSorted task.id task set.tasks v.sorted,
  insert-IsNamed task set.tasks v.named,
)

pub release-IsValid : (id : Text) (set : TaskSet) → IsValid set → IsValid (release id set).0
unfolding release
release-IsValid id set v = record {
  sorted = Map.remove-IsSorted id set.tasks v.sorted;
  named = remove-IsNamed id set.tasks v.named;
}
