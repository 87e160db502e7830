-- ===== src/Engine/TaskSet/Drain.antt =====
-- Draining one workspace takes its tasks, in order, and no other.
use project_apex.Prelude.{
  ◌≡◌, refl, ap, inl, inr, false, not, List, [], ◌∷◌, map, arith, Bool-cases, All, Text, filter,
}
use project_apex.Prelude.Order.{text_ord}
use project_apex.Prelude.Map
use project_apex.Prelude.Map.{Map}
use project_apex.Engine.TaskSet.{Task, TaskSet, is_of, remove_each, drain_for_workspace}

-- Every task stands under its own identity.
abbrev pub IsNamed : Map Text Task → Type 0
IsNamed m = All (λ (e : Text × Task). e.1.id ≡ e.0) m

pub record IsValid (set : TaskSet) : Type 0 where
  pub sorted : Map.IsSorted set.tasks
  pub named : IsNamed set.tasks

-- The entries of the other workspaces.
abbrev pub others : Text → Map Text Task → Map Text Task
others ws m = filter (λ (e : Text × Task). not (is_of ws e.1)) m

abbrev ids_of : Text → Map Text Task → List Text
ids_of ws m = map (λ (t : Task). t.id) (filter (is_of ws) (Map.values m))

-- A task whose identity is not among those that are removed stays in front.
remove_each-skip :
    (ids : List Text) (k : Text) (t : Task) (m : Map Text Task)
    → All (λ i. Map.same i k ≡ false) ids
    → remove_each ids ((k, t) ∷ m) ≡ ((k, t) ∷ (remove_each ids m).0, (remove_each ids m).1)
unfolding remove_each Map.remove Map.get
remove_each-skip [] k t m h = refl
remove_each-skip (i ∷ ids) k t m h =
    ground (arith, h.0, remove_each-skip ids k t (Map.remove i m) h.1)

-- The identities of the tasks of a sorted map lie above what the map lies above.
ids-Above :
    (ws k : Text) (m : Map Text Task)
    → Map.Above k m
    → IsNamed m
    → All (λ i. Map.same i k ≡ false) (ids_of ws m)
ids-Above ws k [] a n = tt
ids-Above ws k ((j, t) ∷ m) a n = elim (Bool-cases (is_of ws t)) [
  | inl mine ↦ rw (mine, All) (rw n.0 (Map.same_of_lt k j a.0).1, ids-Above ws k m a.1 n.1)
  | inr other ↦ rw (other, All) (ids-Above ws k m a.1 n.1)
]

-- The first task of the map goes with its identity.
remove_each-head :
    (ids : List Text) (k : Text) (t : Task) (m : Map Text Task)
    → Map.Above k m
    → remove_each (k ∷ ids) ((k, t) ∷ m) ≡ ((remove_each ids m).0, t ∷ (remove_each ids m).1)
unfolding remove_each Map.get Map.remove
remove_each-head ids k t m a = ground (arith, Map.same_refl k, Map.remove_of_Above k m a)

remove_each-ids :
    (ws : Text) (m : Map Text Task)
    → Map.IsSorted m
    → IsNamed m
    → remove_each (ids_of ws m) m ≡ (others ws m, filter (is_of ws) (Map.values m))
remove_each-ids ws [] s n = unfold remove_each in refl
remove_each-ids ws ((k, t) ∷ m) s n = elim (Bool-cases (is_of ws t)) [
  | inl mine ↦
      let first = remove_each-head (ids_of ws m) k t m s.0 in
      let ih = remove_each-ids ws m s.1 n.1 in ground (arith, n.0)
  | inr other ↦
      let skip = remove_each-skip (ids_of ws m) k t m (ids-Above ws k m s.0 n.1) in
      let ih = remove_each-ids ws m s.1 n.1 in ground arith
]

-- When the tasks are sorted by identity, each under its own, draining a workspace returns its
-- tasks in the order of their identities, each once, and keeps every task of the other workspaces.
pub drain_for_workspace-filter :
    (ws : Text) (set : TaskSet)
    → IsValid set
    → drain_for_workspace ws set
      ≡ (record { tasks = others ws set.tasks }, filter (is_of ws) (Map.values set.tasks))
unfolding drain_for_workspace
drain_for_workspace-filter ws set v =
    ap (λ r. (record { tasks = r.0 }, r.1)) (remove_each-ids ws set.tasks v.sorted v.named)

others-others : (ws : Text) (m : Map Text Task) → others ws (others ws m) ≡ others ws m
others-others ws [] = refl
others-others ws (e ∷ m) = ground (arith, others-others ws m)

pub none_of_others :
    (ws : Text) (m : Map Text Task) → filter (is_of ws) (Map.values (others ws m)) ≡ []
none_of_others ws [] = refl
none_of_others ws (e ∷ m) = ground (arith, none_of_others ws m)

others-Above : (ws k : Text) (m : Map Text Task) → Map.Above k m → Map.Above k (others ws m)
others-Above ws k [] a = tt
others-Above ws k (e ∷ m) a = ground (arith, others-Above ws k m a.1)

others-IsSorted : (ws : Text) (m : Map Text Task) → Map.IsSorted m → Map.IsSorted (others ws m)
others-IsSorted ws [] s = tt
others-IsSorted ws (e ∷ m) s = ground (arith, others-IsSorted ws m s.1, others-Above ws e.0 m s.0)

others-IsNamed : (ws : Text) (m : Map Text Task) → IsNamed m → IsNamed (others ws m)
others-IsNamed ws [] n = tt
others-IsNamed ws (e ∷ m) n = ground (arith, others-IsNamed ws m n.1)

-- Draining a workspace keeps the invariant.
pub drain_for_workspace-IsValid :
    (ws : Text) (set : TaskSet) → IsValid set → IsValid (drain_for_workspace ws set).0
drain_for_workspace-IsValid ws set v = rw (drain_for_workspace-filter ws set v) (record {
  sorted = others-IsSorted ws set.tasks v.sorted;
  named = others-IsNamed ws set.tasks v.named;
})

-- When the tasks are sorted by identity, each under its own, draining a workspace a second time
-- takes nothing and changes nothing.
pub drain_twice :
    (ws : Text) (set : TaskSet)
    → IsValid set
    → drain_for_workspace ws (drain_for_workspace ws set).0 ≡ ((drain_for_workspace ws set).0, [])
drain_twice ws set v =
    let first = drain_for_workspace-filter ws set v in
    let again = drain_for_workspace-filter ws _ (drain_for_workspace-IsValid ws set v) in
    ground (arith, others-others ws set.tasks, none_of_others ws set.tasks)
