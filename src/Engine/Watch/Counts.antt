-- ===== src/Engine/Watch/Counts.antt =====
-- A `WatchSet` is a counter for each directory, as far as a caller can tell.
use project_apex.Prelude.{
  ℕ, ◌+◌, ◌-◌, ◌≡◌, refl, ap, ◌∙◌, Bool, true, false, Option, none, some, List, [], ◌∷◌, arith,
  ◌==◌, if◌then◌else◌, Text,
}
use project_apex.Prelude.Map
use mathlib.Core.Path.{fun_ext, ap}
use project_apex.Engine.Watch.Invariant.{IsValid, acquire-IsValid, release-IsValid}
use project_apex.Engine.Watch.{
  WatchSet, acquire, release, Bool, Option, Text, Watch, false, true, List, ◌∷◌,
}
use project_apex.Prelude.Order.{text_ord}

-- How many reasons there are for a directory.
abbrev count : Option Watch → ℕ
count none = 0
count (some w) = w.reasons

unfoldable pub reasons : WatchSet → Text → ℕ
reasons set directory = count (Map.get directory set.watches)

-- One request of a caller, and what it is told: whether the host must now make or drop a watch.
pub data Op : Type 0 where
  acquired : Text → Op
  released : Text → Op

unfoldable pub step : Op → WatchSet → WatchSet × Bool
step (acquired d) set = let (set', (id, fresh)) = acquire d set in (set', fresh)
step (released d) set =
    let (set', dropped) = release d set in (set', elim dropped [ none ↦ false | some _ ↦ true ])

-- The same over a plain counter.
unfoldable pub step_count : Op → (Text → ℕ) → (Text → ℕ) × Bool
step_count (acquired d) c = (λ j. if Map.same j d then c d + 1 else c j, c d == 0)
step_count (released d) c = (λ j. if Map.same j d then c d - 1 else c j, c d == 1)

reasons-acquire :
    (d j : Text) (set : WatchSet)
    → reasons (acquire d set).0 j ≡ (if Map.same j d then reasons set d + 1 else reasons set j)
unfolding reasons acquire
reasons-acquire d j set = grind (arith, λ (w : Watch). Map.get-insert d j w set.watches)

reasons-release :
    (d j : Text) (set : WatchSet)
    → IsValid set
    → reasons (release d set).0 j ≡ (if Map.same j d then reasons set d - 1 else reasons set j)
unfolding reasons release
reasons-release d j set v = grind (
  arith,
  λ (w : Watch). Map.get-insert d j w set.watches,
  Map.get-remove d j set.watches,
  v.held d,
  Map.same_eq j d,
)

told_acquire :
    (d : Text) (set : WatchSet) → IsValid set → (acquire d set).1.1 ≡ (reasons set d == 0)
unfolding reasons acquire
told_acquire d set v = grind (arith, v.held d)

told_release :
    (d : Text) (set : WatchSet) → IsValid set → (step (released d) set).1 ≡ (reasons set d == 1)
unfolding step reasons release
told_release d set v = grind (arith, v.held d)

-- After any request the counts are those of the plain counter, and so is the reply: the host is
-- asked for a watch exactly when there was no reason for it, and loses it exactly when the last
-- reason goes.
step-refines :
    (op : Op) (set : WatchSet)
    → IsValid set
    → (reasons (step op set).0 ≡ (step_count op (reasons set)).0)
      × ((step op set).1 ≡ (step_count op (reasons set)).1)
unfolding step step_count
step-refines (acquired d) set v = (fun_ext λ j. reasons-acquire d j set, told_acquire d set v)
step-refines (released d) set v = (fun_ext λ j. reasons-release d j set v, told_release d set v)

pub step-IsValid : (op : Op) (set : WatchSet) → IsValid set → IsValid (step op set).0
unfolding step
step-IsValid (acquired d) set v = acquire-IsValid d set v
step-IsValid (released d) set v = release-IsValid d set v

-- A sequence of requests, and the replies to them.
unfoldable pub run : List Op → WatchSet → WatchSet × List Bool
run [] set = (set, [])
run (op ∷ ops) set =
    let (set', told) = step op set in let (last, rest) = run ops set' in (last, told ∷ rest)

unfoldable pub run_count : List Op → (Text → ℕ) → (Text → ℕ) × List Bool
run_count [] c = (c, [])
run_count (op ∷ ops) c =
    let (c', told) = step_count op c in let (last, rest) = run_count ops c' in (last, told ∷ rest)

-- Any sequence of requests on a set that keeps the invariant is answered as a counter for each
-- directory would answer it, and leaves the counts of that counter.
pub run-refines :
    (ops : List Op) (set : WatchSet)
    → IsValid set
    → (reasons (run ops set).0 ≡ (run_count ops (reasons set)).0)
      × ((run ops set).1 ≡ (run_count ops (reasons set)).1)
unfolding run run_count
run-refines [] set v = (refl, refl)
run-refines (op ∷ ops) set v =
    let (counts, told) = step-refines op set v in
    let (ih_counts, ih_told) = run-refines ops (step op set).0 (step-IsValid op set v) in
    (ih_counts ∙ ap (λ c. (run_count ops c).0) counts, cc (told, ih_told, counts))

-- Any sequence of requests keeps the invariant: in particular two directories never share an id.
pub run-IsValid : (ops : List Op) (set : WatchSet) → IsValid set → IsValid (run ops set).0
unfolding run
run-IsValid [] set v = v
run-IsValid (op ∷ ops) set v = run-IsValid ops (step op set).0 (step-IsValid op set v)
