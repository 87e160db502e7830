-- ===== src/Engine/GitPager/Service/Frame.antt =====
-- As many recently changed paths as one frame holds.
use project_apex.Prelude.{
  ℕ, ◌+◌, ◌≤◌, ◌<◌, ◌≡◌, refl, inl, inr, Option, List, [], ◌∷◌, ◌++◌, arith, leb, Bool-cases, Text,
}
use project_apex.Engine.GitPager.Service.{budget, cost, take_fitting, within_one_frame}

abbrev pub costs : (Text → Option ℕ) → List Text → ℕ
costs encoded [] = 0
costs encoded (p ∷ paths) = cost (encoded p) + costs encoded paths

-- The first path behind those taken.
abbrev pub head_cost : (Text → Option ℕ) → List Text → ℕ
head_cost encoded [] = budget + 1
head_cost encoded (p ∷ paths) = cost (encoded p)

take_fitting-costs :
    (encoded : Text → Option ℕ) (used : ℕ) (paths : List Text)
    → used ≤ budget
    → (left : List Text) × (take_fitting encoded used paths ++ left ≡ paths)
      × (used + costs encoded (take_fitting encoded used paths) ≤ budget)
      × (budget < used + costs encoded (take_fitting encoded used paths) + head_cost encoded left)
unfolding take_fitting
take_fitting-costs encoded used [] h = ([], refl, omega arith, omega arith)
take_fitting-costs encoded used (p ∷ paths) h =
    elim (Bool-cases (leb (used + cost (encoded p)) budget)) [
      | inl fits ↦
          let (left, whole, le, more) =
            take_fitting-costs encoded (used + cost (encoded p)) paths (ground (arith, fits)) in
          (left, rw (fits, whole) refl, rw fits (omega (arith, le)), rw fits (omega (arith, more)))
      | inr full ↦
          (p ∷ paths, rw full refl, rw full (omega (arith, h)), rw full (ground (arith, full)))
    ]

-- What is kept is a beginning of the paths. It takes no more than the budget of one frame, and with
-- the next path, if there is one, it would take more.
pub within_one_frame-costs :
    (encoded : Text → Option ℕ) (paths : List Text)
    → (left : List Text) × (within_one_frame encoded paths ++ left ≡ paths)
      × (costs encoded (within_one_frame encoded paths) ≤ budget)
      × (budget < costs encoded (within_one_frame encoded paths) + head_cost encoded left)
unfolding within_one_frame
within_one_frame-costs encoded paths =
    let (left, whole, le, more) = take_fitting-costs encoded 0 paths (omega arith) in
    (left, whole, omega (arith, le), omega (arith, more))
