-- ===== src/Prelude/Kept.antt =====
-- What is left of a map when the entries that pass a test are gone.
use Prim.Native.Nat.{ℕ, ◌<◌}
use project_apex.Prelude.Order.{Ord}
use mathlib.Core.Path.{◌≡◌}
use mathlib.Core.Bool.{Bool, false, not}
use mathlib.Core.List.{[], ◌∷◌, map}
use mathlib.Core.Logic.{inl, inr}
use project_apex.Prelude.Tests.{Bool-cases}
use project_apex.Prelude.Lists.{All, filter}
use project_apex.Prelude.Map.{Map, Above, IsSorted, values}

module _ {ℓ κ} {K : Type ℓ} {V : Type κ} ⦃o : Ord K⦄ (p : K × V → Bool) where
  Above-filter : (k : K) (m : Map K V) → Above k m → Above k (filter p m)
  Above-filter k [] a = tt
  Above-filter k (e ∷ m) a = elim (Bool-cases (p e)) [
    | inl kept ↦ rw (kept, All) (a.0, Above-filter k m a.1)
    | inr gone ↦ rw (gone, All) (Above-filter k m a.1)
  ]

  pub filter-IsSorted : (m : Map K V) → IsSorted m → IsSorted (filter p m)
  filter-IsSorted [] s = tt
  filter-IsSorted (e ∷ m) s = elim (Bool-cases (p e)) [
    | inl kept ↦ rw (kept, IsSorted) (Above-filter e.0 m s.0, filter-IsSorted m s.1)
    | inr gone ↦ rw (gone, IsSorted) (filter-IsSorted m s.1)
  ]

  -- What holds of every entry that fails the test holds of the values that are left.
  pub All-values-filter :
      (f : V → ℕ) (now : ℕ)
      → ((e : K × V) → p e ≡ false → now < f e.1)
      → (m : Map K V) → All (λ t. now < t) (map f (values (filter (λ e. not (p e)) m)))
  All-values-filter f now late [] = tt
  All-values-filter f now late (e ∷ m) = elim (Bool-cases (p e)) [
    | inl gone ↦ rw (gone, All) (All-values-filter f now late m)
    | inr kept ↦ rw (kept, All) (late e kept, All-values-filter f now late m)
  ]
