-- ===== src/Engine/Output/Split.antt =====
-- The loop that cuts whole chunks off a partial.
use project_apex.Prelude.{
  ℕ, zero, suc, ◌≤◌, ◌<◌, ◌≡◌, refl, List, [], ◌∷◌, ◌++◌, append_assoc, arith, length, All, take,
  drop, length-drop, length-take, take-append-drop,
}
use project_apex.Engine.Output.{split_full}

abbrev pub concat : List (List ℕ) → List ℕ
concat [] = []
concat (b ∷ bs) = b ++ concat bs

-- Nothing is lost or moved by the cut.
pub split_full-concat :
    (size fuel : ℕ) (bytes : List ℕ)
    → concat (split_full size fuel bytes).0 ++ (split_full size fuel bytes).1 ≡ bytes
unfolding split_full
split_full-concat size zero bytes = refl
split_full-concat size (suc fuel) bytes = ground (
  arith,
  split_full-concat size fuel (drop size bytes),
  append_assoc (take size bytes) (concat (split_full size fuel (drop size bytes)).0)
      (split_full size fuel (drop size bytes)).1,
  take-append-drop size bytes,
)

-- Every chunk that is cut has the full size.
pub split_full-sizes :
    (size fuel : ℕ) (bytes : List ℕ) → All (λ b. length b ≡ size) (split_full size fuel bytes).0
unfolding split_full
split_full-sizes size zero bytes = tt
split_full-sizes size (suc fuel) bytes =
    ground (arith, split_full-sizes size fuel (drop size bytes), length-take size bytes)

-- With as much fuel as there are bytes the remainder is shorter than a chunk.
pub split_full-rest :
    (size fuel : ℕ) (bytes : List ℕ)
    → 0 < size
    → length bytes ≤ fuel
    → length (split_full size fuel bytes).1 < size
unfolding split_full
split_full-rest size zero bytes p h = omega arith
split_full-rest size (suc fuel) bytes p h =
    ground (arith, split_full-rest size fuel (drop size bytes) p, length-drop size bytes)

-- Fewer bytes than a chunk are left as they are.
pub split_full-short :
    (size fuel : ℕ) (bytes : List ℕ)
    → length bytes < size
    → split_full size fuel bytes ≡ ([], bytes)
unfolding split_full
split_full-short size zero bytes h = refl
split_full-short size (suc fuel) bytes h = ground arith
