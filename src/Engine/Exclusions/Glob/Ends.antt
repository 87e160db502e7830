-- ===== src/Engine/Exclusions/Glob/Ends.antt =====
-- The loop of `glob_flat` ends: enough fuel is given for every pattern and text.
use project_apex.Prelude.{
  ℕ, zero, suc, ◌+◌, ◌*◌, ◌≤◌, ◌<◌, ◌≡◌, refl, inl, inr, Bool, ◌||◌, none, some, [], ◌∷◌, arith,
  ◌==◌, Bool-cases, length, Text,
}
use project_apex.Engine.Exclusions.Glob.{
  star, question, only_stars, Saved, State, Turn, answer, again, retry, turn, loop, enough,
}

-- How far the mark can still go, in a text of `size`.
abbrev marks : ℕ → Saved → ℕ
marks size none = size + 1
marks size (some sm) = length sm.1

-- What is left to do, where a mark counts as `whole`.
abbrev weight : ℕ → ℕ → State → ℕ
weight whole size (p, t, saved) = marks size saved * whole + length p + length t

abbrev IsSaved : ℕ → ℕ → Text → Saved → Type 0
IsSaved plen size t none = Unit
IsSaved plen size t (some sm) =
    (length sm.0 ≤ plen) × (length sm.1 ≤ size) × (length t ≤ length sm.1)

abbrev IsWithin : ℕ → ℕ → State → Type 0
IsWithin plen size (p, t, saved) = (length p ≤ plen) × (length t ≤ size) × IsSaved plen size t saved

abbrev IsLess : ℕ → ℕ → ℕ → Turn → Type 0
IsLess plen size n (answer b) = Unit
IsLess plen size n (again s) = IsWithin plen size s × (weight (plen + size + 1) size s < n)

mul_suc : (a b : ℕ) → suc a * b ≡ a * b + b
mul_suc a b = omega arith

mul_le : (a b c : ℕ) → a ≤ b → a * c ≤ b * c
mul_le zero b c h = omega arith
mul_le (suc a) zero c h = absurd (omega (arith, h))
mul_le (suc a) (suc b) c h =
    omega (arith, mul_le a b c (omega (arith, h)), mul_suc a c, mul_suc b c)

retry-IsLess :
    (plen size : ℕ) (p t : Text) (d : ℕ) (saved : Saved)
    → IsWithin plen size (p, d ∷ t, saved)
    → IsLess plen size (weight (plen + size + 1) size (p, d ∷ t, saved)) (retry saved)
unfolding retry
retry-IsLess plen size p t d none h = tt
retry-IsLess plen size p t d (some (s, [])) h = tt
retry-IsLess plen size p t d (some (s, e ∷ m)) h =
    ground (arith, h.2, mul_suc (length m) (plen + size + 1))

shorter :
    (plen size d : ℕ) (t : Text) (saved : Saved)
    → IsSaved plen size (d ∷ t) saved
    → IsSaved plen size t saved
shorter plen size d t none h = tt
shorter plen size d t (some sm) h = (h.0, h.1, omega (arith, h.2))

marks_le :
    (plen size : ℕ) (t : Text) (saved : Saved)
    → IsSaved plen size t saved
    → length t ≤ size
    → length t ≤ marks size saved
marks_le plen size t none h l = omega (arith, l)
marks_le plen size t (some sm) h l = h.2

star_less :
    (plen size c : ℕ) (p t : Text) (saved : Saved)
    → IsSaved plen size t saved
    → length t ≤ size
    → weight (plen + size + 1) size (p, t, some (p, t))
      < weight (plen + size + 1) size (c ∷ p, t, saved)
star_less plen size c p t saved h l =
    omega (
      arith,
      mul_le (length t) (marks size saved) (plen + size + 1) (marks_le plen size t saved h l),
    )

turn-IsLess :
    (plen size : ℕ) (p t : Text) (d : ℕ) (saved : Saved)
    → IsWithin plen size (p, d ∷ t, saved)
    → IsLess plen size (weight (plen + size + 1) size (p, d ∷ t, saved)) (turn p d t saved)
unfolding turn
turn-IsLess plen size [] t d saved h = retry-IsLess plen size [] t d saved h
turn-IsLess plen size (c ∷ p) t d saved h = elim (Bool-cases ((c == question) || (c == d))) [
  | inl one ↦
      rw (one, turn)
        ((omega (arith, h.0), omega (arith, h.1), shorter plen size d t saved h.2), omega arith)
  | inr other ↦ elim (Bool-cases (c == star)) [
    | inl starred ↦
        rw (other, starred, turn)
          (
            (omega (arith, h.0), h.1, (omega (arith, h.0), h.1, omega arith)),
            star_less plen size c p (d ∷ t) saved h.2 h.1,
          )
    | inr neither ↦ rw (other, neither, turn) (retry-IsLess plen size (c ∷ p) t d saved h)
  ]
]

after_turn :
    (plen size n fuel : ℕ) (r : Turn)
    → IsLess plen size n r
    → ((s : State)
        → IsWithin plen size s
        → weight (plen + size + 1) size s < n
        → (b : Bool) × (loop fuel s ≡ some b))
    → (b : Bool) × (elim r [ answer a ↦ some a | again s ↦ loop fuel s ] ≡ some b)
after_turn plen size n fuel (answer a) h f = (a, refl)
after_turn plen size n fuel (again s) h f = f s h.0 h.1

loop-some :
    (plen size fuel : ℕ) (s : State)
    → IsWithin plen size s
    → weight (plen + size + 1) size s < fuel
    → (b : Bool) × (loop fuel s ≡ some b)
unfolding loop
loop-some plen size zero s h w = absurd (omega (arith, w))
loop-some plen size (suc fuel) (p, [], saved) h w = (only_stars p, refl)
loop-some plen size (suc fuel) (p, d ∷ t, saved) h w =
    after_turn plen size (weight (plen + size + 1) size (p, d ∷ t, saved)) fuel (turn p d t saved)
      (turn-IsLess plen size p t d saved h)
      (λ s within less. loop-some plen size fuel s within (omega (arith, less, w)))

-- For every pattern and every text, and for any more fuel, the loop of `glob_flat` comes to an
-- answer.
pub loop-ends :
    (p t : Text) (more : ℕ) → (b : Bool) × (loop (enough p t + more) (p, t, none) ≡ some b)
loop-ends p t more =
    loop-some (length p) (length t) (enough p t + more) (p, t, none) (omega arith, omega arith, tt)
      (omega (arith, mul_suc (length t + 1) (length p + length t + 1)))
