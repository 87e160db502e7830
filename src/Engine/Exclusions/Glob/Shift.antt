-- ===== src/Engine/Exclusions/Glob/Shift.antt =====
-- Where going back to a star leads.
use project_apex.Prelude.{
  ℕ, ◌+◌, ◌≤◌, ◌<◌, ◌≡◌, refl, sym, ap, ◌∙◌, inl, inr, Bool, true, false, not, ◌&&◌, ◌||◌, [], ◌∷◌,
  ◌++◌, append_assoc, arith, ◌==◌, if◌then◌else◌, Bool-cases, length, length-append, All, Text,
}
use project_apex.Engine.Exclusions.Glob.{slash, star}
use project_apex.Engine.Exclusions.Glob.Reference.{skipping, matches_flat}

abbrev pub Without : ℕ → Text → Type 0
Without c = All (λ (d : ℕ). (d == c) ≡ false)

abbrev pub slashes : Text → ℕ
slashes [] = 0
slashes (c ∷ t) = (if c == slash then 1 else 0) + slashes t

slashes-append : (a b : Text) → slashes (a ++ b) ≡ slashes a + slashes b
slashes-append [] b = omega arith
slashes-append (c ∷ a) b = omega (arith, slashes-append a b)

-- What moving the mark by one character and more can still find.
unfoldable pub retried : Text → Text → Bool
retried s [] = false
retried s (d ∷ m) = not (d == slash) && skipping (matches_flat s) m

pub skipping-retried :
    (s m : Text) → skipping (matches_flat s) m ≡ (matches_flat s m || retried s m)
unfolding skipping retried
skipping-retried s [] = ground arith
skipping-retried s (d ∷ m) = ground arith

skipping-cut :
    (f : Text → Bool) (t : Text)
    → skipping f t ≡ true
    → (u v : Text) × (t ≡ u ++ v) × (slashes u ≡ 0) × (f v ≡ true)
unfolding skipping
skipping-cut f [] h = ([], [], refl, refl, h)
skipping-cut f (d ∷ t) h = elim (Bool-cases (f (d ∷ t))) [
  | inl here ↦ ([], d ∷ t, refl, refl, here)
  | inr later ↦
      let (u, v, e, n, found) = skipping-cut f t (ground (arith, h, later)) in
      (d ∷ u, v, ap (◌∷◌ d) e, ground (arith, h, later, n), found)
]

pub skipping-append :
    (f : Text → Bool) (u v : Text)
    → slashes u ≡ 0
    → skipping f v ≡ true
    → skipping f (u ++ v) ≡ true
unfolding skipping
skipping-append f [] v n h = h
skipping-append f (d ∷ u) v n h = ground (arith, n, skipping-append f u v)

-- Literal characters stand in the text as they stand in the pattern.
literal :
    (l q m : Text)
    → Without star l
    → matches_flat (l ++ q) m ≡ true
    → (v : Text) × (m ≡ l ++ v) × (matches_flat q v ≡ true)
unfolding matches_flat
literal [] q m w h = (m, refl, h)
literal (c ∷ l) q [] w h = absurd (ground (arith, h, w.0))
literal (c ∷ l) q (d ∷ m) w h =
    let (v, e, found) = literal l q m w.1 (ground (arith, h, w.0)) in
    let same : d ≡ c = ground (arith, h, w.0) in
    (v, ap (λ r. d ∷ r) e ∙ ap (λ k. k ∷ l ++ v) same, found)

tail_of : Text → Text
tail_of [] = []
tail_of (c ∷ t) = t

head_of : Text → ℕ
head_of [] = 0
head_of (c ∷ t) = c

append-split :
    (l t x v : Text)
    → l ++ t ≡ x ++ v
    → length l ≤ length x
    → (w : Text) × (t ≡ w ++ v) × (x ≡ l ++ w)
unfolding tail_of head_of
append-split [] t x v e h = (x, e, refl)
append-split (c ∷ l) t [] v e h = absurd (omega (arith, h))
append-split (c ∷ l) t (d ∷ x) v e h =
    let (w, et, ex) = append-split l t x v (ap tail_of e) (omega (arith, h)) in
    let same : d ≡ c = sym (ap head_of e) in (w, et, ap (λ r. d ∷ r) ex ∙ ap (λ k. k ∷ l ++ w) same)

Without-front : (c : ℕ) (l t : Text) → Without c (l ++ t) → Without c l
Without-front c [] t w = tt
Without-front c (d ∷ l) t w = (w.0, Without-front c l t w.1)

retried-cut :
    (s m : Text)
    → retried s m ≡ true
    → (u v : Text) × (m ≡ u ++ v) × (slashes u ≡ 0) × (0 < length u) × (matches_flat s v ≡ true)
unfolding retried
retried-cut s [] h = absurd (ground (arith, h))
retried-cut s (d ∷ m) h =
    let (u, v, e, n, found) = skipping-cut (matches_flat s) m (ground (arith, h)) in
    (d ∷ u, v, ap (◌∷◌ d) e, ground (arith, h, n), omega arith, found)

-- When the literal `l` was matched behind a star, and a later place for the star leads to a match,
-- the rest of the pattern matches behind some more characters that are no separators.
pub shift :
    (l p t : Text)
    → Without star (l ++ t)
    → retried (l ++ p) (l ++ t) ≡ true
    → (w v : Text) × (t ≡ w ++ v) × (slashes w ≡ 0) × (0 < length w) × (matches_flat p v ≡ true)
shift l p t w h =
    let (u, m, e, n, pos, found) = retried-cut (l ++ p) (l ++ t) h in
    let (v, em, matched) = literal l p m (Without-front star l t w) found in
    let whole : l ++ t ≡ (u ++ l) ++ v = e ∙ ap (λ r. u ++ r) em ∙ sym (append_assoc u l v) in
    let (x, et, ex) = append-split l t (u ++ l) v whole (omega (arith, length-append u l)) in
    (
      x,
      v,
      et,
      omega (arith, n, slashes-append u l, slashes-append l x, ap slashes ex),
      omega (arith, pos, length-append u l, length-append l x, ap length ex),
      matched,
    )
