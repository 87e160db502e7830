-- ===== src/Engine/Exclusions/Glob/Agrees.antt =====
-- `glob_flat`, which goes back to the last star only, finds what a search over all stars finds.
use project_apex.Prelude.{
  ℕ, zero, suc, ◌+◌, ◌<◌, ◌≡◌, refl, sym, ap, ◌∙◌, inl, inr, Bool, true, false, ◌||◌, none, some,
  [], ◌∷◌, ◌++◌, append_assoc, arith, ◌==◌, Bool-cases, length, length-append, Text,
}
use mathlib.Core.Path.{subst}
use project_apex.Engine.Exclusions.Glob.{
  slash, star, question, only_stars, Saved, State, Turn, answer, again, retry, turn, loop, enough,
  glob_flat, or_false,
}
use project_apex.Engine.Exclusions.Glob.Reference.{skipping, matches_flat}
use project_apex.Engine.Exclusions.Glob.Ends.{loop-ends}
use project_apex.Engine.Exclusions.Glob.Shift.{
  Without, retried, skipping-retried, shift, skipping-append, slashes,
}

abbrev meaning : State → Bool
meaning (p, t, none) = matches_flat p t
meaning (p, t, some sm) = matches_flat p t || retried sm.0 sm.1

-- What was matched since the saved star stands at the front of both texts.
abbrev IsBehind : Text → Text → Saved → Type 0
IsBehind p t none = Unit
IsBehind p t (some sm) =
    Without question sm.0 × Without star sm.1 × ((l : Text) × (sm.0 ≡ l ++ p) × (sm.1 ≡ l ++ t))

abbrev IsGood : State → Type 0
IsGood (p, t, saved) = Without question p × Without star t × IsBehind p t saved

abbrev Means : Turn → Bool → Type 0
Means (answer b) x = b ≡ x
Means (again s) x = IsGood s × (meaning s ≡ x)

retry-Means :
    (p t : Text) (saved : Saved)
    → IsGood (p, t, saved)
    → matches_flat p t ≡ false
    → Means (retry saved) (meaning (p, t, saved))
unfolding retry retried
retry-Means p t none g f = sym f
retry-Means p t (some (s, [])) g f = rw f refl
retry-Means p t (some (s, e ∷ m)) g f = elim (Bool-cases (e == slash)) [
  | inl stop ↦ rw (stop, f, retry, retried) refl
  | inr on ↦
      rw (on, f, retry, retried)
        ((g.2.0, g.2.1.1, (g.2.0, g.2.1.1, ([], refl, refl))), sym (skipping-retried s m))
]

match-IsBehind :
    (c : ℕ) (p t : Text) (saved : Saved) → IsBehind (c ∷ p) (c ∷ t) saved → IsBehind p t saved
match-IsBehind c p t none h = tt
match-IsBehind c p t (some sm) (q, w, (l, hs, hm)) = (
  q,
  w,
  (l ++ c ∷ [], hs ∙ sym (append_assoc l (c ∷ []) p), hm ∙ sym (append_assoc l (c ∷ []) t)),
)

match-meaning :
    (c : ℕ) (p t : Text) (saved : Saved)
    → (c == star) ≡ false
    → meaning (p, t, saved) ≡ meaning (c ∷ p, c ∷ t, saved)
unfolding matches_flat
match-meaning c p t none h = ground (arith, h)
match-meaning c p t (some sm) h = ground (arith, h)

going_back :
    (p t : Text) (sm : Text × Text)
    → IsBehind p t (some sm)
    → retried sm.0 sm.1 ≡ true
    → (w v : Text) × (t ≡ w ++ v) × (slashes w ≡ 0) × (0 < length w) × (matches_flat p v ≡ true)
going_back p t (s, m) (q, w, (l, hs, hm)) h = shift l p t (rw (sym hm) w) (rw (sym hs, sym hm) h)

matches_flat-star :
    (c : ℕ) (p t : Text) → (c == star) ≡ true → matches_flat (c ∷ p) t ≡ skipping (matches_flat p) t
unfolding matches_flat
matches_flat-star c p [] h = ground (arith, h)
matches_flat-star c p (d ∷ t) h = ground (arith, h)

or_absorb : (a b : Bool) → (b ≡ true → a ≡ true) → a ≡ (a || b)
or_absorb true b h = refl
or_absorb false true h = h refl
or_absorb false false h = refl

absorbed :
    (c : ℕ) (p t : Text) (sm : Text × Text)
    → (c == star) ≡ true
    → IsBehind (c ∷ p) t (some sm)
    → retried sm.0 sm.1 ≡ true
    → matches_flat (c ∷ p) t ≡ true
absorbed c p t sm h g back =
    let (w, v, e, n, pos, found) = going_back (c ∷ p) t sm g back in
    matches_flat-star c p t h
    ∙ ap (skipping (matches_flat p)) e
    ∙ skipping-append (matches_flat p) w v n (sym (matches_flat-star c p v h) ∙ found)

-- A second star finds whatever going back to the first could find.
star-meaning :
    (c d : ℕ) (p t : Text) (saved : Saved)
    → (c == star) ≡ true
    → IsGood (c ∷ p, d ∷ t, saved)
    → meaning (p, d ∷ t, some (p, d ∷ t)) ≡ meaning (c ∷ p, d ∷ t, saved)
star-meaning c d p t none h g =
    sym (skipping-retried p (d ∷ t)) ∙ sym (matches_flat-star c p (d ∷ t) h)
star-meaning c d p t (some sm) h g =
    sym (skipping-retried p (d ∷ t))
    ∙ sym (matches_flat-star c p (d ∷ t) h)
    ∙ or_absorb (matches_flat (c ∷ p) (d ∷ t)) (retried sm.0 sm.1) (absorbed c p (d ∷ t) sm h g.2)

match-Means :
    (c d : ℕ) (p t : Text) (saved : Saved)
    → (c == d) ≡ true
    → IsGood (c ∷ p, d ∷ t, saved)
    → Means (again (p, t, saved)) (meaning (c ∷ p, d ∷ t, saved))
match-Means c d p t saved one g =
    let same : d ≡ c = ground (arith, one) in
    let behind : IsBehind (c ∷ p) (c ∷ t) saved =
      subst (λ k. IsBehind (c ∷ p) (k ∷ t) saved) same g.2 in
    (
      (g.0.1, g.1.1, match-IsBehind c p t saved behind),
      match-meaning c p t saved (ground (arith, one, g.1.0))
          ∙ ap (λ k. meaning (c ∷ p, k ∷ t, saved)) (sym same),
    )

turn-Means :
    (p t : Text) (d : ℕ) (saved : Saved)
    → IsGood (p, d ∷ t, saved)
    → Means (turn p d t saved) (meaning (p, d ∷ t, saved))
unfolding turn
turn-Means [] t d saved g = retry-Means [] (d ∷ t) saved g (unfold matches_flat in refl)
turn-Means (c ∷ p) t d saved g = elim (Bool-cases (c == d)) [
  | inl one ↦ rw (g.0.0, one, turn) (match-Means c d p t saved one g)
  | inr other ↦ elim (Bool-cases (c == star)) [
    | inl starred ↦
        rw (g.0.0, other, starred, turn)
          ((g.0.1, g.1, (g.0.1, g.1, ([], refl, refl))), star-meaning c d p t saved starred g)
    | inr neither ↦
        rw (g.0.0, other, neither, turn)
          (retry-Means (c ∷ p) (d ∷ t) saved g
            (unfold matches_flat in ground (arith, other, neither)))
  ]
]

after_turn :
    (r : Turn) (x b : Bool) (fuel : ℕ)
    → Means r x
    → ((s : State) → IsGood s → loop fuel s ≡ some b → b ≡ meaning s)
    → elim r [ answer a ↦ some a | again s ↦ loop fuel s ] ≡ some b
    → b ≡ x
after_turn (answer a) x b fuel m f h = ground (arith, m, h)
after_turn (again s) x b fuel m f h = f s m.0 h ∙ m.1

only_stars-matches_flat : (p : Text) → only_stars p ≡ matches_flat p []
unfolding only_stars matches_flat skipping
only_stars-matches_flat [] = refl
only_stars-matches_flat (c ∷ p) = ground (arith, only_stars-matches_flat p)

-- At the end of the text nothing is found by going back.
end-meaning :
    (p : Text) (saved : Saved) → IsGood (p, [], saved) → matches_flat p [] ≡ meaning (p, [], saved)
end-meaning p none g = refl
end-meaning p (some sm) g = or_absorb (matches_flat p []) (retried sm.0 sm.1) (λ back.
    let (w, v, e, n, pos, found) = going_back p [] sm g.2 back in
    absurd (omega (arith, ap length e, length-append w v, pos)))

loop-meaning : (fuel : ℕ) (s : State) (b : Bool) → IsGood s → loop fuel s ≡ some b → b ≡ meaning s
unfolding loop
loop-meaning zero s b g h = absurd (ground (arith, h))
loop-meaning (suc fuel) (p, [], saved) b g h =
    ground (arith, h) ∙ only_stars-matches_flat p ∙ end-meaning p saved g
loop-meaning (suc fuel) (p, d ∷ t, saved) b g h =
    after_turn (turn p d t saved) (meaning (p, d ∷ t, saved)) b fuel (turn-Means p t d saved g)
      (λ s. loop-meaning fuel s b) h

-- For a pattern without a question mark and a text without a star, `glob_flat` answers what the
-- search over all places of all stars answers.
pub glob_flat-matches_flat :
    (p t : Text) → Without question p → Without star t → glob_flat p t ≡ matches_flat p t
unfolding glob_flat
glob_flat-matches_flat p t q w =
    let (b, ends) = loop-ends p t 0 in
    let same : enough p t + 0 ≡ enough p t = omega arith in
    let found : loop (enough p t) (p, t, none) ≡ some b =
      ap (λ n. loop n (p, t, none)) (sym same) ∙ ends in
    ap or_false found ∙ loop-meaning (enough p t) (p, t, none) b (q, w, tt) found
