-- ===== src/Protocol/Framing/Search.antt =====
-- Where the separator stands, as more bytes arrive.
use project_apex.Prelude.{
  ℕ, ◌+◌, ◌≤◌, ◌<◌, ◌≡◌, ◌≢◌, refl, none, some, [], ◌∷◌, ◌++◌, All, Text, arith, length,
  Option-cases, inl, inr,
}
use project_apex.Prelude.Utf8.{strip_prefix}
use project_apex.Protocol.Framing.{find, separator}

strip_prefix-more :
    (p s t : Text) {rest : Text}
    → strip_prefix p s ≡ some rest
    → strip_prefix p (s ++ t) ≡ some (rest ++ t)
unfolding strip_prefix
strip_prefix-more [] s t h = ground arith
strip_prefix-more (a ∷ p) [] t h = ground arith
strip_prefix-more (a ∷ p) (b ∷ s) t {rest} h = ground (arith, strip_prefix-more p s t {rest = rest})

strip_prefix-length :
    (p s : Text) {rest : Text} → strip_prefix p s ≡ some rest → length p ≤ length s
unfolding strip_prefix
strip_prefix-length [] s h = omega arith
strip_prefix-length (a ∷ p) [] h = ground arith
strip_prefix-length (a ∷ p) (b ∷ s) {rest} h = ground (arith, strip_prefix-length p s {rest = rest})

-- A prefix that is not there yet may come only while the text is shorter than it.
strip_prefix-less :
    (p s t : Text) → length p ≤ length s → strip_prefix p s ≡ none → strip_prefix p (s ++ t) ≡ none
unfolding strip_prefix
strip_prefix-less [] s t l h = ground arith
strip_prefix-less (a ∷ p) [] t l h = absurd (omega arith)
strip_prefix-less (a ∷ p) (b ∷ s) t l h = ground (arith, strip_prefix-less p s t)

module _ (p : Text) where
  pub find-le : (s : Text) (i : ℕ) → 0 < length p → find p s ≡ some i → i + length p ≤ length s
  unfolding find
  find-le [] i n h = ground arith
  find-le (x ∷ s) i n h = elim (Option-cases (strip_prefix p (x ∷ s))) [
    | inl later ↦ elim (Option-cases (find p s)) [
      | inl absent ↦ absurd (ground arith)
      | inr (j, found) ↦ ground (arith, find-le s j n found)
    ]
    | inr (rest, here) ↦ ground (arith, strip_prefix-length p (x ∷ s) here)
  ]

  -- A separator that was found stands where it stood when more bytes arrive.
  pub find-append :
      (s t : Text) (i : ℕ) → 0 < length p → find p s ≡ some i → find p (s ++ t) ≡ some i
  unfolding find
  find-append [] t i n h = ground arith
  find-append (x ∷ s) t i n h = elim (Option-cases (strip_prefix p (x ∷ s))) [
    | inl later ↦ elim (Option-cases (find p s)) [
      | inl absent ↦ absurd (ground arith)
      | inr (j, found) ↦
          let room = find-le s j n found in
          let still : strip_prefix p (x ∷ s ++ t) ≡ none =
            strip_prefix-less p (x ∷ s) t (omega arith) later in
          ground (arith, find-append s t j n found)
    ]
    | inr (rest, here) ↦ ground (arith, strip_prefix-more p (x ∷ s) t here)
  ]

  -- A separator that stands within the first bytes is found in them.
  pub find-within :
      (s t : Text) (i : ℕ)
      → 0 < length p
      → find p (s ++ t) ≡ some i
      → i + length p ≤ length s
      → find p s ≡ some i
  unfolding find
  find-within [] t i n h l = absurd (omega arith)
  find-within (x ∷ s) t i n h l = elim (Option-cases (strip_prefix p (x ∷ s))) [
    | inl later ↦
        let still : strip_prefix p (x ∷ s ++ t) ≡ none =
          strip_prefix-less p (x ∷ s) t (omega arith) later in
        elim (Option-cases (find p (s ++ t))) [
          | inl absent ↦ absurd (ground arith)
          | inr (j, found) ↦ ground (arith, find-within s t j n found)
        ]
    | inr (rest, here) ↦ ground (arith, strip_prefix-more p (x ∷ s) t here)
  ]

-- The separator begins with a carriage return, so it is found behind a text that has none.
pub find-separator :
    (s t : Text) → All (λ c. c ≢ 13) s → find separator (s ++ (separator ++ t)) ≡ some (length s)
unfolding find strip_prefix
find-separator [] t h = refl
find-separator (c ∷ s) t h = ground (arith, find-separator s t h.1)
