-- ===== src/Engine/GitOutput/Fields.antt =====
-- Where a text stands in a field of the output of git.
use project_apex.Prelude.{
  ℕ, ◌≡◌, refl, sym, ap, ◌∙◌, ◌⊎◌, inl, inr, true, some, [], ◌∷◌, ◌++◌, arith, append_assoc,
  append-nil, zero, suc, get_or, ◌==◌, Bool-cases, Option-cases, length, Text,
}
use project_apex.Prelude.Utf8.{is_whitespace, trim_start}
use project_apex.Prelude.Order.{text_ord}
use project_apex.Engine.GitOutput.{split_space, splitn, kind_of, get_or}

-- A text behind white space, and one that is the end of another.
abbrev pub Behind : Text → Text → Type 0
Behind field raw = (front : Text) × (w : ℕ) × (field ≡ front ++ w ∷ raw) × (is_whitespace w ≡ true)

abbrev pub Ends : Text → Text → Type 0
Ends field rest = (front : Text) × (field ≡ front ++ rest)

pub Behind-Ends : (field rest raw : Text) → Ends field rest → Behind rest raw → Behind field raw
Behind-Ends field rest raw (x, e) (front, w, e', white) =
    (x ++ front, w, e ∙ ap (λ t. x ++ t) e' ∙ sym (append_assoc x front (w ∷ raw)), white)

split_space-inv : (t : Text) (p : Text × Text) → split_space t ≡ some p → t ≡ p.0 ++ 32 ∷ p.1
unfolding split_space
split_space-inv [] p h = absurd (ground (arith, h))
split_space-inv (c ∷ t) p h = elim (Bool-cases (c == 32)) [
  | inl here ↦
      let found : ([], t) ≡ p = ground (arith, h, here) in
      let space : c ≡ 32 = ground (arith, here) in rw (sym found, space) refl
  | inr other ↦ elim (Option-cases (split_space t)) [
    | inl nothing ↦ absurd (ground (arith, h, other, nothing))
    | inr (q, rest) ↦
        let ih = split_space-inv t q rest in
        let found : (c ∷ q.0, q.1) ≡ p = ground (arith, h, other, rest) in
        rw (sym found) (ap (λ u. c ∷ u) ih)
  ]
]

trim_start-Behind : (w : ℕ) (t : Text) → is_whitespace w ≡ true → Behind (w ∷ t) (trim_start t)
unfolding trim_start
trim_start-Behind w [] white = ([], w, refl, white)
trim_start-Behind w (c ∷ t) white = elim (Bool-cases (is_whitespace c)) [
  | inl again ↦
      let (front, v, e, white') = trim_start-Behind c t again in
      rw again (w ∷ front, v, ap (λ u. w ∷ u) e, white')
  | inr last ↦ rw last ([], w, refl, white)
]

pub kind_of-Behind : (field : Text) → ((kind_of field).1 ≡ []) ⊎ Behind field (kind_of field).1
unfolding kind_of is_whitespace
kind_of-Behind field = elim (Option-cases (split_space field)) [
  | inl alone ↦ rw (alone, kind_of) (inl refl)
  | inr (p, parts) ↦
      let tail = trim_start-Behind 32 p.1 refl in
      rw (parts, kind_of)
        (inr
          (Behind-Ends field (32 ∷ p.1) (trim_start p.1) (p.0, split_space-inv field p parts) tail))
]

pub kind_of-Ends : (field : Text) → Ends field (kind_of field).1
kind_of-Ends field = elim (kind_of-Behind field) [
  | inl nothing ↦ (field, rw nothing (sym (append-nil field)))
  | inr (front, w, e, white) ↦
      (front ++ w ∷ [], e ∙ sym (append_assoc front (w ∷ []) (kind_of field).1))
]

-- The last of exactly so many parts stands behind a space.
pub splitn-Behind :
    (n : ℕ) (t : Text)
    → (length (splitn (suc (suc n)) t) == suc (suc n)) ≡ true
    → Behind t (get_or (splitn (suc (suc n)) t) (suc n) [])
unfolding splitn is_whitespace
splitn-Behind zero t whole = elim (Option-cases (split_space t)) [
  | inl alone ↦ absurd (ground (arith, whole, alone))
  | inr (p, parts) ↦ rw (parts, splitn) (p.0, 32, split_space-inv t p parts, refl)
]
splitn-Behind (suc n) t whole = elim (Option-cases (split_space t)) [
  | inl alone ↦ absurd (ground (arith, whole, alone))
  | inr (p, parts) ↦
      let fewer : (length (splitn (suc (suc n)) p.1) == suc (suc n)) ≡ true =
        ground (arith, whole, parts) in
      let after : Ends t p.1 =
        (p.0 ++ 32 ∷ [], split_space-inv t p parts ∙ sym (append_assoc p.0 (32 ∷ []) p.1)) in
      rw (parts, splitn) (Behind-Ends t p.1 _ after (splitn-Behind n p.1 fewer))
]
