-- ===== src/Client/RelPath/Parts.antt =====
-- client/core/src/domain/workspace.rs: the parts of a path, split off and joined again.
use project_apex.Prelude.{
  ℕ, ◌≡◌, refl, ap, ◌∙◌, ◌≢◌, ◌⊎◌, inl, inr, false, ◌||◌, List, [], ◌∷◌, ◌++◌, arith, ◌==◌,
  Bool-cases, All, Text,
}
use project_apex.Client.RelPath.{
  slash, contains, split, before_first, Part, skipped, refused, kept, part_of, gather, push_front,
  Result, ok, err, join_parts,
}

-- Neither a separator nor a byte that a path may not hold.
abbrev pub IsPlain : ℕ → Type 0
IsPlain c = (c ≢ 47) × (c ≢ 0) × (c ≢ 92)

-- A part that stays: a name, and not one of the two names that a directory has of itself.
pub record IsName (p : Text) : Type 0 where
  pub stays : part_of p ≡ kept p
  pub plain : All IsPlain p

before_first-IsPlain :
    (c : ℕ) (parts : List Text)
    → IsPlain c
    → All (All IsPlain) parts
    → All (All IsPlain) (before_first c parts)
before_first-IsPlain c [] h a = ((h, tt), tt)
before_first-IsPlain c (p ∷ ps) h a = ((h, a.0), a.1)

pub split-IsPlain :
    (text : Text)
    → contains 0 text ≡ false
    → contains 92 text ≡ false
    → All (All IsPlain) (split text)
unfolding split contains
split-IsPlain [] n b = (tt, tt)
split-IsPlain (c ∷ text) n b =
    let rest = split-IsPlain text (ground (arith, n)) (ground (arith, b)) in
    elim (Bool-cases (c == 47)) [
      | inl here ↦ rw (here, split) (tt, rest)
      | inr other ↦
          rw (other, split)
            (before_first-IsPlain c (split text)
              (ground (arith, other), ground (arith, n), ground (arith, b)) rest)
    ]

part_of-kept : (p q : Text) → part_of p ≡ kept q → q ≡ p
unfolding part_of
part_of-kept [] q h = ground arith
part_of-kept (a ∷ []) q h = ground (arith, h)
part_of-kept (a ∷ b ∷ []) q h = ground (arith, h)
part_of-kept (a ∷ b ∷ c ∷ text) q h = ground (arith, h)

abbrev pub AreNames : Result (List Text) → Type 0
AreNames (err e) = Unit
AreNames (ok ps) = All IsName ps

push_front-AreNames :
    (p : Text) (r : Result (List Text)) → IsName p → AreNames r → AreNames (push_front p r)
push_front-AreNames p (err e) n a = tt
push_front-AreNames p (ok ps) n a = (n, a)

Part-cases : (x : Part) → (x ≡ skipped) ⊎ ((x ≡ refused) ⊎ ((q : Text) × (x ≡ kept q)))
Part-cases skipped = inl refl
Part-cases refused = inr (inl refl)
Part-cases (kept q) = inr (inr (q, refl))

pub gather-AreNames : (parts : List Text) → All (All IsPlain) parts → AreNames (gather parts)
unfolding gather
gather-AreNames [] a = tt
gather-AreNames (p ∷ parts) a =
    let rest = gather-AreNames parts a.1 in
    elim (Part-cases (part_of p)) [
      | inl skip ↦ rw (skip, gather) rest
      | inr (inl refuse) ↦ rw (refuse, gather) tt
      | inr (inr (q, keep)) ↦
          let same_part = part_of-kept p q keep in
          rw (keep, gather)
            (push_front-AreNames q (gather parts)
              (rw same_part (record { stays = keep ∙ ap kept same_part; plain = a.0 })) rest)
    ]

pub gather_of_names : (ps : List Text) → All IsName ps → gather ps ≡ ok ps
unfolding gather
gather_of_names [] n = refl
gather_of_names (p ∷ ps) n = rw (n.0.stays, gather, gather_of_names ps n.1) refl

-- A part without a separator, before the end of the text or before a separator.
pub split_of_plain : (p : Text) → All IsPlain p → split p ≡ p ∷ []
unfolding split
split_of_plain [] a = refl
split_of_plain (c ∷ p) a = rw (split_of_plain p a.1) (ground (arith, a.0.0))

pub split-append : (p rest : Text) → All IsPlain p → split (p ++ slash ∷ rest) ≡ p ∷ split rest
unfolding split
split-append [] rest a = refl
split-append (c ∷ p) rest a = rw (split-append p rest a.1) (ground (arith, a.0.0))

pub split-join_parts :
    (p : Text) (ps : List Text) → All IsName (p ∷ ps) → split (join_parts (p ∷ ps)) ≡ p ∷ ps
unfolding join_parts
split-join_parts p [] n = split_of_plain p n.0.plain
split-join_parts p (q ∷ ps) n =
    split-append p (join_parts (q ∷ ps)) n.0.plain ∙ ap (◌∷◌ p) (split-join_parts q ps n.1)

contains-append : (b : ℕ) (xs ys : Text) → contains b (xs ++ ys) ≡ (contains b xs || contains b ys)
unfolding contains
contains-append b [] ys = refl
contains-append b (x ∷ xs) ys = ground (arith, contains-append b xs ys)

-- No part holds the zero byte or a backslash, so neither does the joined path.
contains_of_plain : (p : Text) → All IsPlain p → (contains 0 p ≡ false) × (contains 92 p ≡ false)
unfolding contains
contains_of_plain [] a = (refl, refl)
contains_of_plain (c ∷ p) a =
    let rest = contains_of_plain p a.1 in
    (ground (arith, a.0.1, rest.0), ground (arith, a.0.2, rest.1))

pub contains-join_parts :
    (ps : List Text)
    → All IsName ps
    → (contains 0 (join_parts ps) ≡ false) × (contains 92 (join_parts ps) ≡ false)
unfolding join_parts contains
contains-join_parts [] n = (refl, refl)
contains-join_parts (p ∷ []) n = contains_of_plain p n.0.plain
contains-join_parts (p ∷ q ∷ ps) n =
    let first = contains_of_plain p n.0.plain in
    let rest = contains-join_parts (q ∷ ps) n.1 in
    (
      rw (contains-append 0 p (slash ∷ join_parts (q ∷ ps)), first.0) rest.0,
      rw (contains-append 92 p (slash ∷ join_parts (q ∷ ps)), first.1) rest.1,
    )
