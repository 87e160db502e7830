-- ===== src/Engine/GitOutput/Rooted.antt =====
-- Every path of a status is one that git printed within the workspace.
use project_apex.Prelude.{
  ℕ, ◌≡◌, refl, ap, ◌∙◌, ◌⊎◌, inl, inr, Bool, true, false, Option, none, some, List, [], ◌∷◌, ◌++◌,
  arith, not, filter, ◌==◌, Bool-cases, Option-cases, All, Text,
}
use project_apex.Prelude.Utf8.{strip_prefix, is_whitespace}
use project_apex.Prelude.Order.{text_ord}
use project_apex.Client.RelPath.{
  contains, split, Part, skipped, refused, kept, part_of, join_parts, before_first,
}
use project_apex.Engine.GitOutput.{contained, names, rooted}
use project_apex.Engine.GitOutput.Fields.{Behind}

-- A name: it stays as a part, and holds no separator.
abbrev pub IsName : Text → Type 0
IsName p = (part_of p ≡ kept p) × All (λ (c : ℕ). (c == 47) ≡ false) p

-- A part that names something: not empty, and not a dot alone.
abbrev pub is_name : Text → Bool
is_name [] = false
is_name (a ∷ []) = not (a == 46)
is_name (a ∷ b ∷ part) = true

-- A path in a field of the output: behind white space stands a name without a separator at its front,
-- which is the prefix and then a path within the workspace; the names of that path are the parts of
-- the result, none of them `..`.
pub record IsPrinted (prefix path field : Text) : Type 0 where
  pub front : Text
  pub white : ℕ
  pub first : ℕ
  pub name : Text
  pub within : Text
  pub part : Text
  pub parts : List Text
  pub stands : field ≡ front ++ white ∷ first ∷ name
  pub is_white : is_whitespace white ≡ true
  pub relative : (first == 47) ≡ false
  pub inside : first ∷ name ≡ prefix ++ within
  pub named : filter is_name (split within) ≡ part ∷ parts
  pub names : All IsName (part ∷ parts)
  pub rooted : path ≡ 47 ∷ join_parts (part ∷ parts)

abbrev IsBare : Text → Type 0
IsBare = All (λ (c : ℕ). (c == 47) ≡ false)

before_first-AreBare :
    (c : ℕ) (parts : List Text)
    → (c == 47) ≡ false
    → All IsBare parts
    → All IsBare (before_first c parts)
before_first-AreBare c [] h a = ((h, tt), tt)
before_first-AreBare c (p ∷ ps) h a = ((h, a.0), a.1)

split-AreBare : (t : Text) → All IsBare (split t)
unfolding split
split-AreBare [] = (tt, tt)
split-AreBare (c ∷ t) = elim (Bool-cases (c == 47)) [
  | inl here ↦ rw (here, split) (tt, split-AreBare t)
  | inr other ↦ rw (other, split) (before_first-AreBare c (split t) other (split-AreBare t))
]

part_of-kept : (p q : Text) → part_of p ≡ kept q → q ≡ p
unfolding part_of
part_of-kept [] q h = ground arith
part_of-kept (a ∷ []) q h = ground (arith, h)
part_of-kept (a ∷ b ∷ []) q h = ground (arith, h)
part_of-kept (a ∷ b ∷ c ∷ text) q h = ground (arith, h)

Part-cases : (x : Part) → (x ≡ skipped) ⊎ ((x ≡ refused) ⊎ ((q : Text) × (x ≡ kept q)))
Part-cases skipped = inl refl
Part-cases refused = inr (inl refl)
Part-cases (kept q) = inr (inr (q, refl))

abbrev OfNames : Option (List Text) → Type 0
OfNames none = Unit
OfNames (some qs) = All IsName qs

abbrev with_name : Text → Option (List Text) → Option (List Text)
with_name q none = none
with_name q (some qs) = some (q ∷ qs)

with_name-OfNames :
    (q : Text) (r : Option (List Text)) → IsName q → OfNames r → OfNames (with_name q r)
with_name-OfNames q none n h = tt
with_name-OfNames q (some qs) n h = (n, h)

names_of_kept :
    (p q : Text) (ps : List Text) → part_of p ≡ kept q → names (p ∷ ps) ≡ with_name q (names ps)
unfolding names
names_of_kept p q ps h = ground (arith, h)

names-OfNames : (parts : List Text) → All IsBare parts → OfNames (names parts)
unfolding names
names-OfNames [] a = tt
names-OfNames (p ∷ ps) a = elim (Part-cases (part_of p)) [
  | inl skip ↦ rw (skip, names) (names-OfNames ps a.1)
  | inr (inl refuse) ↦ rw (refuse, names) tt
  | inr (inr (q, keep)) ↦
      let same_part = part_of-kept p q keep in
      rw (names_of_kept p q ps keep) (
        with_name-OfNames q (names ps) (rw same_part (keep ∙ ap kept same_part, a.0))
          (names-OfNames ps a.1))
]

is_name_of_kept : (p q : Text) → part_of p ≡ kept q → is_name p ≡ true
unfolding part_of
is_name_of_kept [] q h = ground (arith, h)
is_name_of_kept (a ∷ []) q h = ground (arith, h)
is_name_of_kept (a ∷ b ∷ p) q h = refl

is_name_of_skipped : (p : Text) → part_of p ≡ skipped → is_name p ≡ false
unfolding part_of
is_name_of_skipped [] h = refl
is_name_of_skipped (a ∷ []) h = ground (arith, h)
is_name_of_skipped (a ∷ b ∷ []) h = ground (arith, h)
is_name_of_skipped (a ∷ b ∷ c ∷ p) h = ground (arith, h)

abbrev OfParts : List Text → Option (List Text) → Type 0
OfParts parts none = Unit
OfParts parts (some qs) = filter is_name parts ≡ qs

with_name-OfParts :
    (p : Text) (ps : List Text) (r : Option (List Text))
    → is_name p ≡ true
    → OfParts ps r
    → OfParts (p ∷ ps) (with_name p r)
with_name-OfParts p ps none n h = tt
with_name-OfParts p ps (some qs) n h = ground (arith, n, h)

OfParts-skip :
    (p : Text) (ps : List Text) (r : Option (List Text))
    → is_name p ≡ false
    → OfParts ps r
    → OfParts (p ∷ ps) r
OfParts-skip p ps none n h = tt
OfParts-skip p ps (some qs) n h = ground (arith, n, h)

names-OfParts : (parts : List Text) → OfParts parts (names parts)
unfolding names
names-OfParts [] = refl
names-OfParts (p ∷ ps) = elim (Part-cases (part_of p)) [
  | inl skip ↦
      rw (skip, names) (OfParts-skip p ps (names ps) (is_name_of_skipped p skip) (names-OfParts ps))
  | inr (inl refuse) ↦ rw (refuse, names) tt
  | inr (inr (q, keep)) ↦
      rw (names_of_kept p q ps keep, part_of-kept p q keep)
        (with_name-OfParts p ps (names ps) (is_name_of_kept p q keep) (names-OfParts ps))
]

strip_prefix-inv :
    (prefix text rest : Text) → strip_prefix prefix text ≡ some rest → text ≡ prefix ++ rest
unfolding strip_prefix
strip_prefix-inv [] text rest h = ground (arith, h)
strip_prefix-inv (p ∷ prefix) [] rest h = absurd (ground (arith, h))
strip_prefix-inv (p ∷ prefix) (c ∷ text) rest h =
    ground (arith, h, strip_prefix-inv prefix text rest)

-- What `contained` makes of a text behind white space in a field.
abbrev pub OfPrinted : Text → Text → Option Text → Type 0
OfPrinted prefix field none = Unit
OfPrinted prefix field (some path) = IsPrinted prefix path field

rooted-OfPrinted :
    (prefix field within : Text) (c : ℕ) (raw : Text) (r : Option (List Text))
    → Behind field (c ∷ raw)
    → (c == 47) ≡ false
    → c ∷ raw ≡ prefix ++ within
    → OfNames r
    → OfParts (split within) r
    → OfPrinted prefix field (rooted r)
rooted-OfPrinted prefix field within c raw none b relative inside names parts = tt
rooted-OfPrinted prefix field within c raw (some []) b relative inside names parts = tt
rooted-OfPrinted prefix field within c raw (some (q ∷ qs)) b relative inside names parts = record {
  front = b.0;
  white = b.1;
  first = c;
  name = raw;
  within = within;
  part = q;
  parts = qs;
  stands = b.2;
  is_white = b.3;
  relative = relative;
  inside = inside;
  named = parts;
  names = names;
  rooted = refl;
}

pub contained-OfPrinted :
    (prefix field raw : Text)
    → (raw ≡ []) ⊎ Behind field raw
    → OfPrinted prefix field (contained raw prefix)
unfolding contained
contained-OfPrinted prefix field [] b = tt
contained-OfPrinted prefix field (c ∷ raw) (inl empty) = absurd (ground (arith, empty))
contained-OfPrinted prefix field (c ∷ raw) (inr b) = elim (Bool-cases (contains 0 (c ∷ raw))) [
  | inl zero_byte ↦ rw (zero_byte, contained) tt
  | inr fine ↦ elim (Bool-cases (c == 47)) [
    | inl absolute ↦ rw (fine, absolute, contained) tt
    | inr relative ↦ elim (Option-cases (strip_prefix prefix (c ∷ raw))) [
      | inl outside ↦ rw (fine, relative, outside, contained) tt
      | inr (within, inside) ↦
          rw (fine, relative, inside, contained)
            (rooted-OfPrinted prefix field within c raw (names (split within)) b relative
              (strip_prefix-inv prefix (c ∷ raw) within inside)
              (names-OfNames (split within) (split-AreBare within)) (names-OfParts (split within)))
    ]
  ]
]
