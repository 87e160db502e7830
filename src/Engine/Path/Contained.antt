-- ===== src/Engine/Path/Contained.antt =====
-- What a resolved path is, and what a refusal tells.
use project_apex.Prelude.{
  ◌≡◌, refl, sym, ap, ◌∙◌, ◌⊎◌, inl, inr, Bool, true, false, ◌||◌, none, some, List, [], ◌∷◌, ◌++◌,
  arith, Bool-cases, Option-cases, Text,
}
use mathlib.Core.Path.{subst}
use project_apex.Client.RelPath.{contains, split, Part, skipped, refused, kept, part_of}
use project_apex.Prelude.Map.{same, same_eq}
use project_apex.Prelude.Order.{text_ord}
use project_apex.Engine.Path.{
  path_refused, not_found, Result, err, ok, Components, Disk, starts_with, parent, push_front,
  gather, lexical_parts, locate, resolve,
}

abbrev pub IsUnder : Components → Components → Type 0
IsUnder root c = (rest : Components) × (c ≡ root ++ rest)

starts_with-IsUnder : (c root : Components) → starts_with c root ≡ true → IsUnder root c
unfolding starts_with
starts_with-IsUnder c [] h = (c, refl)
starts_with-IsUnder [] (r ∷ root) h = absurd (ground (arith, h))
starts_with-IsUnder (p ∷ c) (r ∷ root) h =
    let (rest, e) = starts_with-IsUnder c root (ground (arith, h)) in
    let first : p ≡ r = same_eq p r (ground (arith, h)) in
    (rest, ap (λ q. q ∷ c) first ∙ ap (◌∷◌ r) e)

-- What an answer says: a path is what the file system resolved the named one to, under the root; an
-- absence is told only where the parent of the named path was resolved to a place under the root.
abbrev pub Tells : Components → Components → Disk → Result Components → Type 0
Tells root joined disk (ok c) = (disk.canonicalize joined ≡ some c) × IsUnder root c
Tells root joined disk (err not_found) =
    (disk.canonicalize joined ≡ none)
    × ((pc : Components) × (disk.canonicalize (parent joined) ≡ some pc) × IsUnder root pc)
Tells root joined disk (err path_refused) = Unit

locate-Tells :
    (root joined : Components) (disk : Disk) → Tells root joined disk (locate root joined disk)
unfolding locate
locate-Tells root joined disk = elim (Option-cases (disk.canonicalize joined)) [
  | inr (c, found) ↦ elim (Bool-cases (starts_with c root)) [
    | inl within ↦ rw (locate, found, within) (found, starts_with-IsUnder c root within)
    | inr outside ↦ rw (locate, found, outside) tt
  ]
  | inl absent ↦ elim (Option-cases (disk.canonicalize (parent joined))) [
    | inl no_parent ↦ rw (locate, absent, no_parent) tt
    | inr (pc, there) ↦ elim (Bool-cases (starts_with pc root)) [
      | inl within ↦
          rw (locate, absent, there, within)
            (absent, (pc, there, starts_with-IsUnder pc root within))
      | inr outside ↦ rw (locate, absent, there, outside) tt
    ]
  ]
]

-- The same of a named path, which is the root followed by the parts of the text.
abbrev pub Answers : Components → Text → Disk → Result Components → Type 0
Answers root relative disk (err path_refused) = Unit
Answers root relative disk (err not_found) =
    (parts : Components) × (lexical_parts relative ≡ ok parts)
    × Tells root (root ++ parts) disk (err not_found)
Answers root relative disk (ok c) =
    (parts : Components) × (lexical_parts relative ≡ ok parts)
    × Tells root (root ++ parts) disk (ok c)

Tells-Answers :
    (root : Components) (relative : Text) (parts : Components) (disk : Disk) (r : Result Components)
    → lexical_parts relative ≡ ok parts
    → Tells root (root ++ parts) disk r
    → Answers root relative disk r
Tells-Answers root relative parts disk (err path_refused) l t = tt
Tells-Answers root relative parts disk (err not_found) l t = (parts, l, t)
Tells-Answers root relative parts disk (ok c) l t = (parts, l, t)

abbrev IsRefusal : Result Components → Type 0
IsRefusal (err path_refused) = Unit
IsRefusal (err not_found) = ⊥
IsRefusal (ok ps) = Unit

push_front-IsRefusal : (p : Text) (r : Result Components) → IsRefusal r → IsRefusal (push_front p r)
push_front-IsRefusal p (err path_refused) h = h
push_front-IsRefusal p (err not_found) h = h
push_front-IsRefusal p (ok ps) h = tt

Part-cases : (x : Part) → (x ≡ skipped) ⊎ ((x ≡ refused) ⊎ ((q : Text) × (x ≡ kept q)))
Part-cases skipped = inl refl
Part-cases refused = inr (inl refl)
Part-cases (kept q) = inr (inr (q, refl))

gather-IsRefusal : (parts : List Text) → IsRefusal (gather parts)
unfolding gather
gather-IsRefusal [] = tt
gather-IsRefusal (p ∷ parts) = elim (Part-cases (part_of p)) [
  | inl skip ↦ rw (skip, gather) (gather-IsRefusal parts)
  | inr (inl refuse) ↦ rw (refuse, gather) tt
  | inr (inr (q, keep)) ↦
      rw (keep, gather) (push_front-IsRefusal q (gather parts) (gather-IsRefusal parts))
]

lexical_parts-IsRefusal : (relative : Text) → IsRefusal (lexical_parts relative)
unfolding lexical_parts
lexical_parts-IsRefusal relative = elim (Bool-cases (contains 0 relative || contains 92 relative)) [
  | inl bad ↦ rw (bad, lexical_parts) tt
  | inr good ↦ rw (good, lexical_parts) (gather-IsRefusal (split relative))
]

Result-cases :
    (r : Result Components)
    → IsRefusal r
    → (r ≡ err path_refused) ⊎ ((ps : Components) × (r ≡ ok ps))
Result-cases (err path_refused) h = inl refl
Result-cases (err not_found) h = absurd h
Result-cases (ok ps) h = inr (ps, refl)

resolve_of_parts :
    (root : Components) (relative : Text) (parts : Components) (disk : Disk)
    → lexical_parts relative ≡ ok parts
    → resolve root relative disk ≡ locate root (root ++ parts) disk
unfolding resolve
resolve_of_parts root relative parts disk l = rw (resolve, l) refl

-- Whatever the file system answers, a path is resolved only to a place under the root, which is what
-- the named path stands for on the disk, and an absence is told only when the named path is not there
-- and its parent is under the root.
pub resolve-Answers :
    (root : Components) (relative : Text) (disk : Disk)
    → Answers root relative disk (resolve root relative disk)
unfolding resolve
resolve-Answers root relative disk =
    elim (Result-cases (lexical_parts relative) (lexical_parts-IsRefusal relative)) [
      | inl refusal ↦ rw (resolve, refusal) tt
      | inr (parts, l) ↦
          subst (Answers root relative disk) (sym (resolve_of_parts root relative parts disk l)) (
            Tells-Answers root relative parts disk (locate root (root ++ parts) disk) l
              (locate-Tells root (root ++ parts) disk))
    ]

-- A text that names a place by `..`, or holds the zero byte or a backslash.
abbrev dots : Text
dots = 46 ∷ 46 ∷ []

unfoldable pub has_dots : List Text → Bool
has_dots [] = false
has_dots (p ∷ ps) = same p dots || has_dots ps

abbrev pub escapes : Text → Bool
escapes relative = contains 0 relative || contains 92 relative || has_dots (split relative)

part_of-dots : (p : Text) → same p dots ≡ true → part_of p ≡ refused
unfolding part_of
part_of-dots p h = rw (same_eq p dots h, part_of) refl

push_front-refused :
    (p : Text) (r : Result Components) → r ≡ err path_refused → push_front p r ≡ err path_refused
push_front-refused p r h = rw h refl

gather_of_dots : (parts : List Text) → has_dots parts ≡ true → gather parts ≡ err path_refused
unfolding gather has_dots
gather_of_dots [] h = absurd (ground (arith, h))
gather_of_dots (p ∷ parts) h = elim (Bool-cases (same p dots)) [
  | inl here ↦ rw (part_of-dots p here, gather) refl
  | inr later ↦
      let rest = gather_of_dots parts (ground (arith, h, later)) in
      elim (Part-cases (part_of p)) [
        | inl skip ↦ rw (skip, gather) rest
        | inr (inl refuse) ↦ rw (refuse, gather) refl
        | inr (inr (q, keep)) ↦ rw (keep, gather) (push_front-refused q (gather parts) rest)
      ]
]

-- A path that leaves the root by its text is refused whatever is on the disk: the answer does not
-- depend on whether its target exists.
pub resolve_of_escape :
    (root : Components) (relative : Text) (disk : Disk)
    → escapes relative ≡ true
    → resolve root relative disk ≡ err path_refused
unfolding resolve lexical_parts
resolve_of_escape root relative disk h =
    elim (Bool-cases (contains 0 relative || contains 92 relative)) [
      | inl bad ↦ rw (bad, lexical_parts, resolve) refl
      | inr good ↦
          rw
            (
              good,
              lexical_parts,
              gather_of_dots (split relative) (ground (arith, h, good)),
              resolve,
            )
            refl
    ]
