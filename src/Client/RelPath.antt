-- ===== src/Client/RelPath.antt =====
-- client/core/src/domain/workspace.rs: `RelPath`, a path within a workspace, checked when it is
-- made. A path is the list of its bytes, and a separator is found in them as in the characters.
pub mod Parts
pub mod Normal
mod Tests
use project_apex.Prelude.{
  ℕ, zero, suc, ◌+◌, ◌-◌, ◌*◌, ◌/◌, ◌%◌, ◌^◌, ◌≤◌, ◌<◌, ◌≡◌, refl, sym, ap, ◌∙◌, ◌≢◌, ◌↔◌, ◌⊎◌, inl,
  inr, Bool, true, false, not, ◌&&◌, ◌||◌, Option, none, some, List, [], ◌∷◌, ◌++◌, map, append-nil,
  append_assoc, arith, ltb, leb, ◌==◌, if◌then◌else◌, Bool-cases, Option-cases, length,
  length-append, All, All-append, Text, codes, drop, take,
}

abbrev pub slash : ℕ
slash = 47

abbrev pub backslash : ℕ
backslash = 92

pub data PathError : Type 0 where
  traversal absolute nul : PathError

pub data Result (A : Type 0) : Type 0 where
  err : PathError → Result A
  ok : A → Result A

unfoldable pub root : Text
root = slash ∷ []

unfoldable pub contains : ℕ → Text → Bool
contains b [] = false
contains b (c ∷ text) = c == b || contains b text

abbrev pub starts_with_two : Text → Bool
starts_with_two [] = false
starts_with_two (a ∷ []) = false
starts_with_two (a ∷ b ∷ text) = a == slash && b == slash

abbrev pub before_first : ℕ → List Text → List Text
before_first c [] = (c ∷ []) ∷ []
before_first c (part ∷ parts) = (c ∷ part) ∷ parts

-- `raw.split('/')`
unfoldable pub split : Text → List Text
split [] = [] ∷ []
split (c ∷ text) = let rest = split text in if c == slash then [] ∷ rest else before_first c rest

-- What the loop does with one part.
pub data Part : Type 0 where
  skipped refused : Part
  kept : Text → Part

unfoldable pub part_of : Text → Part
part_of [] = skipped
part_of (a ∷ []) = if a == 46 then skipped else kept (a ∷ [])
part_of (a ∷ b ∷ []) = if a == 46 && b == 46 then refused else kept (a ∷ b ∷ [])
part_of (a ∷ b ∷ c ∷ text) = kept (a ∷ b ∷ c ∷ text)

abbrev pub push_front : Text → Result (List Text) → Result (List Text)
push_front p (err e) = err e
push_front p (ok ps) = ok (p ∷ ps)

unfoldable pub gather : List Text → Result (List Text)
gather [] = ok []
gather (p ∷ ps) =
    let rest = gather ps in
    elim (part_of p) [ skipped ↦ rest | refused ↦ err traversal | kept q ↦ push_front q rest ]

-- `parts.join("/")`
unfoldable pub join_parts : List Text → Text
join_parts [] = []
join_parts (p ∷ ps) = let rest = join_parts ps in elim ps [ [] ↦ p | _ ∷ _ ↦ p ++ slash ∷ rest ]

abbrev pub rooted : Result (List Text) → Result Text
rooted (err e) = err e
rooted (ok parts) = ok (slash ∷ join_parts parts)

unfoldable pub parse : Text → Result Text
parse raw =
    if contains 0 raw
    then err nul
    else if starts_with_two raw || contains backslash raw
    then err absolute
    else rooted (gather (split raw))

unfoldable pub is_root : Text → Bool
is_root path = elim path [ [] ↦ false | a ∷ text ↦ elim text [ [] ↦ a == slash | _ ∷ _ ↦ false ] ]

-- `rfind('/')`, and 0 when there is none
unfoldable pub last_slash : Text → Option ℕ
last_slash [] = none
last_slash (c ∷ text) = elim (last_slash text) [
  | some i ↦ some (i + 1)
  | none ↦ if c == slash then some 0 else none
]

abbrev pub or_zero : Option ℕ → ℕ
or_zero none = 0
or_zero (some i) = i

unfoldable pub parent : Text → Option Text
parent path =
    if is_root path
    then none
    else (let cut = or_zero (last_slash path) in
        if cut == 0 then some root else some (take cut path))

-- `rsplit('/').next()`
unfoldable pub name : Text → Text
name path =
    if is_root path then [] else elim (last_slash path) [ none ↦ path | some i ↦ drop (i + 1) path ]

-- `trim_end_matches('/')`
unfoldable pub trim_end_slashes : Text → Text
trim_end_slashes [] = []
trim_end_slashes (c ∷ text) = elim (trim_end_slashes text) [
  | [] ↦ if c == slash then [] else c ∷ []
  | d ∷ rest ↦ c ∷ d ∷ rest
]

unfoldable pub join : Text → Text → Result Text
join path child = parse (trim_end_slashes path ++ slash ∷ child)
