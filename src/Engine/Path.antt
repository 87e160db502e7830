-- ===== src/Engine/Path.antt =====
-- engine/src/domain/path.rs: a path that a request names is resolved within its workspace. An
-- absolute path is the list of its components, and the file system is a parameter.
pub mod Contained
mod Tests
use project_apex.Prelude.{
  ℕ, zero, suc, ◌+◌, ◌-◌, ◌*◌, ◌/◌, ◌%◌, ◌^◌, ◌≤◌, ◌<◌, ◌≡◌, refl, sym, ap, ◌∙◌, ◌≢◌, ◌↔◌, ◌⊎◌, inl,
  inr, Bool, true, false, not, ◌&&◌, ◌||◌, Option, none, some, List, [], ◌∷◌, ◌++◌, map, append-nil,
  append_assoc, arith, ltb, leb, ◌==◌, if◌then◌else◌, Bool-cases, Option-cases, length,
  length-append, All, All-append, Text, codes,
}
use project_apex.Client.RelPath.{contains, split, Part, skipped, refused, kept, part_of}
use project_apex.Prelude.Map.{same}
use project_apex.Prelude.Order.{text_ord}

pub data PathRefusal : Type 0 where
  path_refused not_found : PathRefusal

pub data Result (A : Type 0) : Type 0 where
  err : PathRefusal → Result A
  ok : A → Result A

abbrev pub Components : Type 0
Components = List Text

-- What is asked of the file system: `canonicalize`, and whether a path is a directory.
pub record Disk : Type 0 where
  pub canonicalize : Components → Option Components
  pub is_directory : Components → Option Bool

-- `Path::starts_with`
unfoldable pub starts_with : Components → Components → Bool
starts_with path [] = true
starts_with [] (r ∷ root) = false
starts_with (p ∷ path) (r ∷ root) = let rest = starts_with path root in same p r && rest

-- `joined.parent().unwrap_or(&joined)`
unfoldable pub parent : Components → Components
parent [] = []
parent (p ∷ []) = []
parent (p ∷ q ∷ path) = p ∷ parent (q ∷ path)

abbrev pub push_front : Text → Result Components → Result Components
push_front p (err e) = err e
push_front p (ok ps) = ok (p ∷ ps)

-- The loop over the parts: empty ones and `.` are passed over, `..` ends it. A part is one of these,
-- or a name, by the same test as a path of the client.
unfoldable pub gather : List Text → Result Components
gather [] = ok []
gather (p ∷ ps) =
    let rest = gather ps in
    elim (part_of p) [ skipped ↦ rest | refused ↦ err path_refused | kept q ↦ push_front q rest ]

unfoldable pub lexical_parts : Text → Result Components
lexical_parts relative =
    if contains 0 relative || contains 92 relative
    then err path_refused
    else gather (split relative)

-- What becomes of the joined path.
unfoldable pub locate : Components → Components → Disk → Result Components
locate root joined disk = elim (disk.canonicalize joined) [
  | some c ↦ if starts_with c root then ok c else err path_refused
  | none ↦ elim (disk.canonicalize (parent joined)) [
    | some pc ↦ if starts_with pc root then err not_found else err path_refused
    | none ↦ err path_refused
  ]
]

unfoldable pub resolve : Components → Text → Disk → Result Components
resolve root relative disk = elim (lexical_parts relative) [
  | err e ↦ err e
  | ok parts ↦ locate root (root ++ parts) disk
]

unfoldable pub canonical_root : Components → Disk → Result Components
canonical_root root disk = elim (disk.canonicalize root) [
  | none ↦ err not_found
  | some c ↦ elim (disk.is_directory c) [
    | none ↦ err not_found
    | some b ↦ if b then ok c else err not_found
  ]
]
