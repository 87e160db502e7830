-- ===== src/Engine/Workspace.antt =====
-- engine/src/application/use_cases/workspace.rs: the registered workspaces, and a write that refuses
-- when the file has moved. The file system and the digest are parameters.
pub mod Paired
pub mod Written
mod Tests
use project_apex.Prelude.{
  ℕ, zero, suc, ◌+◌, ◌-◌, ◌*◌, ◌/◌, ◌%◌, ◌^◌, ◌≤◌, ◌<◌, ◌≡◌, refl, sym, ap, ◌∙◌, ◌≢◌, ◌↔◌, ◌⊎◌, inl,
  inr, Bool, true, false, not, ◌&&◌, ◌||◌, Option, none, some, List, [], ◌∷◌, ◌++◌, map, append-nil,
  append_assoc, arith, ltb, leb, ◌==◌, if◌then◌else◌, Bool-cases, Option-cases, length,
  length-append, All, All-append, Text, codes,
}
use project_apex.Prelude.Map.{Map, get, insert, remove, same}
use project_apex.Prelude.Order.{text_ord}
use project_apex.Engine.Path
use project_apex.Engine.Path.{Components, Disk, PathRefusal, canonical_root}
use project_apex.Engine.Exclusions
use project_apex.Engine.Exclusions.{ExclusionSet, FileSystem}

pub data Result (E A : Type 0) : Type 0 where
  err : E → Result E A
  ok : A → Result E A

pub data RootError : Type 0 where
  not_registered gone unusable : RootError
  root_conflict : Text → RootError

pub record InMemoryRoots : Type 0 where
  pub roots : Map Text (Text × Components)
  pub exclusions : Map Text ExclusionSet

unfoldable pub new : InMemoryRoots
new = record { roots = []; exclusions = [] }

abbrev below : Components → Text
below [] = []
below (p ∷ ps) = 47 ∷ p ++ below ps

-- A path as its text.
unfoldable pub absolute : Components → Text
absolute [] = 47 ∷ []
absolute (p ∷ ps) = below (p ∷ ps)

-- `Path::new(path)` is the parameter `components`.
unfoldable pub register :
    (Text → Components)
    → Disk
    → FileSystem
    → Text
    → Text
    → InMemoryRoots
    → InMemoryRoots × Result RootError Components
register components disk fs id path r = elim (get id r.roots) [
  | some held ↦ if same held.0 path then (r, ok held.1) else (r, err (root_conflict held.0))
  | none ↦ elim (canonical_root (components path) disk) [
    | Path.err e ↦ (r, err unusable)
    | Path.ok root ↦ (
      record {
        roots = insert id (path, root) r.roots;
        exclusions = insert id (Exclusions.resolve (absolute root) fs) r.exclusions;
      },
      ok root,
    )
  ]
]

unfoldable pub deregister : Text → InMemoryRoots → InMemoryRoots × Result RootError Unit
deregister id r = elim (get id r.roots) [
  | none ↦ (r, err not_registered)
  | some _ ↦ (record { roots = remove id r.roots; exclusions = remove id r.exclusions }, ok tt)
]

-- `InMemoryRoots::exclusions`
unfoldable pub exclusions_of : Text → InMemoryRoots → Option ExclusionSet
exclusions_of id r = get id r.exclusions

unfoldable pub resolve : Disk → Text → InMemoryRoots → Result RootError Components
resolve disk id r = elim (get id r.roots) [
  | none ↦ err not_registered
  | some held ↦ elim (disk.is_directory held.1) [
    | none ↦ err gone
    | some b ↦ if b then ok held.1 else err gone
  ]
]

pub data RequestRefusal : Type 0 where
  at_root : RootError → RequestRefusal
  at_path : PathRefusal → RequestRefusal

abbrev pub of_path : Path.Result Components → Result RequestRefusal Components
of_path (Path.err e) = err (at_path e)
of_path (Path.ok c) = ok c

unfoldable pub resolve_request :
    Disk → Text → Text → InMemoryRoots → Result RequestRefusal Components
resolve_request disk workspace_id relative r = elim (resolve disk workspace_id r) [
  | err e ↦ err (at_root e)
  | ok c ↦ of_path (Path.resolve c relative disk)
]

abbrev pub max_write_bytes : ℕ
max_write_bytes = 1024 * 1024

pub data WriteRefusal : Type 0 where
  request : RequestRefusal → WriteRefusal
  conflict : WriteRefusal
  too_large : ℕ → WriteRefusal
  io : Text → WriteRefusal

-- The files, in a state `W` of the world, with the texts of its errors.
pub record Files (W : Type 0) : Type 0 where
  pub read_all : Components → W → Result Text (List ℕ)
  pub write_atomic : Components → List ℕ → W → W × Result Text Unit

module _ {W : Type 0} (files : Files W) (digest : List ℕ → Text) where
  -- The answer after the file was written.
  unfoldable pub after_write : Components → W × Result Text Unit → W × Result WriteRefusal Text
  after_write path (w, err why) = (w, err (io why))
  after_write path (w, ok _) = elim (files.read_all path w) [
    | err why ↦ (w, err (io why))
    | ok written ↦ (w, ok (digest written))
  ]

  -- The write of a path that was resolved.
  unfoldable pub replace : Components → List ℕ → Text → W → W × Result WriteRefusal Text
  replace path bytes base w = elim (files.read_all path w) [
    | err why ↦ (w, err (io why))
    | ok current ↦ elim (same (digest current) base) [
      | false ↦ (w, err conflict)
      | true ↦ after_write path (files.write_atomic path bytes w)
    ]
  ]

  unfoldable pub write_file :
      Disk → InMemoryRoots → Text → Text → List ℕ → Text → W → W × Result WriteRefusal Text
  write_file disk r workspace_id relative bytes base w = elim (ltb max_write_bytes (length bytes)) [
    | true ↦ (w, err (too_large max_write_bytes))
    | false ↦ elim (resolve_request disk workspace_id relative r) [
      | err e ↦ (w, err (request e))
      | ok c ↦ replace c bytes base w
    ]
  ]
