-- ===== src/Engine/Workspace/Paired.antt =====
-- What is registered and the exclusion sets, against one list of what was opened.
use project_apex.Prelude.{
  ◌≡◌, refl, sym, ◌⊎◌, inl, inr, Bool, true, false, Option, none, some, arith, if◌then◌else◌,
  Bool-cases, Option-cases, Text,
}
use project_apex.Prelude.Map.{get, insert, remove, same, get-insert, get-remove, same_eq}
use project_apex.Prelude.Order.{text_ord}
use project_apex.Engine.Path
use project_apex.Engine.Path.{Components, Disk, PathRefusal, canonical_root}
use project_apex.Engine.Exclusions
use project_apex.Engine.Exclusions.{ExclusionSet, FileSystem}
use project_apex.Engine.Workspace.{
  InMemoryRoots, new, register, deregister, absolute, exclusions_of,
}

-- A workspace as it was opened: the path asked for, the root it led to, and the files at that time.
pub record Opened : Type 0 where
  pub path : Text
  pub root : Components
  pub fs : FileSystem

-- The abstract registry: what every identity is open as.
abbrev pub Registry : Type 0
Registry = Text → Option Opened

abbrev opening : Text → FileSystem → Path.Result Components → Option Opened
opening path fs (Path.err e) = none
opening path fs (Path.ok root) = some (record { path = path; root = root; fs = fs })

-- An identity that is free is open from now on, when its path leads to a root.
abbrev opened : Text → FileSystem → Path.Result Components → Option Opened → Option Opened
opened path fs found (some held) = some held
opened path fs found none = opening path fs found

abbrev set_at : Text → Option Opened → Registry → Registry
set_at id value told other = if same other id then value else told other

-- Calls from a new registry, each with the disk and the files as they are then, and what they mean.
pub data Reached : InMemoryRoots → Registry → Type 0 where
  at_first : Reached new (λ id. none)
  registered :
      {r : InMemoryRoots} {told : Registry} (components : Text → Components) (disk : Disk)
      (fs : FileSystem) (id path : Text)
      → Reached r told
      → Reached
          (register components disk fs id path r).0
          (set_at id (opened path fs (canonical_root (components path) disk) (told id)) told)
  deregistered :
      {r : InMemoryRoots} {told : Registry} (id : Text)
      → Reached r told
      → Reached (deregister id r).0 (set_at id none told)

abbrev pub root_of : Option Opened → Option (Text × Components)
root_of none = none
root_of (some o) = some (o.path, o.root)

abbrev pub set_of : Option Opened → Option ExclusionSet
set_of none = none
set_of (some o) = some (Exclusions.resolve (absolute o.root) o.fs)

-- The code's two maps hold what the abstract registry says, and nothing else.
abbrev pub Refines : InMemoryRoots → Registry → Type 0
Refines r told =
    (id : Text) → (get id r.roots ≡ root_of (told id)) × (exclusions_of id r ≡ set_of (told id))

if_ap :
    {A B : Type 0} (f : A → B) (b : Bool) (x y : A)
    → (if b then f x else f y) ≡ f (if b then x else y)
if_ap f true x y = refl
if_ap f false x y = refl

set_at-told : (id other : Text) (told : Registry) → set_at id (told id) told other ≡ told other
set_at-told id other told = elim (Bool-cases (same other id)) [
  | inl here ↦ rw (here, same_eq other id here) refl
  | inr there ↦ rw there refl
]

-- Nothing changes in either, when what the identity is open as stays.
Refines-same :
    (r : InMemoryRoots) (told : Registry) (id : Text) (v : Option Opened)
    → v ≡ told id
    → Refines r told
    → Refines r (set_at id v told)
Refines-same r told id v e refines other = rw (e, set_at-told id other told) (refines other)

insert-Refines :
    (r : InMemoryRoots) (told : Registry) (id : Text) (o : Opened)
    → Refines r told
    → Refines
        (record {
          roots = insert id (o.path, o.root) r.roots;
          exclusions = insert id (Exclusions.resolve (absolute o.root) o.fs) r.exclusions;
        })
        (set_at id (some o) told)
unfolding exclusions_of
insert-Refines r told id o refines other =
    let at_root = get-insert id other (o.path, o.root) r.roots in
    let at_set = get-insert id other (Exclusions.resolve (absolute o.root) o.fs) r.exclusions in
    elim (Bool-cases (same other id)) [
      | inl here ↦ ground (arith, at_root, at_set, here)
      | inr there ↦ ground (arith, at_root, at_set, there, refines other)
    ]

remove-Refines :
    (r : InMemoryRoots) (told : Registry) (id : Text)
    → Refines r told
    → Refines
        (record { roots = remove id r.roots; exclusions = remove id r.exclusions })
        (set_at id none told)
unfolding exclusions_of
remove-Refines r told id refines other =
    let at_root = get-remove id other r.roots in
    let at_set = get-remove id other r.exclusions in
    elim (Bool-cases (same other id)) [
      | inl here ↦ ground (arith, at_root, at_set, here)
      | inr there ↦ ground (arith, at_root, at_set, there, refines other)
    ]

Result-cases :
    (x : Path.Result Components)
    → ((e : PathRefusal) × (x ≡ Path.err e)) ⊎ ((c : Components) × (x ≡ Path.ok c))
Result-cases (Path.err e) = inl (e, refl)
Result-cases (Path.ok c) = inr (c, refl)

not_told :
    (r : InMemoryRoots) (told : Registry) (id : Text)
    → Refines r told
    → get id r.roots ≡ none
    → told id ≡ none
not_told r told id refines absent = elim (Option-cases (told id)) [
  | inl free ↦ free
  | inr (o, open_as) ↦ absurd (ground (arith, refines id, absent, open_as))
]

stays_told :
    (r : InMemoryRoots) (told : Registry) (id path : Text) (fs : FileSystem)
    (found : Path.Result Components) (held : Text × Components)
    → Refines r told
    → get id r.roots ≡ some held
    → opened path fs found (told id) ≡ told id
stays_told r told id path fs found held refines there = elim (Option-cases (told id)) [
  | inl free ↦ absurd (ground (arith, refines id, there, free))
  | inr (o, open_as) ↦ rw open_as refl
]

register-Refines :
    (components : Text → Components) (disk : Disk) (fs : FileSystem) (id path : Text)
    (r : InMemoryRoots) (told : Registry)
    → Refines r told
    → Refines
        (register components disk fs id path r).0
        (set_at id (opened path fs (canonical_root (components path) disk) (told id)) told)
unfolding register
register-Refines components disk fs id path r told refines =
    let found = canonical_root (components path) disk in
    elim (Option-cases (get id r.roots)) [
      | inr (held, there) ↦
          let kept =
            Refines-same r told id (opened path fs found (told id))
              (stays_told r told id path fs found held refines there) refines in
          elim (Bool-cases (same held.0 path)) [
            | inl again ↦ rw (there, again, register) kept
            | inr other ↦ rw (there, other, register) kept
          ]
      | inl fresh ↦
          let free = not_told r told id refines fresh in
          elim (Result-cases found) [
            | inl (e, unusable) ↦
                rw (fresh, unusable, free, register)
                  (Refines-same r told id none (sym free) refines)
            | inr (root, usable) ↦
                rw (fresh, usable, free, register)
                  (insert-Refines r told id (record { path = path; root = root; fs = fs }) refines)
          ]
    ]

deregister-Refines :
    (id : Text) (r : InMemoryRoots) (told : Registry)
    → Refines r told
    → Refines (deregister id r).0 (set_at id none told)
unfolding deregister
deregister-Refines id r told refines = elim (Option-cases (get id r.roots)) [
  | inl absent ↦
      rw (absent, deregister)
        (Refines-same r told id none (sym (not_told r told id refines absent)) refines)
  | inr (held, there) ↦ rw (there, deregister) (remove-Refines r told id refines)
]

-- In every state that registering and deregistering lead to, with any disks and files, an identity has
-- a root and an exclusion set exactly when it is open: the path and the root with which it was first
-- registered since it was last free, and the set that the files of that very call give for this root.
-- A later registration under an identity that is open changes neither.
pub Reached-Refines : (r : InMemoryRoots) (told : Registry) → Reached r told → Refines r told
unfolding new get exclusions_of
Reached-Refines _ _ at_first = λ id. (refl, refl)
Reached-Refines _ _ (registered {r} {told} components disk fs id path reached) =
    register-Refines components disk fs id path r told (Reached-Refines r told reached)
Reached-Refines _ _ (deregistered {r} {told} id reached) =
    deregister-Refines id r told (Reached-Refines r told reached)
