-- ===== src/Engine/Workspace/Tests.antt =====
-- Runs over one workspace with one file.
use project_apex.Prelude.{ℕ, true, none, some, List, [], ◌∷◌, ◌++◌, codes, if◌then◌else◌}
use project_apex.Prelude.Order.{text_ord}
use project_apex.Engine.Path.{Disk, canonical_root}
use project_apex.Engine.Exclusions.{FileSystem}
use project_apex.Engine.Workspace.{ok, InMemoryRoots, new, register, Files, write_file}
use project_apex.Engine.Workspace.Paired.{at_first, registered, Registry, Refines, Reached-Refines}
use project_apex.Prelude.Map.{same}
use project_apex.Engine.Workspace.Written.{Says, Success, Stale, write_file-Says}

abbrev disk : Disk
disk = record { canonicalize = λ p. some p; is_directory = λ p. some true }

abbrev fs : FileSystem
fs = record { read_range = λ p. none; read_dir = λ p. none; join = λ a b. a ++ b }

abbrev one_root : InMemoryRoots
one_root = (register (λ t. t ∷ []) disk fs (codes "id") (codes "w") new).0

abbrev told : Registry
told other =
    if same other (codes "id")
    then some (record { path = codes "w"; root = codes "w" ∷ []; fs = fs })
    else none

Reached-Refines_example : Refines one_root told
unfolding canonical_root
Reached-Refines_example =
    Reached-Refines one_root told
      (registered (λ t. t ∷ []) disk fs (codes "id") (codes "w") at_first)

-- The world is the content of every file, and a digest is the content.
abbrev files : Files (List ℕ)
files = record { read_all = λ p w. ok w; write_atomic = λ p bytes w. (bytes, ok tt) }

write_file-Says_example :
    Says files
      (λ bytes. bytes)
      (Success files
        (λ bytes. bytes)
        disk
        one_root
        (codes "id")
        (codes "a")
        (codes "new")
        (codes "old")
        (codes "old"))
      (Stale files
        (λ bytes. bytes)
        disk
        one_root
        (codes "id")
        (codes "a")
        (codes "old")
        (codes "old"))
      (codes "old")
      (write_file files
        (λ bytes. bytes)
        disk
        one_root
        (codes "id")
        (codes "a")
        (codes "new")
        (codes "old")
        (codes "old"))
write_file-Says_example =
    write_file-Says files (λ bytes. bytes) disk one_root (codes "id") (codes "a") (codes "new")
      (codes "old") (codes "old")
