-- ===== src/Engine/Reading/Tests.antt =====
-- A file of three bytes in two ranges.
use project_apex.Prelude.{ℕ, ◌≡◌, refl, false, some, List, [], ◌∷◌, arith, All, take, drop}
use project_apex.Prelude.Int.{pos}
use project_apex.Protocol.Base64
use project_apex.Protocol.Base64.{decode}
use project_apex.Engine.Workspace.{ok}
use project_apex.Engine.Reading.{Reader, RawMeta, ReadFileResult}
use project_apex.Engine.Reading.Ranges.{read_ranges, contents, read_ranges-rebuild}

abbrev three : List ℕ
three = 7 ∷ 0 ∷ 255 ∷ []

abbrev meta : RawMeta
meta = record { is_directory = false; size = 3; modified = pos 0 }

abbrev disk : Reader
disk = record { metadata = λ p. ok meta; read_range = λ p at n. ok (take n (drop at three)) }

read_ranges-rebuild_example :
    (rs : List ReadFileResult) × (read_ranges disk (λ bytes. bytes) [] 0 (2 ∷ 2 ∷ []) ≡ some rs)
    × (contents rs ≡ Base64.ok three)
    × All (λ (r : ReadFileResult). r.sha256 ≡ three) rs
read_ranges-rebuild_example =
    read_ranges-rebuild disk (λ bytes. bytes) [] three meta refl (λ at n. refl) (omega arith)
      (2 ∷ 2 ∷ []) (omega arith, (omega arith, (omega arith, tt))) (omega arith, (omega arith, tt))
      (omega arith)
