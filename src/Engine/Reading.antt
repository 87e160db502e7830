-- ===== src/Engine/Reading.antt =====
-- engine/src/application/use_cases/workspace.rs: the metadata of a path and a read of a range. The file
-- system is a parameter, which answers as at one moment, and so is the digest.
pub mod Ranges
mod Tests
use project_apex.Prelude.{
  ℕ, zero, suc, ◌+◌, ◌-◌, ◌*◌, ◌/◌, ◌%◌, ◌^◌, ◌≤◌, ◌<◌, ◌≡◌, refl, sym, ap, ◌∙◌, ◌≢◌, ◌↔◌, ◌⊎◌, inl,
  inr, Bool, true, false, not, ◌&&◌, ◌||◌, Option, none, some, List, [], ◌∷◌, ◌++◌, map, append-nil,
  append_assoc, arith, ltb, leb, ◌==◌, if◌then◌else◌, Bool-cases, Option-cases, length,
  length-append, All, All-append, Text, codes,
}
use project_apex.Prelude.Int.{ℤ}
use project_apex.Protocol.Base64.{encode}
use project_apex.Engine.Path.{Components}
use project_apex.Engine.Listing.{EntryKind, file, directory}
use project_apex.Engine.Workspace.{Result, err, ok}

abbrev pub max_inline_read : ℕ
max_inline_read = 512 * 1024

abbrev pub u64_max : ℕ
u64_max = 2 ^ 64 - 1

pub record RawMeta : Type 0 where
  pub is_directory : Bool
  pub size : ℕ
  pub modified : ℤ

-- What a file system answers, with the texts of its errors.
pub record Reader : Type 0 where
  pub metadata : Components → Result Text RawMeta
  pub read_range : Components → ℕ → ℕ → Result Text (List ℕ)

pub record StatResult : Type 0 where
  pub kind : EntryKind
  pub size : ℕ
  pub modified : ℤ
  pub sha256 : Option Text

pub record ReadFileResult : Type 0 where
  pub content : Text
  pub encoding : Text
  pub sha256 : Text
  pub total_size : ℕ

pub data ReadRefusal : Type 0 where
  too_large : ℕ → ReadRefusal

abbrev default : ℕ → Option ℕ → ℕ
default d none = d
default d (some n) = n

module _ (fs : Reader) (hex_digest : List ℕ → Text) where
  unfoldable pub stat : Components → Result Text StatResult
  stat path = elim (fs.metadata path) [
    | err why ↦ err why
    | ok m ↦ elim m.is_directory [
      | true ↦ ok (record { kind = directory; size = m.size; modified = m.modified; sha256 = none })
      | false ↦ elim (fs.read_range path 0 u64_max) [
        | err why ↦ err why
        | ok bytes ↦ ok (record {
          kind = file;
          size = m.size;
          modified = m.modified;
          sha256 = some (hex_digest bytes);
        })
      ]
    ]
  ]

  -- The read below the threshold: the range, and the whole for its digest.
  unfoldable pub read_inline :
      Components → ℕ → ℕ → ℕ → Result Text (Result ReadRefusal ReadFileResult)
  read_inline path size offset requested = elim (fs.read_range path offset requested) [
    | err why ↦ err why
    | ok bytes ↦ elim (fs.read_range path 0 u64_max) [
      | err why ↦ err why
      | ok whole ↦ ok (
          ok (record {
            content = encode bytes;
            encoding = codes "base64";
            sha256 = hex_digest whole;
            total_size = size;
          }))
    ]
  ]

  unfoldable pub read_file :
      Components → Option ℕ → Option ℕ → Result Text (Result ReadRefusal ReadFileResult)
  read_file path offset len = elim (fs.metadata path) [
    | err why ↦ err why
    | ok m ↦
        let from = default 0 offset in
        let requested = default (m.size - from) len in
        elim (ltb max_inline_read requested) [
          | true ↦ ok (err (too_large m.size))
          | false ↦ read_inline path m.size from requested
        ]
  ]
