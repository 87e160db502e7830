-- ===== src/Client/Ports.antt =====
-- client/core/src/application/ports: what the use cases ask of the host, the local store and the
-- merge, for one workspace. `W` is the state of the world behind them, which a call may change.
use project_apex.Prelude.{
  ℕ, Bool, true, ◌&&◌, ◌||◌, Option, none, some, List, [], ◌∷◌, ◌++◌, leb, ◌==◌, if◌then◌else◌,
  length, Text, codes, ◌≡◌, ◌⊎◌, inl, inr, refl,
}
use project_apex.Prelude.Int.{ℤ}
use project_apex.Prelude.Decimal.{decimal}
use project_apex.Prelude.Utf8.{from_utf8}

pub data Result (E A : Type 0) : Type 0 where
  err : E → Result E A
  ok : A → Result E A

pub Result-cases :
    {E A : Type 0} (r : Result E A) → ((e : E) × (r ≡ err e)) ⊎ ((a : A) × (r ≡ ok a))
Result-cases (err e) = inl (e, refl)
Result-cases (ok a) = inr (a, refl)

pub data Owner : Type 0 where
  file_watch editor search local_mode : Owner

pub data ProviderError : Type 0 where
  not_found refused unknown_workspace workspace_gone offline : ProviderError
  too_large : ℕ → ProviderError
  transport : Text → ProviderError
  task_not_found task_already_running : ProviderError
  command_not_started : Text → ProviderError
  write_conflict : ProviderError
  unsupported : Owner → ProviderError

unfoldable pub owner_name : Owner → Text
owner_name file_watch = codes "F004 file-watch-sync"
owner_name editor = codes "F006 editor-integration"
owner_name search = codes "F013 global-search"
owner_name local_mode = codes "F015 local-mode"

-- `to_string`
unfoldable pub message : ProviderError → Text
message not_found = codes "no such file or directory"
message refused = codes "path refused: outside the workspace root"
message unknown_workspace = codes "workspace is not registered with the engine"
message workspace_gone = codes "the workspace root no longer exists"
message offline = codes "not connected"
message write_conflict = codes "the file changed on the host since it was read"
message task_not_found = codes "no task with that identity is running"
message task_already_running = codes "a task with that identity is already running"
message (command_not_started reason) = codes "the command could not be started: " ++ reason
message (too_large size) = decimal size ++ codes " bytes exceeds the inline read limit"
message (transport why) = codes "transport: " ++ why
message (unsupported owner) = codes "not implemented here; " ++ owner_name owner ++ codes " owns it"

pub data CacheError : Type 0 where
  store : Text → CacheError
  schema_mismatch : ℕ → ℕ → CacheError

unfoldable pub cache_message : CacheError → Text
cache_message (store why) = codes "cache store: " ++ why
cache_message (schema_mismatch found expected) =
    codes "cache schema v" ++ decimal found ++ codes ", this build reads v" ++ decimal expected

-- A digest is its text, 64 hexadecimal digits.
abbrev pub Sha256 : Type 0
Sha256 = Text

unfoldable pub is_hex : ℕ → Bool
is_hex b = (leb 48 b && leb b 57) || (leb 97 b && leb b 102)

unfoldable pub all_hex : Text → Bool
all_hex [] = true
all_hex (b ∷ text) = is_hex b && all_hex text

-- `Sha256::parse`
unfoldable pub parse : Text → Option Sha256
parse s = if length s == 64 && all_hex s then some s else none

pub record ByteRange : Type 0 where
  pub offset : ℕ
  pub length : ℕ

pub record FileChunk : Type 0 where
  pub bytes : List ℕ
  pub range : ByteRange
  pub total_size : ℕ
  pub sha256 : Sha256

pub record PendingEdit : Type 0 where
  pub content : List ℕ
  pub base : Option (List ℕ × Sha256)
  pub mergeable : Bool
  pub retained_at : ℤ

pub data MergeOutcome : Type 0 where
  clean conflict : Text → MergeOutcome

-- `str::from_utf8`: the bytes, when they are a text.
unfoldable pub as_text : List ℕ → Option Text
as_text bytes = elim (from_utf8 bytes) [ none ↦ none | some _ ↦ some bytes ]

-- `read_file` reads the whole file. `write_file` takes the content and the digest that the host must
-- still hold; what it answers on success is not looked at.
pub record Ports (W : Type 0) : Type 0 where
  pub pending_edits : W → Result CacheError (List (Text × PendingEdit))
  pub forget_pending : Text → W → W × Result CacheError Unit
  pub retain_edit : Text → PendingEdit → W → W × Result CacheError Unit
  pub read_file : Text → W → W × Result ProviderError FileChunk
  pub write_file : Text → List ℕ → Sha256 → W → W × Result ProviderError Unit
  pub merge : Text → Text → Text → MergeOutcome
