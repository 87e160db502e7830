-- ===== src/Client/Reconcile/Tests.antt =====
-- Runs over a world of a store and a host.
use project_apex.Prelude.{
  ℕ, zero, suc, ◌≡◌, refl, true, Option, none, some, List, [], ◌∷◌, arith, if◌then◌else◌, length,
  Text, codes,
}
use Prim.Native.String.{String}
use project_apex.Prelude.Int.{pos}
use project_apex.Prelude.Utf8.{from_utf8}
use project_apex.Prelude.Map
use project_apex.Prelude.Map.{Map, same}
use project_apex.Prelude.Order.{text_ord}
use project_apex.Client.Ports.{
  Result, err, ok, ProviderError, offline, not_found, write_conflict, Sha256, FileChunk,
  PendingEdit, clean, conflict, as_text, Ports,
}
use project_apex.Client.Reconcile.{
  fast_forwarded, merged, conflicted, not_attempted, forgotten, after_write, write, fast_forward,
  combine, merge_texts, against, one, attempt, run_once, is_not_attempted, absent_file_digest,
}
use project_apex.Client.Reconcile.Kept.{Rows, without, IsStore, left, run_once-left}
use project_apex.Client.Reconcile.Landed.{Accounts, one-Accounts}

record World : Type 0 where
  rows : Rows
  host : Map Text (List ℕ)
  writes_left : ℕ

-- A digest that is the content itself, and a host that is lost after some writes.
abbrev chunk_of : List ℕ → FileChunk
chunk_of bytes = record {
  bytes = bytes;
  range = record { offset = 0; length = length bytes };
  total_size = length bytes;
  sha256 = bytes;
}

abbrev read_host : Text → World → World × Result ProviderError FileChunk
read_host path w = elim (Map.get path w.host) [
  | none ↦ (w, err not_found)
  | some bytes ↦ (w, ok (chunk_of bytes))
]

abbrev write_host : Text → List ℕ → Sha256 → World → World × Result ProviderError Unit
write_host path content base w = elim w.writes_left [
  | zero ↦ (w, err offline)
  | suc n ↦ elim (Map.get path w.host) [
    | none ↦ (record w { host = Map.insert path content w.host; writes_left = n }, ok tt)
    | some bytes ↦
        if same bytes base
        then (record w { host = Map.insert path content w.host; writes_left = n }, ok tt)
        else (w, err write_conflict)
  ]
]

abbrev ports : Ports World
ports = record {
  pending_edits = λ w. ok w.rows;
  forget_pending = λ path w. (record w { rows = without path w.rows }, ok tt);
  retain_edit = λ path edit w. (record w { rows = (path, edit) ∷ without path w.rows }, ok tt);
  read_file = read_host;
  write_file = write_host;
  merge = λ base local remote.
      if same base remote
      then clean local
      else if same base local
      then clean remote
      else conflict [];
}

read_host-keeps : (path : Text) (w : World) → (read_host path w).0.rows ≡ w.rows
read_host-keeps path w = ground arith

write_host-keeps :
    (path : Text) (content : List ℕ) (base : Sha256) (w : World)
    → (write_host path content base w).0.rows ≡ w.rows
write_host-keeps path content base w = ground arith

store : IsStore ports (λ w. w.rows)
store = record {
  reads = λ w l e. ground (arith, e);
  read_file_keeps = read_host-keeps;
  write_file_keeps = write_host-keeps;
  forgets = λ path w. refl;
}

abbrev edit_of : String → Option String → PendingEdit
edit_of content base = record {
  content = codes content;
  base = elim base [ none ↦ none | some b ↦ some (codes b, codes b) ];
  mergeable = true;
  retained_at = pos 0;
}

-- One file as its base, one moved on both sides, one made while offline, one that comes too late.
abbrev world : World
world = record {
  rows =
      (codes "a", edit_of "new" (some "old"))
      ∷ (codes "b", edit_of "mine" (some "base"))
      ∷ (codes "c", edit_of "made" none)
      ∷ (codes "d", edit_of "late" (some "was"))
      ∷ (codes "e", edit_of "later" (some "was"))
      ∷ [];
  host =
      (codes "a", codes "old")
      ∷ (codes "b", codes "theirs")
      ∷ (codes "d", codes "was")
      ∷ (codes "e", codes "was")
      ∷ [];
  writes_left = 2;
}

run_once-left_example : (run_once ports world).0.rows ≡ left (run_once ports world).1 world.rows
run_once-left_example = run_once-left ports (λ w. w.rows) store world

one-Accounts_example :
    Accounts ports
      (codes "a")
      (edit_of "new" (some "old"))
      world
      (one ports (codes "a") (edit_of "new" (some "old")) world)
one-Accounts_example = one-Accounts ports (codes "a") (edit_of "new" (some "old")) world

report :
    (run_once ports world).1
    ≡ (codes "a", fast_forwarded)
      ∷ (codes "b", conflicted)
      ∷ (codes "c", merged)
      ∷ (codes "d", not_attempted)
      ∷ (codes "e", not_attempted)
      ∷ []
unfolding run_once attempt one against merge_texts combine fast_forward write after_write forgotten
    is_not_attempted absent_file_digest as_text from_utf8 same Map.get Map.insert
report = refl
