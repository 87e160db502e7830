-- ===== src/Client/Reconcile.antt =====
-- client/core/src/application/use_cases/reconcile.rs and retain_edit.rs: what the host has not seen
-- is kept, and sent once the connection returns.
pub mod Kept
pub mod Landed
pub mod Report
mod Tests
use project_apex.Prelude.{
  ℕ, zero, suc, ◌+◌, ◌-◌, ◌*◌, ◌/◌, ◌%◌, ◌^◌, ◌≤◌, ◌<◌, ◌≡◌, refl, sym, ap, ◌∙◌, ◌≢◌, ◌↔◌, ◌⊎◌, inl,
  inr, Bool, true, false, not, ◌&&◌, ◌||◌, Option, none, some, List, [], ◌∷◌, ◌++◌, map, append-nil,
  append_assoc, arith, ltb, leb, ◌==◌, if◌then◌else◌, Bool-cases, Option-cases, length,
  length-append, All, All-append, Text, codes, replicate,
}
use project_apex.Prelude.Int.{ℤ}
use project_apex.Prelude.Map.{same}
use project_apex.Prelude.Order.{text_ord}
use project_apex.Client.Ports.{
  Result, err, ok, ProviderError, offline, not_found, write_conflict, message, CacheError,
  cache_message, Sha256, FileChunk, PendingEdit, MergeOutcome, clean, conflict, as_text, Ports,
}

pub data Outcome : Type 0 where
  fast_forwarded merged conflicted not_attempted : Outcome
  failed : Text → Outcome

unfoldable pub is_conflicted : Outcome → Bool
is_conflicted fast_forwarded = false
is_conflicted merged = false
is_conflicted conflicted = true
is_conflicted not_attempted = false
is_conflicted (failed why) = false

unfoldable pub is_not_attempted : Outcome → Bool
is_not_attempted fast_forwarded = false
is_not_attempted merged = false
is_not_attempted conflicted = false
is_not_attempted not_attempted = true
is_not_attempted (failed why) = false

abbrev pub Report : Type 0
Report = List (Text × Outcome)

unfoldable pub has_conflicts : Report → Bool
has_conflicts [] = false
has_conflicts (f ∷ files) = is_conflicted f.1 || has_conflicts files

-- The root of the workspace, under which a store that cannot be read is reported.
abbrev pub root : Text
root = codes "/"

unfoldable pub absent_file_digest : Sha256
absent_file_digest = replicate 64 48

module _ {W : Type 0} (ports : Ports W) where
  -- The answer of the host to a write, and of the store to the forgetting that follows.
  unfoldable pub forgotten : W × Result CacheError Unit → W × Outcome
  forgotten (w, ok _) = (w, merged)
  forgotten (w, err e) =
      (w, failed (codes "written, but the local row remains: " ++ cache_message e))

  unfoldable pub after_write : Text → W × Result ProviderError Unit → W × Outcome
  after_write path (w, ok _) = forgotten (ports.forget_pending path w)
  after_write path (w, err offline) = (w, not_attempted)
  after_write path (w, err write_conflict) = (w, conflicted)
  after_write path (w, err e) = (w, failed (message e))

  unfoldable pub write : Text → List ℕ → Option Sha256 → W → W × Outcome
  write path content none w = after_write path (ports.write_file path content absent_file_digest w)
  write path content (some base) w = after_write path (ports.write_file path content base w)

  -- A write of the unmoved content is reported as what it is.
  unfoldable pub fast_forward : W × Outcome → W × Outcome
  fast_forward (w, merged) = (w, fast_forwarded)
  fast_forward (w, o) = (w, o)

  unfoldable pub combine : Text → Sha256 → MergeOutcome → W → W × Outcome
  combine path base (clean text) w = write path text (some base) w
  combine path base (conflict text) w = (w, conflicted)

  -- The host has moved: three texts, or a question.
  unfoldable pub merge_texts : Text → List ℕ → List ℕ → FileChunk → W → W × Outcome
  merge_texts path base content remote w = elim (as_text base) [
    | none ↦ (w, conflicted)
    | some b ↦ elim (as_text content) [
      | none ↦ (w, conflicted)
      | some l ↦ elim (as_text remote.bytes) [
        | none ↦ (w, conflicted)
        | some r ↦ combine path remote.sha256 (ports.merge b l r) w
      ]
    ]
  ]

  -- What is done with the file as the host holds it.
  unfoldable pub against :
      Text → PendingEdit → List ℕ × Sha256 → W × Result ProviderError FileChunk → W × Outcome
  against path edit base (w, err offline) = (w, not_attempted)
  against path edit base (w, err not_found) = (w, conflicted)
  against path edit base (w, err e) = (w, failed (message e))
  against path edit base (w, ok remote) =
      if same remote.sha256 base.1
      then fast_forward (write path edit.content (some base.1) w)
      else merge_texts path base.0 edit.content remote w

  -- One file.
  unfoldable pub one : Text → PendingEdit → W → W × Outcome
  one path edit w = elim edit.mergeable [
    | false ↦ (w, conflicted)
    | true ↦ elim edit.base [
      | none ↦ write path edit.content none w
      | some base ↦ against path edit base (ports.read_file path w)
    ]
  ]

  -- The loop over the files, and whether the connection was lost.
  unfoldable pub attempt : List (Text × PendingEdit) → Bool → W → W × Report
  attempt [] lost w = (w, [])
  attempt ((path, edit) ∷ rest) true w =
      let (w', files) = attempt rest true w in (w', (path, not_attempted) ∷ files)
  attempt ((path, edit) ∷ rest) false w =
      let (w1, outcome) = one path edit w in
      let (w2, files) = attempt rest (is_not_attempted outcome) w1 in (w2, (path, outcome) ∷ files)

  unfoldable pub run_once : W → W × Report
  run_once w = elim (ports.pending_edits w) [
    | err e ↦ (w, (root, failed (cache_message e)) ∷ [])
    | ok pending ↦ attempt pending false w
  ]

  -- `run`, with the flag that says whether a run is in flight.
  unfoldable pub run : Bool → W → W × (Bool × Report)
  run true w = (w, (true, []))
  run false w = let (w', report) = run_once w in (w', (false, report))

  -- `RetainEdit::save`
  unfoldable pub save :
      Text → List ℕ → Option (List ℕ × Sha256) → Bool → ℤ → W → W × Result CacheError Unit
  save path content base mergeable now w =
      ports.retain_edit path
        (record { content = content; base = base; mergeable = mergeable; retained_at = now }) w
