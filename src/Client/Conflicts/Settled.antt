-- ===== src/Client/Conflicts/Settled.antt =====
-- What a settled conflict rests on.
use project_apex.Prelude.{
  ℕ, ◌≡◌, refl, sym, inl, inr, false, Option, some, List, arith, Bool-cases, Option-cases, Text,
}
use mathlib.Core.Path.{subst}
use project_apex.Client.Ports.{
  Result, Result-cases, err, ok, ProviderError, offline, not_found, write_conflict, refused,
  unknown_workspace, workspace_gone, too_large, transport, task_not_found, task_already_running,
  command_not_started, unsupported, CacheError, Sha256, PendingEdit, Ports,
}
use project_apex.Client.Reconcile.Landed.{Confirmed}
use project_apex.Client.Conflicts
use project_apex.Client.Conflicts.{
  Resolution, text, keep_local, take_remote, ResolveOutcome, resolved, conflicted, not_attempted,
  failed, carries_markers, find_edit, forget, forget_answer, or_absent, after_write, send, settle,
  resolve,
}

module _ {W : Type 0} (ports : Ports W) where
  -- The write of some content in the place of what was shown, confirmed.
  abbrev pub Sent : Text → List ℕ → Option Sha256 → W → W → Type 0
  Sent path content seen w w' = Confirmed ports path content (or_absent seen) w w'

  -- What was done for a choice.
  abbrev pub Done : Text → PendingEdit → Resolution → Option Sha256 → W → W → Type 0
  Done path edit take_remote seen w w' = ports.forget_pending path w ≡ (w', ok tt)
  Done path edit keep_local seen w w' = Sent path edit.content seen w w'
  Done path edit (text t) seen w w' = (carries_markers t ≡ false) × Sent path t seen w w'

  -- A success says that it was done, a refusal that nothing was.
  abbrev pub Answers : (W → Type 0) → W → W × ResolveOutcome → Type 0
  Answers P w (w', resolved) = P w'
  Answers P w (w', Conflicts.refused why) = w' ≡ w
  Answers P w (w', conflicted) = Unit
  Answers P w (w', not_attempted) = Unit
  Answers P w (w', failed why) = Unit

  forget_answer-Answers :
      (P : W → Type 0) (w : W) (r : W × Result CacheError Unit)
      → ((w' : W) → r ≡ (w', ok tt) → P w')
      → Answers P w (forget_answer ports r)
  forget_answer-Answers P w (w', ok _) f = f w' refl
  forget_answer-Answers P w (w', err e) f = tt

  after_write-Answers :
      (path : Text) (content : List ℕ) (seen : Option Sha256) (w : W)
      (r : W × Result ProviderError Unit)
      → ports.write_file path content (or_absent seen) w ≡ r
      → Answers (Sent path content seen w) w (after_write ports path r)
  unfolding after_write forget
  after_write-Answers path content seen w (w1, ok _) h =
      forget_answer-Answers (Sent path content seen w) w (ports.forget_pending path w1)
        (λ w' e. (w1, h, e))
  after_write-Answers path content seen w (w1, err offline) h = tt
  after_write-Answers path content seen w (w1, err write_conflict) h = tt
  after_write-Answers path content seen w (w1, err not_found) h = tt
  after_write-Answers path content seen w (w1, err refused) h = tt
  after_write-Answers path content seen w (w1, err unknown_workspace) h = tt
  after_write-Answers path content seen w (w1, err workspace_gone) h = tt
  after_write-Answers path content seen w (w1, err (too_large n)) h = tt
  after_write-Answers path content seen w (w1, err (transport why)) h = tt
  after_write-Answers path content seen w (w1, err task_not_found) h = tt
  after_write-Answers path content seen w (w1, err task_already_running) h = tt
  after_write-Answers path content seen w (w1, err (command_not_started why)) h = tt
  after_write-Answers path content seen w (w1, err (unsupported owner)) h = tt

  send-Answers :
      (path : Text) (content : List ℕ) (seen : Option Sha256) (w : W)
      → Answers (Sent path content seen w) w (send ports path content seen w)
  unfolding send
  send-Answers path content seen w =
      after_write-Answers path content seen w (ports.write_file path content (or_absent seen) w)
        refl

  Answers-map :
      (P Q : W → Type 0) (w : W) (r : W × ResolveOutcome)
      → ((w' : W) → P w' → Q w')
      → Answers P w r
      → Answers Q w r
  Answers-map P Q w (w', resolved) f h = f w' h
  Answers-map P Q w (w', Conflicts.refused why) f h = h
  Answers-map P Q w (w', conflicted) f h = tt
  Answers-map P Q w (w', not_attempted) f h = tt
  Answers-map P Q w (w', failed why) f h = tt

  settle-Answers :
      (path : Text) (edit : PendingEdit) (choice : Resolution) (seen : Option Sha256) (w : W)
      → Answers (Done path edit choice seen w) w (settle ports path edit choice seen w)
  unfolding settle forget
  settle-Answers path edit take_remote seen w =
      forget_answer-Answers _ w (ports.forget_pending path w) (λ w' e. e)
  settle-Answers path edit keep_local seen w = send-Answers path edit.content seen w
  settle-Answers path edit (text t) seen w = elim (Bool-cases (carries_markers t)) [
    | inl marked ↦ rw (marked, settle) refl
    | inr clear ↦
        rw (clear, settle)
          (Answers-map (Sent path t seen w) (Done path edit (text t) seen w) w
            (send ports path t seen w) (λ w' sent. (clear, sent)) (send-Answers path t seen w))
  ]

  -- The retained work of the path.
  abbrev pub Holds : Text → W → PendingEdit → Type 0
  Holds path w edit =
      (rows : List (Text × PendingEdit)) × (ports.pending_edits w ≡ ok rows)
      × (find_edit path rows ≡ some edit)

  resolve_of_held :
      (path : Text) (edit : PendingEdit) (rows : List (Text × PendingEdit)) (choice : Resolution)
      (seen : Option Sha256) (w : W)
      → ports.pending_edits w ≡ ok rows
      → find_edit path rows ≡ some edit
      → resolve ports path choice seen w ≡ settle ports path edit choice seen w
  unfolding resolve
  resolve_of_held path edit rows choice seen w read held = ground (arith, read, held)

  abbrev pub Settled : Text → Resolution → Option Sha256 → W → W → Type 0
  Settled path choice seen w w' =
      (edit : PendingEdit) × Holds path w edit × Done path edit choice seen w w'

  -- When a conflict is reported as settled there was retained work for the path, and either the
  -- host's side was taken and the work forgotten, or the work, or the given text without markers, was
  -- written in the place of exactly what the developer was shown, confirmed by the host before the
  -- work was forgotten. A refusal leaves everything as it was.
  pub resolve_conflict-Answers :
      (path : Text) (choice : Resolution) (seen : Option Sha256) (w : W)
      → Answers (Settled path choice seen w) w (resolve ports path choice seen w)
  unfolding resolve
  resolve_conflict-Answers path choice seen w = elim (Result-cases (ports.pending_edits w)) [
    | inl (e, unread) ↦ rw (resolve, unread) tt
    | inr (rows, read) ↦ elim (Option-cases (find_edit path rows)) [
      | inl absent ↦ rw (resolve, read, absent) refl
      | inr (edit, held) ↦
          subst (Answers (Settled path choice seen w) w)
            (sym (resolve_of_held path edit rows choice seen w read held))
            (Answers-map (Done path edit choice seen w) (Settled path choice seen w) w
              (settle ports path edit choice seen w) (λ w' done. (edit, (rows, read, held), done))
              (settle-Answers path edit choice seen w))
    ]
  ]
