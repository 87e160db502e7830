-- ===== src/Client/Reconcile/Kept.antt =====
-- The retained work that a run leaves.
use project_apex.Prelude.{
  ℕ, ◌≡◌, refl, sym, ap, ◌∙◌, inl, inr, Bool, true, false, not, ◌&&◌, ◌||◌, Option, none, some,
  List, [], ◌∷◌, arith, if◌then◌else◌, Bool-cases, Option-cases, Text, filter,
}
use project_apex.Prelude.Map.{same}
use project_apex.Prelude.Order.{text_ord}
use project_apex.Client.Ports.{
  Result-cases, Result, err, ok, ProviderError, offline, not_found, write_conflict, refused,
  unknown_workspace, workspace_gone, too_large, transport, task_not_found, task_already_running,
  command_not_started, unsupported, CacheError, Sha256, FileChunk, PendingEdit, MergeOutcome, clean,
  conflict, as_text, Ports,
}
use project_apex.Client.Reconcile.{
  Outcome, fast_forwarded, merged, conflicted, not_attempted, failed, Report, is_not_attempted,
  forgotten, after_write, write, fast_forward, combine, merge_texts, against, one, attempt,
  run_once, absent_file_digest,
}

abbrev pub Rows : Type 0
Rows = List (Text × PendingEdit)

abbrev pub without : Text → Rows → Rows
without path rows = filter (λ (r : Text × PendingEdit). not (same r.0 path)) rows

abbrev pub after_forget : {E : Type 0} → Text → Result E Unit → Rows → Rows
after_forget path (ok _) rows = without path rows
after_forget path (err e) rows = rows

-- The store answers with its rows, the host does not touch them, and forgetting a path drops its
-- rows when it succeeds, and nothing when it fails.
pub record IsStore {W : Type 0} (ports : Ports W) (rows : W → Rows) : Type 0 where
  pub reads : (w : W) (l : Rows) → ports.pending_edits w ≡ ok l → l ≡ rows w
  pub read_file_keeps : (path : Text) (w : W) → rows (ports.read_file path w).0 ≡ rows w
  pub write_file_keeps :
      (path : Text) (content : List ℕ) (base : Sha256) (w : W)
      → rows (ports.write_file path content base w).0 ≡ rows w
  pub forgets :
      (path : Text) (w : W)
      → rows (ports.forget_pending path w).0
        ≡ after_forget path (ports.forget_pending path w).1 (rows w)

unfoldable pub is_landed : Outcome → Bool
is_landed fast_forwarded = true
is_landed merged = true
is_landed conflicted = false
is_landed not_attempted = false
is_landed (failed why) = false

-- Whether a report says that the host has the work of a path.
unfoldable pub has_landed : Text → Report → Bool
has_landed path [] = false
has_landed path (f ∷ files) = (is_landed f.1 && same path f.0) || has_landed path files

abbrev pub left : Report → Rows → Rows
left report rows = filter (λ (r : Text × PendingEdit). not (has_landed r.0 report)) rows

abbrev dropped : Text → Outcome → Rows → Rows
dropped path o rows = if is_landed o then without path rows else rows

left-dropped :
    (path : Text) (o : Outcome) (files : Report) (rows : Rows)
    → left files (dropped path o rows) ≡ left ((path, o) ∷ files) rows
unfolding has_landed
left-dropped path o files [] = ground arith
left-dropped path o files (r ∷ rows) = ground (arith, left-dropped path o files rows)

left_of_none : (rows : Rows) → left [] rows ≡ rows
unfolding has_landed
left_of_none [] = refl
left_of_none (r ∷ rows) = ap (◌∷◌ r) (left_of_none rows)

module _ {W : Type 0} (ports : Ports W) (rows : W → Rows) (store : IsStore ports rows) where
  -- The rows after one file, by what became of it.
  abbrev Drops : Text → W → W × Outcome → Type 0
  Drops path w r = rows r.0 ≡ dropped path r.1 (rows w)

  forgotten-Drops :
      (path : Text) (w : W) (r : W × Result CacheError Unit)
      → rows r.0 ≡ after_forget path r.1 (rows w)
      → Drops path w (forgotten ports r)
  unfolding forgotten is_landed
  forgotten-Drops path w (w', ok _) h = h
  forgotten-Drops path w (w', err e) h = h

  after_write-Drops :
      (path : Text) (w : W) (r : W × Result ProviderError Unit)
      → rows r.0 ≡ rows w
      → Drops path w (after_write ports path r)
  unfolding after_write is_landed
  after_write-Drops path w (w', ok _) h =
      forgotten-Drops path w (ports.forget_pending path w')
        (store.forgets path w' ∙ ap (after_forget path (ports.forget_pending path w').1) h)
  after_write-Drops path w (w', err offline) h = h
  after_write-Drops path w (w', err write_conflict) h = h
  after_write-Drops path w (w', err not_found) h = h
  after_write-Drops path w (w', err refused) h = h
  after_write-Drops path w (w', err unknown_workspace) h = h
  after_write-Drops path w (w', err workspace_gone) h = h
  after_write-Drops path w (w', err (too_large n)) h = h
  after_write-Drops path w (w', err (transport why)) h = h
  after_write-Drops path w (w', err task_not_found) h = h
  after_write-Drops path w (w', err task_already_running) h = h
  after_write-Drops path w (w', err (command_not_started why)) h = h
  after_write-Drops path w (w', err (unsupported owner)) h = h

  write-Drops :
      (path : Text) (content : List ℕ) (base : Option Sha256) (w w' : W)
      → rows w' ≡ rows w
      → Drops path w (write ports path content base w')
  unfolding write
  write-Drops path content none w w' h =
      after_write-Drops path w (ports.write_file path content absent_file_digest w')
        (store.write_file_keeps path content absent_file_digest w' ∙ h)
  write-Drops path content (some base) w w' h =
      after_write-Drops path w (ports.write_file path content base w')
        (store.write_file_keeps path content base w' ∙ h)

  fast_forward-Drops :
      (path : Text) (w : W) (r : W × Outcome) → Drops path w r → Drops path w (fast_forward ports r)
  unfolding fast_forward is_landed
  fast_forward-Drops path w (w', merged) h = h
  fast_forward-Drops path w (w', fast_forwarded) h = h
  fast_forward-Drops path w (w', conflicted) h = h
  fast_forward-Drops path w (w', not_attempted) h = h
  fast_forward-Drops path w (w', failed why) h = h

  combine-Drops :
      (path : Text) (base : Sha256) (m : MergeOutcome) (w w' : W)
      → rows w' ≡ rows w
      → Drops path w (combine ports path base m w')
  unfolding combine is_landed
  combine-Drops path base (clean text) w w' h = write-Drops path text (some base) w w' h
  combine-Drops path base (conflict text) w w' h = h

  merge_texts-Drops :
      (path : Text) (base content : List ℕ) (remote : FileChunk) (w w' : W)
      → rows w' ≡ rows w
      → Drops path w (merge_texts ports path base content remote w')
  unfolding merge_texts is_landed
  merge_texts-Drops path base content remote w w' h = elim (Option-cases (as_text base)) [
    | inl not_text ↦ rw (merge_texts, not_text) h
    | inr (b, eb) ↦ elim (Option-cases (as_text content)) [
      | inl not_text ↦ rw (merge_texts, eb, not_text) h
      | inr (l, el) ↦ elim (Option-cases (as_text remote.bytes)) [
        | inl not_text ↦ rw (merge_texts, eb, el, not_text) h
        | inr (r, er) ↦
            rw (merge_texts, eb, el, er)
              (combine-Drops path remote.sha256 (ports.merge b l r) w w' h)
      ]
    ]
  ]

  against-Drops :
      (path : Text) (edit : PendingEdit) (base : List ℕ × Sha256) (w : W)
      (r : W × Result ProviderError FileChunk)
      → rows r.0 ≡ rows w
      → Drops path w (against ports path edit base r)
  unfolding against is_landed
  against-Drops path edit base w (w', ok remote) h = elim (Bool-cases (same remote.sha256 base.1)) [
    | inl unmoved ↦
        rw (unmoved, against)
          (fast_forward-Drops path w _ (write-Drops path edit.content (some base.1) w w' h))
    | inr moved ↦ rw (moved, against) (merge_texts-Drops path base.0 edit.content remote w w' h)
  ]
  against-Drops path edit base w (w', err offline) h = h
  against-Drops path edit base w (w', err write_conflict) h = h
  against-Drops path edit base w (w', err not_found) h = h
  against-Drops path edit base w (w', err refused) h = h
  against-Drops path edit base w (w', err unknown_workspace) h = h
  against-Drops path edit base w (w', err workspace_gone) h = h
  against-Drops path edit base w (w', err (too_large n)) h = h
  against-Drops path edit base w (w', err (transport why)) h = h
  against-Drops path edit base w (w', err task_not_found) h = h
  against-Drops path edit base w (w', err task_already_running) h = h
  against-Drops path edit base w (w', err (command_not_started why)) h = h
  against-Drops path edit base w (w', err (unsupported owner)) h = h

  one-Drops : (path : Text) (edit : PendingEdit) (w : W) → Drops path w (one ports path edit w)
  unfolding one is_landed
  one-Drops path edit w = elim (Bool-cases edit.mergeable) [
    | inr asks ↦ rw (one, asks) refl
    | inl merges ↦ elim (Option-cases edit.base) [
      | inl created ↦ rw (one, merges, created) (write-Drops path edit.content none w w refl)
      | inr (base, had) ↦
          rw (one, merges, had)
            (against-Drops path edit base w (ports.read_file path w) (store.read_file_keeps path w))
    ]
  ]

  attempt-rows :
      (pending : Rows) (lost : Bool) (w : W)
      → rows (attempt ports pending lost w).0 ≡ left (attempt ports pending lost w).1 (rows w)
  unfolding attempt is_landed
  attempt-rows [] lost w = sym (left_of_none (rows w))
  attempt-rows ((path, edit) ∷ rest) true w =
      attempt-rows rest true w
      ∙ left-dropped path not_attempted (attempt ports rest true w).1 (rows w)
  attempt-rows ((path, edit) ∷ rest) false w =
      let now = one ports path edit w in
      attempt-rows rest (is_not_attempted now.1) now.0
      ∙ ap (left (attempt ports rest (is_not_attempted now.1) now.0).1) (one-Drops path edit w)
      ∙ left-dropped path now.1 (attempt ports rest (is_not_attempted now.1) now.0).1 (rows w)

  -- With a store as documented, a run drops the retained work of exactly the paths that its report
  -- says were written, whatever the host, the store and the merge answer.
  pub run_once-left : (w : W) → rows (run_once ports w).0 ≡ left (run_once ports w).1 (rows w)
  unfolding run_once has_landed is_landed
  run_once-left w = elim (Result-cases (ports.pending_edits w)) [
    | inl (e, unread) ↦ rw (run_once, unread) (sym (left_of_none (rows w)))
    | inr (l, read) ↦ rw (run_once, read) (attempt-rows l false w)
  ]
