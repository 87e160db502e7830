-- ===== src/Client/Reconcile/Landed.antt =====
-- What a report of success rests on.
use project_apex.Prelude.{
  ℕ, ◌≡◌, refl, sym, ◌⊎◌, inl, inr, true, false, none, some, List, arith, Bool-cases, Option-cases,
  Text,
}
use mathlib.Core.Path.{subst}
use project_apex.Prelude.Map.{same, same_eq}
use project_apex.Prelude.Order.{text_ord}
use project_apex.Client.Ports.{
  Result, err, ok, ProviderError, offline, not_found, write_conflict, refused, unknown_workspace,
  workspace_gone, too_large, transport, task_not_found, task_already_running, command_not_started,
  unsupported, CacheError, Sha256, FileChunk, PendingEdit, MergeOutcome, clean, conflict, as_text,
  Ports,
}
use project_apex.Client.Reconcile.{
  Outcome, fast_forwarded, merged, conflicted, not_attempted, failed, forgotten, after_write, write,
  fast_forward, combine, merge_texts, against, one, absent_file_digest,
}

module _ {W : Type 0} (ports : Ports W) where
  -- The host took the content while it still held the base, and the store forgot the path.
  abbrev pub Confirmed : Text → List ℕ → Sha256 → W → W → Type 0
  Confirmed path content base w w' =
      (w1 : W) × (ports.write_file path content base w ≡ (w1, ok tt))
      × (ports.forget_pending path w1 ≡ (w', ok tt))

  -- A file that was created while offline, or one whose merge with what the host holds is clean.
  abbrev pub Combined : Text → PendingEdit → W → W → Type 0
  Combined path edit w w' =
      ((edit.base ≡ none) × Confirmed path edit.content absent_file_digest w w')
      ⊎ ((base : List ℕ × Sha256) × (w0 : W) × (remote : FileChunk) × (text : Text) × (edit.base
            ≡ some base)
          × (ports.read_file path w ≡ (w0, ok remote))
          × (ports.merge base.0 edit.content remote.bytes ≡ clean text)
          × Confirmed path text remote.sha256 w0 w')

  abbrev pub Unmoved : Text → PendingEdit → W → W → Type 0
  Unmoved path edit w w' =
      (base : List ℕ × Sha256) × (w0 : W) × (remote : FileChunk) × (edit.base ≡ some base)
      × (ports.read_file path w ≡ (w0, ok remote))
      × (remote.sha256 ≡ base.1)
      × Confirmed path edit.content base.1 w0 w'

  -- What an outcome says of one file.
  abbrev pub Accounts : Text → PendingEdit → W → W × Outcome → Type 0
  Accounts path edit w (w', fast_forwarded) = (edit.mergeable ≡ true) × Unmoved path edit w w'
  Accounts path edit w (w', merged) = (edit.mergeable ≡ true) × Combined path edit w w'
  Accounts path edit w (w', conflicted) = Unit
  Accounts path edit w (w', not_attempted) = Unit
  Accounts path edit w (w', failed why) = Unit

  -- What a write says: merged or nothing.
  abbrev Written : (W → Type 0) → W × Outcome → Type 0
  Written P (w', fast_forwarded) = ⊥
  Written P (w', merged) = P w'
  Written P (w', conflicted) = Unit
  Written P (w', not_attempted) = Unit
  Written P (w', failed why) = Unit

  forgotten-Written :
      (P : W → Type 0) (path : Text) (r : W × Result CacheError Unit)
      → ((w' : W) → r ≡ (w', ok tt) → P w')
      → Written P (forgotten ports r)
  unfolding forgotten
  forgotten-Written P path (w', ok _) f = f w' refl
  forgotten-Written P path (w', err e) f = tt

  after_write-Written :
      (path : Text) (content : List ℕ) (base : Sha256) (w : W) (r : W × Result ProviderError Unit)
      → ports.write_file path content base w ≡ r
      → Written (Confirmed path content base w) (after_write ports path r)
  unfolding after_write
  after_write-Written path content base w (w1, ok _) h =
      forgotten-Written (Confirmed path content base w) path (ports.forget_pending path w1)
        (λ w' e. (w1, h, e))
  after_write-Written path content base w (w1, err offline) h = tt
  after_write-Written path content base w (w1, err write_conflict) h = tt
  after_write-Written path content base w (w1, err not_found) h = tt
  after_write-Written path content base w (w1, err refused) h = tt
  after_write-Written path content base w (w1, err unknown_workspace) h = tt
  after_write-Written path content base w (w1, err workspace_gone) h = tt
  after_write-Written path content base w (w1, err (too_large n)) h = tt
  after_write-Written path content base w (w1, err (transport why)) h = tt
  after_write-Written path content base w (w1, err task_not_found) h = tt
  after_write-Written path content base w (w1, err task_already_running) h = tt
  after_write-Written path content base w (w1, err (command_not_started why)) h = tt
  after_write-Written path content base w (w1, err (unsupported owner)) h = tt

  write-Written :
      (path : Text) (content : List ℕ) (base : Sha256) (w : W)
      → Written (Confirmed path content base w) (write ports path content (some base) w)
  unfolding write
  write-Written path content base w =
      after_write-Written path content base w (ports.write_file path content base w) refl

  as_merged :
      (path : Text) (edit : PendingEdit) (w : W) (P : W → Type 0) (r : W × Outcome)
      → edit.mergeable ≡ true
      → ((w' : W) → P w' → Combined path edit w w')
      → Written P r
      → Accounts path edit w r
  as_merged path edit w P (w', fast_forwarded) m f h = absurd h
  as_merged path edit w P (w', merged) m f h = (m, f w' h)
  as_merged path edit w P (w', conflicted) m f h = tt
  as_merged path edit w P (w', not_attempted) m f h = tt
  as_merged path edit w P (w', failed why) m f h = tt

  as_fast_forwarded :
      (path : Text) (edit : PendingEdit) (w : W) (P : W → Type 0) (r : W × Outcome)
      → edit.mergeable ≡ true
      → ((w' : W) → P w' → Unmoved path edit w w')
      → Written P r
      → Accounts path edit w (fast_forward ports r)
  unfolding fast_forward
  as_fast_forwarded path edit w P (w', fast_forwarded) m f h = absurd h
  as_fast_forwarded path edit w P (w', merged) m f h = (m, f w' h)
  as_fast_forwarded path edit w P (w', conflicted) m f h = tt
  as_fast_forwarded path edit w P (w', not_attempted) m f h = tt
  as_fast_forwarded path edit w P (w', failed why) m f h = tt

  as_text-bytes : (bytes : List ℕ) (t : Text) → as_text bytes ≡ some t → bytes ≡ t
  unfolding as_text
  as_text-bytes bytes t h = ground (arith, h)

  MergeOutcome-cases :
      (m : MergeOutcome) → ((t : Text) × (m ≡ clean t)) ⊎ ((t : Text) × (m ≡ conflict t))
  MergeOutcome-cases (clean t) = inl (t, refl)
  MergeOutcome-cases (conflict t) = inr (t, refl)

  merge_texts-Accounts :
      (path : Text) (edit : PendingEdit) (base : List ℕ × Sha256) (w w0 : W) (remote : FileChunk)
      → edit.mergeable ≡ true
      → edit.base ≡ some base
      → ports.read_file path w ≡ (w0, ok remote)
      → Accounts path edit w (merge_texts ports path base.0 edit.content remote w0)
  unfolding merge_texts combine
  merge_texts-Accounts path edit base w w0 remote m had read =
      elim (Option-cases (as_text base.0)) [
        | inl binary ↦ rw (merge_texts, binary) tt
        | inr (b, eb) ↦ elim (Option-cases (as_text edit.content)) [
          | inl binary ↦ rw (merge_texts, eb, binary) tt
          | inr (l, el) ↦ elim (Option-cases (as_text remote.bytes)) [
            | inl binary ↦ rw (merge_texts, eb, el, binary) tt
            | inr (r, er) ↦ elim (MergeOutcome-cases (ports.merge b l r)) [
              | inr (t, collides) ↦ rw (merge_texts, eb, el, er, collides) tt
              | inl (t, merges) ↦
                  rw (merge_texts, eb, el, er, merges, combine)
                    (as_merged path edit w (Confirmed path t remote.sha256 w0) _ m
                      (λ w' done. inr (
                        base,
                        w0,
                        remote,
                        t,
                        had,
                        read,
                        rw
                            (
                              as_text-bytes base.0 b eb,
                              as_text-bytes edit.content l el,
                              as_text-bytes remote.bytes r er,
                            )
                            merges,
                        done,
                      ))
                      (write-Written path t remote.sha256 w0))
            ]
          ]
        ]
      ]

  against-Accounts :
      (path : Text) (edit : PendingEdit) (base : List ℕ × Sha256) (w : W)
      (r : W × Result ProviderError FileChunk)
      → edit.mergeable ≡ true
      → edit.base ≡ some base
      → ports.read_file path w ≡ r
      → Accounts path edit w (against ports path edit base r)
  unfolding against
  against-Accounts path edit base w (w0, ok remote) m had read =
      elim (Bool-cases (same remote.sha256 base.1)) [
        | inl unmoved ↦
            rw (unmoved, against)
              (as_fast_forwarded path edit w (Confirmed path edit.content base.1 w0) _ m
                (λ w' done.
                  (base, w0, remote, had, read, same_eq remote.sha256 base.1 unmoved, done))
                (write-Written path edit.content base.1 w0))
        | inr moved ↦
            rw (moved, against) (merge_texts-Accounts path edit base w w0 remote m had read)
      ]
  against-Accounts path edit base w (w0, err offline) m had read = tt
  against-Accounts path edit base w (w0, err write_conflict) m had read = tt
  against-Accounts path edit base w (w0, err not_found) m had read = tt
  against-Accounts path edit base w (w0, err refused) m had read = tt
  against-Accounts path edit base w (w0, err unknown_workspace) m had read = tt
  against-Accounts path edit base w (w0, err workspace_gone) m had read = tt
  against-Accounts path edit base w (w0, err (too_large n)) m had read = tt
  against-Accounts path edit base w (w0, err (transport why)) m had read = tt
  against-Accounts path edit base w (w0, err task_not_found) m had read = tt
  against-Accounts path edit base w (w0, err task_already_running) m had read = tt
  against-Accounts path edit base w (w0, err (command_not_started why)) m had read = tt
  against-Accounts path edit base w (w0, err (unsupported owner)) m had read = tt

  one_created :
      (path : Text) (edit : PendingEdit) (w : W)
      → edit.mergeable ≡ true
      → edit.base ≡ none
      → one ports path edit w ≡ write ports path edit.content (some absent_file_digest) w
  unfolding one write
  one_created path edit w m c = ground (arith, m, c)

  one_had :
      (path : Text) (edit : PendingEdit) (base : List ℕ × Sha256) (w : W)
      → edit.mergeable ≡ true
      → edit.base ≡ some base
      → one ports path edit w ≡ against ports path edit base (ports.read_file path w)
  unfolding one
  one_had path edit base w m c = ground (arith, m, c)

  one_asks :
      (path : Text) (edit : PendingEdit) (w : W)
      → edit.mergeable ≡ false
      → one ports path edit w ≡ (w, conflicted)
  unfolding one
  one_asks path edit w m = ground (arith, m)

  -- Of one file: what is reported as sent on unchanged was written over content with the digest of
  -- its base, what is reported as merged over the content that it was merged with, or, made while
  -- offline, over nothing; each write was confirmed by the host before the store forgot the path.
  pub one-Accounts :
      (path : Text) (edit : PendingEdit) (w : W) → Accounts path edit w (one ports path edit w)
  one-Accounts path edit w = elim (Bool-cases edit.mergeable) [
    | inr asks ↦ subst (Accounts path edit w) (sym (one_asks path edit w asks)) tt
    | inl merges ↦ elim (Option-cases edit.base) [
      | inr (base, had) ↦
          subst (Accounts path edit w) (sym (one_had path edit base w merges had))
            (against-Accounts path edit base w (ports.read_file path w) merges had refl)
      | inl created ↦ subst (Accounts path edit w) (sym (one_created path edit w merges created)) (
          as_merged path edit w (Confirmed path edit.content absent_file_digest w) _ merges
            (λ w' done. inl (created, done)) (write-Written path edit.content absent_file_digest w))
    ]
  ]
