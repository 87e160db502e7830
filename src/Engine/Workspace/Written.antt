-- ===== src/Engine/Workspace/Written.antt =====
-- What the answer to a write says.
use project_apex.Prelude.{
  ℕ, ◌≤◌, ◌≡◌, refl, sym, ◌⊎◌, inl, inr, true, false, List, arith, ltb, Bool-cases, length, Text,
}
use mathlib.Core.Path.{subst}
use project_apex.Prelude.Map.{same, same_eq}
use project_apex.Prelude.Order.{text_ord}
use project_apex.Engine.Path.{Components, Disk}
use project_apex.Engine.Workspace.{
  Result, err, ok, InMemoryRoots, resolve_request, WriteRefusal, request, conflict, too_large, io,
  max_write_bytes, Files, after_write, replace, write_file,
}

Result-cases : {E A : Type 0} (r : Result E A) → ((e : E) × (r ≡ err e)) ⊎ ((a : A) × (r ≡ ok a))
Result-cases (err e) = inl (e, refl)
Result-cases (ok a) = inr (a, refl)

module _ {W : Type 0} (files : Files W) (digest : List ℕ → Text) where
  -- The file held what the caller started from, was written as a whole, and the digest answered is of
  -- what it holds then.
  abbrev pub Replaced : Components → List ℕ → Text → W → W → Text → Type 0
  Replaced path bytes base w w' sha =
      (current : List ℕ) × (written : List ℕ) × (files.read_all path w ≡ ok current)
      × (digest current ≡ base)
      × (files.write_atomic path bytes w ≡ (w', ok tt))
      × (files.read_all path w' ≡ ok written)
      × (sha ≡ digest written)

  -- What an answer says of a path, when a success and a conflict say `P` and `Q`.
  abbrev pub Says : (W → Text → Type 0) → Type 0 → W → W × Result WriteRefusal Text → Type 0
  Says P Q w (w', ok sha) = P w' sha
  Says P Q w (w', err conflict) = (w' ≡ w) × Q
  Says P Q w (w', err (request e)) = w' ≡ w
  Says P Q w (w', err (too_large n)) = w' ≡ w
  Says P Q w (w', err (io why)) = Unit

  -- The file holds something else.
  abbrev pub Moved : Components → Text → W → Type 0
  Moved path base w =
      (current : List ℕ) × (files.read_all path w ≡ ok current)
      × (same (digest current) base ≡ false)

  told :
      (path : Components) (w : W) (written : List ℕ)
      → files.read_all path w ≡ ok written
      → after_write files digest path (w, ok tt) ≡ (w, ok (digest written))
  unfolding after_write
  told path w written e = rw (after_write, e) refl

  after_write-Says :
      (path : Components) (bytes : List ℕ) (base : Text) (w : W) (current : List ℕ)
      (r : W × Result Text Unit)
      → files.read_all path w ≡ ok current
      → digest current ≡ base
      → files.write_atomic path bytes w ≡ r
      → Says (Replaced path bytes base w) (Moved path base w) w (after_write files digest path r)
  unfolding after_write
  after_write-Says path bytes base w current (w', err why) read eq wrote = tt
  after_write-Says path bytes base w current (w', ok _) read eq wrote =
      elim (Result-cases (files.read_all path w')) [
        | inl (why, unread) ↦ rw (unread, after_write) tt
        | inr (written, again) ↦
            subst (λ r. Says (Replaced path bytes base w) (Moved path base w) w r)
              (sym (told path w' written again)) (current, written, read, eq, wrote, again, refl)
      ]

  replaced :
      (path : Components) (bytes : List ℕ) (base : Text) (w : W) (current : List ℕ)
      → files.read_all path w ≡ ok current
      → same (digest current) base ≡ true
      → replace files digest path bytes base w
        ≡ after_write files digest path (files.write_atomic path bytes w)
  unfolding replace
  replaced path bytes base w current read eq = rw (replace, read, eq) refl

  left_alone :
      (path : Components) (bytes : List ℕ) (base : Text) (w : W) (current : List ℕ)
      → files.read_all path w ≡ ok current
      → same (digest current) base ≡ false
      → replace files digest path bytes base w ≡ (w, err conflict)
  unfolding replace
  left_alone path bytes base w current read eq = rw (replace, read, eq) refl

  replace-Says :
      (path : Components) (bytes : List ℕ) (base : Text) (w : W)
      → Says
          (Replaced path bytes base w)
          (Moved path base w)
          w
          (replace files digest path bytes base w)
  unfolding replace
  replace-Says path bytes base w = elim (Result-cases (files.read_all path w)) [
    | inl (why, unread) ↦ rw (replace, unread) tt
    | inr (current, read) ↦ elim (Bool-cases (same (digest current) base)) [
      | inl still ↦
          subst (Says (Replaced path bytes base w) (Moved path base w) w)
            (sym (replaced path bytes base w current read still))
            (after_write-Says path bytes base w current (files.write_atomic path bytes w) read
              (same_eq (digest current) base still) refl)
      | inr moved ↦
          subst (Says (Replaced path bytes base w) (Moved path base w) w)
            (sym (left_alone path bytes base w current read moved)) (refl, (current, read, moved))
    ]
  ]

  -- The path of a request, and what is said of it.
  abbrev pub Names : Disk → InMemoryRoots → Text → Text → (Components → Type 0) → Type 0
  Names disk r workspace_id relative P =
      (path : Components) × (resolve_request disk workspace_id relative r ≡ ok path) × P path

  Says-map :
      (P P' : W → Text → Type 0) (Q Q' : Type 0) (w : W) (r : W × Result WriteRefusal Text)
      → ((w' : W) (sha : Text) → P w' sha → P' w' sha)
      → (Q → Q')
      → Says P Q w r
      → Says P' Q' w r
  Says-map P P' Q Q' w (w', ok sha) f g h = f w' sha h
  Says-map P P' Q Q' w (w', err conflict) f g h = (h.0, g h.1)
  Says-map P P' Q Q' w (w', err (request e)) f g h = h
  Says-map P P' Q Q' w (w', err (too_large n)) f g h = h
  Says-map P P' Q Q' w (w', err (io why)) f g h = tt

  write_small :
      (disk : Disk) (r : InMemoryRoots) (workspace_id relative : Text) (bytes : List ℕ)
      (base : Text) (w : W) (path : Components)
      → ltb max_write_bytes (length bytes) ≡ false
      → resolve_request disk workspace_id relative r ≡ ok path
      → write_file files digest disk r workspace_id relative bytes base w
        ≡ replace files digest path bytes base w
  unfolding write_file
  write_small disk r workspace_id relative bytes base w path small found =
      rw (write_file, small, found) refl

  abbrev pub Success : Disk → InMemoryRoots → Text → Text → List ℕ → Text → W → W → Text → Type 0
  Success disk r workspace_id relative bytes base w w' sha =
      (length bytes ≤ max_write_bytes)
      × Names disk r workspace_id relative (λ path. Replaced path bytes base w w' sha)

  abbrev pub Stale : Disk → InMemoryRoots → Text → Text → Text → W → Type 0
  Stale disk r workspace_id relative base w =
      Names disk r workspace_id relative (λ path. Moved path base w)

  -- When a write succeeds, the path of the request, resolved within its workspace, held content with
  -- the digest that the client started from, was written with the content sent, of at most 1 MiB, and
  -- the digest answered is of what it holds then. A conflict says that it held other content; with a
  -- conflict and every refusal made before, nothing was written.
  pub write_file-Says :
      (disk : Disk) (r : InMemoryRoots) (workspace_id relative : Text) (bytes : List ℕ)
      (base : Text) (w : W)
      → Says
          (Success disk r workspace_id relative bytes base w)
          (Stale disk r workspace_id relative base w)
          w
          (write_file files digest disk r workspace_id relative bytes base w)
  unfolding write_file
  write_file-Says disk r workspace_id relative bytes base w =
      elim (Bool-cases (ltb max_write_bytes (length bytes))) [
        | inl big ↦ rw (write_file, big) refl
        | inr small ↦ elim (Result-cases (resolve_request disk workspace_id relative r)) [
          | inl (e, refusal) ↦ rw (write_file, small, refusal) refl
          | inr (path, found) ↦
              subst
                (Says (Success disk r workspace_id relative bytes base w)
                  (Stale disk r workspace_id relative base w) w)
                (sym (write_small disk r workspace_id relative bytes base w path small found))
                (Says-map (Replaced path bytes base w)
                  (Success disk r workspace_id relative bytes base w) (Moved path base w)
                  (Stale disk r workspace_id relative base w) w
                  (replace files digest path bytes base w)
                  (λ w' sha done. (ground (arith, small), (path, found, done)))
                  (λ moved. (path, found, moved)) (replace-Says path bytes base w))
        ]
      ]
