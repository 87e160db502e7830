-- ===== src/Client/Reconcile/Report.antt =====
-- What the report of a run names.
use project_apex.Prelude.{◌≡◌, refl, ap, Bool, true, false, ◌||◌, [], ◌∷◌, map, arith, Text}
use project_apex.Client.Ports.{ok, PendingEdit, Ports}
use project_apex.Client.Reconcile.{
  Outcome, not_attempted, Report, is_not_attempted, one, attempt, run_once,
}
use project_apex.Client.Reconcile.Kept.{Rows}

-- Once a file was not attempted, no later one is.
abbrev pub IsCut : Bool → Report → Type 0
IsCut lost [] = Unit
IsCut lost (f ∷ files) =
    (lost ≡ true → f.1 ≡ not_attempted) × IsCut (lost || is_not_attempted f.1) files

module _ {W : Type 0} (ports : Ports W) where
  attempt-IsCut :
      (pending : Rows) (lost : Bool) (w : W) → IsCut lost (attempt ports pending lost w).1
  unfolding attempt is_not_attempted
  attempt-IsCut [] lost w = tt
  attempt-IsCut ((path, edit) ∷ rest) true w = (λ e. refl, attempt-IsCut rest true w)
  attempt-IsCut ((path, edit) ∷ rest) false w =
      (λ e. absurd (ground (arith, e)), attempt-IsCut rest _ (one ports path edit w).0)

  attempt-paths :
      (pending : Rows) (lost : Bool) (w : W)
      → map (λ (f : Text × Outcome). f.0) (attempt ports pending lost w).1
        ≡ map (λ (r : Text × PendingEdit). r.0) pending
  unfolding attempt
  attempt-paths [] lost w = refl
  attempt-paths ((path, edit) ∷ rest) true w = ap (◌∷◌ path) (attempt-paths rest true w)
  attempt-paths ((path, edit) ∷ rest) false w =
      ap (◌∷◌ path) (attempt-paths rest _ (one ports path edit w).0)

  -- When the rows can be read, the report names their paths in their order, and from the first file
  -- that was not attempted on, none was.
  pub run_once-paths :
      (w : W) (pending : Rows)
      → ports.pending_edits w ≡ ok pending
      → (map (λ (f : Text × Outcome). f.0) (run_once ports w).1
          ≡ map (λ (r : Text × PendingEdit). r.0) pending)
        × IsCut false (run_once ports w).1
  unfolding run_once
  run_once-paths w pending read = (
    rw (run_once, read) (attempt-paths pending false w),
    rw (run_once, read) (attempt-IsCut pending false w),
  )
