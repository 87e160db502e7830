-- ===== src/Client/Conflicts.antt =====
-- client/core/src/application/use_cases/conflicts.rs: the conflicts that a run left, listed with all
-- three sides and settled one file at a time.
pub mod Settled
mod Tests
use project_apex.Prelude.{
  ℕ, zero, suc, ◌+◌, ◌-◌, ◌*◌, ◌/◌, ◌%◌, ◌^◌, ◌≤◌, ◌<◌, ◌≡◌, refl, sym, ap, ◌∙◌, ◌≢◌, ◌↔◌, ◌⊎◌, inl,
  inr, Bool, true, false, not, ◌&&◌, ◌||◌, Option, none, some, List, [], ◌∷◌, ◌++◌, map, append-nil,
  append_assoc, arith, ltb, leb, ◌==◌, if◌then◌else◌, Bool-cases, Option-cases, length,
  length-append, All, All-append, Text, codes, filter,
}
use project_apex.Prelude.Map.{same}
use project_apex.Prelude.Order.{text_ord}
use project_apex.Prelude.Utf8.{lines, strip_prefix}
use project_apex.Client.Ports.{
  Result, err, ok, ProviderError, offline, not_found, write_conflict, transport, message,
  CacheError, cache_message, Sha256, FileChunk, PendingEdit, MergeOutcome, clean, conflict, as_text,
  Ports,
}
use project_apex.Client.Reconcile.{absent_file_digest}

pub data ConflictReason : Type 0 where
  overlap not_text deleted_on_host created_on_both_sides : ConflictReason

pub record Conflict : Type 0 where
  pub relative_path : Text
  pub base : Option Text
  pub local : Option Text
  pub remote : Option Text
  pub base_present : Bool
  pub remote_present : Bool
  pub remote_sha256 : Option Sha256
  pub mergeable : Bool
  pub reason : ConflictReason
  pub draft : Option Text

pub data Resolution : Type 0 where
  text : Text → Resolution
  keep_local take_remote : Resolution

pub data ResolveOutcome : Type 0 where
  resolved conflicted not_attempted : ResolveOutcome
  refused failed : Text → ResolveOutcome

unfoldable pub any_line : Text → List Text → Bool
any_line marker [] = false
any_line marker (l ∷ ls) = elim (strip_prefix marker l) [
  | none ↦ any_line marker ls
  | some _ ↦ true
]

unfoldable pub carries_markers : Text → Bool
carries_markers t = any_line (codes "<<<<<<<") (lines t) && any_line (codes ">>>>>>>") (lines t)

abbrev pub is_some : {A : Type 0} → Option A → Bool
is_some none = false
is_some (some a) = true

abbrev pub text_of : Option FileChunk → Option Text
text_of none = none
text_of (some c) = as_text c.bytes

abbrev pub base_text : PendingEdit → Option Text
base_text edit = elim edit.base [ none ↦ none | some b ↦ as_text b.0 ]

unfoldable pub all_text : PendingEdit → Option FileChunk → Bool
all_text edit remote =
    is_some (as_text edit.content)
    && is_some (text_of remote)
    && (not (is_some edit.base) || is_some (base_text edit))

unfoldable pub reason_of : PendingEdit → Option FileChunk → ConflictReason
reason_of edit remote =
    if not edit.mergeable || (is_some remote && not (all_text edit remote))
    then not_text
    else if not (is_some remote)
    then deleted_on_host
    else if not (is_some edit.base)
    then created_on_both_sides
    else overlap

abbrev pub is_not_text : ConflictReason → Bool
is_not_text overlap = false
is_not_text not_text = true
is_not_text deleted_on_host = false
is_not_text created_on_both_sides = false

abbrev pub draft_in : MergeOutcome → Text
draft_in (clean t) = t
draft_in (conflict t) = t

unfoldable pub draft_of :
    (Text → Text → Text → MergeOutcome)
    → ConflictReason
    → Option Text
    → Option Text
    → Option Text
    → Option Text
draft_of merge overlap (some b) (some l) (some r) = some (draft_in (merge b l r))
draft_of merge reason base local remote = none

unfoldable pub conflict_of :
    (Text → Text → Text → MergeOutcome) → Text → PendingEdit → Option FileChunk → Conflict
conflict_of merge path edit remote =
    let reason = reason_of edit remote in
    record {
      relative_path = path;
      base = base_text edit;
      local = as_text edit.content;
      remote = text_of remote;
      base_present = is_some edit.base;
      remote_present = is_some remote;
      remote_sha256 = elim remote [ none ↦ none | some c ↦ some c.sha256 ];
      mergeable = edit.mergeable && not (is_not_text reason);
      reason = reason;
      draft = draft_of merge reason (base_text edit) (as_text edit.content) (text_of remote);
    }

unfoldable pub names : List Text → Text → Bool
names [] path = false
names (p ∷ ps) path = same p path || names ps path

unfoldable pub find_edit : Text → List (Text × PendingEdit) → Option PendingEdit
find_edit path [] = none
find_edit path ((p, e) ∷ rows) =
    let rest = find_edit path rows in if same p path then some e else rest

abbrev pub or_absent : Option Sha256 → Sha256
or_absent none = absent_file_digest
or_absent (some d) = d

module _ {W : Type 0} (ports : Ports W) where
  abbrev pub push :
      Conflict → W × Result ProviderError (List Conflict) → W × Result ProviderError (List Conflict)
  push c (w, err e) = (w, err e)
  push c (w, ok cs) = (w, ok (c ∷ cs))

  -- The rows that are conflicts, in order, each with its remote read now. An answer other than the
  -- file or its absence ends the listing.
  unfoldable pub list_rows :
      List (Text × PendingEdit) → W → W × Result ProviderError (List Conflict)
  list_rows [] w = (w, ok [])
  list_rows ((path, edit) ∷ rows) w =
      let (w', answer) = ports.read_file path w in
      let here = λ (remote : Option FileChunk).
        push (conflict_of ports.merge path edit remote) (list_rows rows w') in
      elim answer [ ok chunk ↦ here (some chunk) | err not_found ↦ here none | err e ↦ (w', err e) ]

  unfoldable pub list : List Text → W → W × Result ProviderError (List Conflict)
  list conflicted_paths w = elim (ports.pending_edits w) [
    | err e ↦ (w, err (transport (cache_message e)))
    | ok rows ↦ list_rows (filter (λ (r : Text × PendingEdit). names conflicted_paths r.0) rows) w
  ]

  abbrev pub forget_answer : W × Result CacheError Unit → W × ResolveOutcome
  forget_answer (w, ok _) = (w, resolved)
  forget_answer (w, err e) = (w, failed (codes "the local row remains: " ++ cache_message e))

  unfoldable pub forget : Text → W → W × ResolveOutcome
  forget path w = forget_answer (ports.forget_pending path w)

  unfoldable pub after_write : Text → W × Result ProviderError Unit → W × ResolveOutcome
  after_write path (w, ok _) = forget path w
  after_write path (w, err write_conflict) = (w, conflicted)
  after_write path (w, err offline) = (w, not_attempted)
  after_write path (w, err e) = (w, failed (message e))

  unfoldable pub send : Text → List ℕ → Option Sha256 → W → W × ResolveOutcome
  send path content seen w = after_write path (ports.write_file path content (or_absent seen) w)

  unfoldable pub settle : Text → PendingEdit → Resolution → Option Sha256 → W → W × ResolveOutcome
  settle path edit take_remote seen w = forget path w
  settle path edit keep_local seen w = send path edit.content seen w
  settle path edit (text t) seen w = elim (carries_markers t) [
    | true ↦ (
      w,
      refused (codes "the result still has conflict markers; settle each marked region first"),
    )
    | false ↦ send path t seen w
  ]

  unfoldable pub resolve : Text → Resolution → Option Sha256 → W → W × ResolveOutcome
  resolve path resolution seen w = elim (ports.pending_edits w) [
    | err e ↦ (w, failed (cache_message e))
    | ok rows ↦ elim (find_edit path rows) [
      | none ↦ (w, refused (codes "there is no retained work for this file"))
      | some edit ↦ settle path edit resolution seen w
    ]
  ]
