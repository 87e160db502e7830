-- ===== src/Engine/Watch/Invariant.antt =====
-- What holds of every `WatchSet` that the operations can make.
use project_apex.Prelude.{
  ℕ, ◌≡◌, some, Text, Option-cases, arith, ◌<◌, inl, ◌≤◌, ◌+◌, inr, Bool-cases, ◌-◌, ◌==◌,
}
use project_apex.Prelude.Map
use project_apex.Prelude.Map.{Map}
use project_apex.Engine.Watch.{Watch, WatchSet, acquire, release, new}
use project_apex.Prelude.Order.{text_ord}

abbrev Holds : WatchSet → Text → Watch → Type 0
Holds set d w = Map.get d set.watches ≡ some w

-- The keys rise; each watch is held for some reason, stands under its own directory, and has an id
-- that was minted, and no two watches have the same id.
pub record IsValid (set : WatchSet) : Type 0 where
  pub sorted : Map.IsSorted set.watches
  pub held : (d : Text) (w : Watch) → Holds set d w → 0 < w.reasons
  pub named : (d : Text) (w : Watch) → Holds set d w → w.directory ≡ d
  pub minted : (d : Text) (w : Watch) → Holds set d w → w.id ≤ set.next
  pub distinct : (d e : Text) (v w : Watch) → Holds set d v → Holds set e w → v.id ≡ w.id → d ≡ e

pub new-IsValid : IsValid new
unfolding new Map.get
new-IsValid = record {
  sorted = tt;
  held = λ d w h. absurd (ground arith);
  named = λ d w h. absurd (ground arith);
  minted = λ d w h. absurd (ground arith);
  distinct = λ d e v w h k i. absurd (ground arith);
}

-- A watch that is held keeps the invariant under another count of reasons, above 0.
recount-IsValid :
    (d : Text) (set : WatchSet) (old : Watch) (n : ℕ)
    → IsValid set
    → Holds set d old
    → 0 < n
    → IsValid (record set { watches = Map.insert d (record old { reasons = n }) set.watches })
recount-IsValid d set old n v there pos =
    let w : Watch = record old { reasons = n } in
    let at = λ (j : Text). Map.get-insert d j w set.watches in
    record {
      sorted = Map.insert-IsSorted d w set.watches v.sorted;
      held = λ j u h. ground (arith, at j, v.held j u);
      named = λ j u h. ground (arith, at j, v.named j u, v.named d old, Map.same_eq j d);
      minted = λ j u h. ground (arith, at j, v.minted j u, v.minted d old);
      distinct = λ j k u x h i same. ground (
        arith,
        at j,
        at k,
        v.distinct j k u x,
        v.distinct d k old x,
        v.distinct j d u old,
        Map.same_eq j d,
        Map.same_eq k d,
      );
    }

removed-IsValid :
    (d : Text) (set : WatchSet)
    → IsValid set
    → IsValid (record set { watches = Map.remove d set.watches })
removed-IsValid d set v =
    let at = λ (j : Text). Map.get-remove d j set.watches in
    record {
      sorted = Map.remove-IsSorted d set.watches v.sorted;
      held = λ j u h. ground (arith, at j, v.held j u);
      named = λ j u h. ground (arith, at j, v.named j u);
      minted = λ j u h. ground (arith, at j, v.minted j u);
      distinct = λ j k u x h i same. ground (arith, at j, at k, v.distinct j k u x);
    }

-- `acquire` keeps the invariant.
pub acquire-IsValid : (d : Text) (set : WatchSet) → IsValid set → IsValid (acquire d set).0
unfolding acquire
acquire-IsValid d set v = elim (Option-cases (Map.get d set.watches)) [
  | inl fresh ↦
      let w : Watch = record { id = set.next + 1; directory = d; reasons = 1 } in
      let at = λ (j : Text). Map.get-insert d j w set.watches in
      rw (fresh, acquire)
        (record {
          sorted = Map.insert-IsSorted d w set.watches v.sorted;
          held = λ j u h. ground (arith, at j, v.held j u);
          named = λ j u h. ground (arith, at j, v.named j u, Map.same_eq j d);
          minted = λ j u h. ground (arith, at j, v.minted j u);
          distinct = λ j k u x h i same. ground (
            arith,
            at j,
            at k,
            v.distinct j k u x,
            v.minted j u,
            v.minted k x,
            Map.same_eq j d,
            Map.same_eq k d,
          );
        })
  | inr (old, there) ↦
      rw (there, acquire) (recount-IsValid d set old (old.reasons + 1) v there (omega arith))
]

-- `release` keeps the invariant.
pub release-IsValid : (d : Text) (set : WatchSet) → IsValid set → IsValid (release d set).0
unfolding release
release-IsValid d set v = elim (Option-cases (Map.get d set.watches)) [
  | inl absent ↦ rw (absent, release) v
  | inr (old, there) ↦ elim (Bool-cases (old.reasons - 1 == 0)) [
    | inl last ↦ rw (there, last, release) (removed-IsValid d set v)
    | inr more ↦
        rw (there, more, release)
          (recount-IsValid d set old (old.reasons - 1) v there (ground arith))
  ]
]
