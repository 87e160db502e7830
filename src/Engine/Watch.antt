-- ===== src/Engine/Watch.antt =====
-- engine/src/domain/watch.rs: the directories watched for one workspace, with a count of the
-- reasons for each. A `ResolvedPath` is the text that `to_string_lossy` makes of it, which is also
-- its key; a `WatchId` is its number. `reasons -= 1` on a count of 0 would be an underflow in the
-- source, and the invariant shows that no count is 0.
pub mod Counts
pub mod Invariant
mod Tests
use project_apex.Prelude.{
  ℕ, ◌+◌, ◌-◌, Bool, true, false, Option, none, some, List, [], ◌∷◌, Text, map, length, ◌==◌,
  if◌then◌else◌,
}
use project_apex.Prelude.Order.{text_ord}
use project_apex.Prelude.Map
use project_apex.Prelude.Map.{Map}

pub record Watch : Type 0 where
  pub id : ℕ
  pub directory : Text
  pub reasons : ℕ

pub record WatchSet : Type 0 where
  pub watches : Map Text Watch
  pub next : ℕ

unfoldable pub new : WatchSet
new = record { watches = []; next = 0 }

-- The watch, and whether the host has to be asked for a new one.
unfoldable pub acquire : Text → WatchSet → WatchSet × (ℕ × Bool)
acquire directory set = elim (Map.get directory set.watches) [
  | some existing ↦ (
    record set {
      watches =
          Map.insert directory (record existing { reasons = existing.reasons + 1 }) set.watches;
    },
    (existing.id, false),
  )
  | none ↦
      let id = set.next + 1 in
      (
        record {
          watches =
              Map.insert directory (record { id = id; directory = directory; reasons = 1 })
                set.watches;
          next = id;
        },
        (id, true),
      )
]

-- The id, once the last reason has gone.
unfoldable pub release : Text → WatchSet → WatchSet × Option ℕ
release directory set = elim (Map.get directory set.watches) [
  | none ↦ (set, none)
  | some entry ↦
      let left = entry.reasons - 1 in
      if left == 0
      then (record set { watches = Map.remove directory set.watches }, some entry.id)
      else (
        record set { watches = Map.insert directory (record entry { reasons = left }) set.watches },
        none,
      )
]

unfoldable pub len : WatchSet → ℕ
len set = length set.watches

unfoldable pub is_empty : WatchSet → Bool
is_empty set = elim set.watches [ [] ↦ true | _ ∷ _ ↦ false ]

unfoldable pub contains : Text → WatchSet → Bool
contains directory set = Map.contains directory set.watches

-- Every watch, in the order of the directories, and the set that is left.
unfoldable pub drain_all : WatchSet → WatchSet × List ℕ
drain_all set = (record set { watches = [] }, map (λ e. e.1.id) set.watches)
