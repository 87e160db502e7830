-- ===== src/Client/Rail/Repair.antt =====
-- client/core/src/domain/rail.rs: what selecting and loading make of the tool window.
use project_apex.Prelude.{
  ◌≤◌, ◌≡◌, refl, inl, inr, false, some, List, [], ◌∷◌, arith, Bool-cases, Text,
}
use project_apex.Prelude.Map.{same, same_refl}
use project_apex.Prelude.Order.{text_ord}
use project_apex.Client.Rail.{
  RailDestination, ToolWindowState, find, first_available, is_selectable, is_unusable, repaired,
}

-- What `find` gives stands under the identity that was asked for.
abbrev pub Finds : List RailDestination → Text → Type 0
Finds catalogue id = (d : RailDestination) × (find id catalogue ≡ some d)

-- The active destination, when there is one, is of the catalogue, and the panel can be read.
pub record IsUsable (catalogue : List RailDestination) (w : ToolWindowState) : Type 0 where
  pub active : is_unusable catalogue w ≡ false
  pub wide : 180 ≤ w.width

first_available-Finds :
    (catalogue : List RailDestination) (d : RailDestination)
    → first_available catalogue ≡ some d
    → Finds catalogue d.id
unfolding first_available find
first_available-Finds [] d h = ground arith
first_available-Finds (e ∷ es) d h = elim (Bool-cases (same e.id d.id)) [
  | inl here ↦ (e, rw (here, find) refl)
  | inr there ↦ elim (Bool-cases (is_selectable e)) [
    | inl first ↦
        let one : some e ≡ some d = ground (arith, h, first) in
        ground (arith, there, one, same_refl d.id)
    | inr later ↦
        let (f, found) = first_available-Finds es d (ground (arith, h, later)) in
        (f, rw (there, find) found)
  ]
]

-- Whatever was stored, when some destination is available the loaded window is usable: its active
-- destination is of the catalogue and it has the least width.
pub repaired-IsUsable :
    (catalogue : List RailDestination) (w : ToolWindowState) (d : RailDestination)
    → first_available catalogue ≡ some d
    → IsUsable catalogue (repaired catalogue w)
unfolding repaired is_unusable
repaired-IsUsable catalogue w d h =
    let (f, found) = first_available-Finds catalogue d h in
    record { active = ground (arith, h, found); wide = ground arith }

-- A usable window is loaded as it was stored.
repaired_of_usable :
    (catalogue : List RailDestination) (w : ToolWindowState)
    → IsUsable catalogue w
    → repaired catalogue w ≡ w
unfolding repaired
repaired_of_usable catalogue w u = ground (arith, u.active, u.wide)
