-- ===== src/Client/Rail.antt =====
-- client/core/src/domain/rail.rs: the destinations of the rail and the state of the tool window.
pub mod Repair
mod Tests
use project_apex.Prelude.{
  ℕ, zero, suc, ◌+◌, ◌-◌, ◌*◌, ◌/◌, ◌%◌, ◌^◌, ◌≤◌, ◌<◌, ◌≡◌, refl, sym, ap, ◌∙◌, ◌≢◌, ◌↔◌, ◌⊎◌, inl,
  inr, Bool, true, false, not, ◌&&◌, ◌||◌, Option, none, some, List, [], ◌∷◌, ◌++◌, map, append-nil,
  append_assoc, arith, ltb, leb, ◌==◌, if◌then◌else◌, Bool-cases, Option-cases, length,
  length-append, All, All-append, Text, codes,
}
use project_apex.Prelude.Map.{same}
use project_apex.Prelude.Order.{text_ord}

abbrev pub min_tool_window_width : ℕ
min_tool_window_width = 180

abbrev pub default_tool_window_width : ℕ
default_tool_window_width = 310

pub data Availability : Type 0 where
  available unavailable : Availability

pub record RailDestination : Type 0 where
  pub id : Text
  pub label : Text
  pub icon : Text
  pub availability : Availability
  pub order : ℕ

unfoldable pub is_selectable : RailDestination → Bool
is_selectable d = elim d.availability [
  | Availability.available ↦ true
  | Availability.unavailable ↦ false
]

pub data RailError : Type 0 where
  unknown_destination width_below_minimum : RailError

-- `enumerate` gives each destination its place.
abbrev numbered : ℕ → List (Text × Text × Text × Availability) → List RailDestination
numbered n [] = []
numbered n ((id, label, icon, availability) ∷ rest) =
    record { id = id; label = label; icon = icon; availability = availability; order = n }
    ∷ numbered (n + 1) rest

unfoldable pub default_catalogue : List RailDestination
default_catalogue = numbered 0 (
    (codes "project", codes "Project", codes "ph-folder-open", available)
    ∷ (codes "structure", codes "Structure", codes "ph-list-dashes", unavailable)
    ∷ (codes "commit", codes "Commit", codes "ph-git-branch", unavailable)
    ∷ (codes "find", codes "Find in project", codes "ph-magnifying-glass", unavailable)
    ∷ (codes "history", codes "Local history", codes "ph-clock-counter-clockwise", unavailable)
    ∷ (codes "packs", codes "Packs and extensions", codes "ph-puzzle-piece", unavailable)
    ∷ [])

unfoldable pub find : Text → List RailDestination → Option RailDestination
find id [] = none
find id (d ∷ ds) = let rest = find id ds in if same d.id id then some d else rest

unfoldable pub first_available : List RailDestination → Option RailDestination
first_available [] = none
first_available (d ∷ ds) = let rest = first_available ds in if is_selectable d then some d else rest

pub record ToolWindowState : Type 0 where
  pub active_destination_id : Option Text
  pub collapsed : Bool
  pub width : ℕ

abbrev pub default_state : ToolWindowState
default_state = record {
  active_destination_id = none;
  collapsed = false;
  width = default_tool_window_width;
}

pub data Result : Type 0 where
  ok : ToolWindowState → Result
  err : RailError → Result

abbrev pub is_active : Text → ToolWindowState → Bool
is_active id w = elim w.active_destination_id [ none ↦ false | some active ↦ same active id ]

unfoldable pub select : Text → List RailDestination → ToolWindowState → Result
select id catalogue w = elim (find id catalogue) [
  | none ↦ err unknown_destination
  | some destination ↦
      if not (is_selectable destination)
      then ok w
      else if is_active id w
      then ok (record w { collapsed = not w.collapsed })
      else ok (record w { active_destination_id = some id; collapsed = false })
]

unfoldable pub resize : ℕ → ToolWindowState → Result
resize width w =
    if ltb width min_tool_window_width
    then err width_below_minimum
    else ok (record w { width = width })

-- The active destination is absent, or names nothing of the catalogue.
unfoldable pub is_unusable : List RailDestination → ToolWindowState → Bool
is_unusable catalogue w = elim w.active_destination_id [
  | none ↦ true
  | some id ↦ elim (find id catalogue) [ none ↦ true | some d ↦ false ]
]

unfoldable pub repaired : List RailDestination → ToolWindowState → ToolWindowState
repaired catalogue w =
    let active : Option Text =
      if is_unusable catalogue w
      then elim (first_available catalogue) [ none ↦ none | some d ↦ some d.id ]
      else w.active_destination_id in
    record w {
      active_destination_id = active;
      width = if ltb w.width min_tool_window_width then min_tool_window_width else w.width;
    }
