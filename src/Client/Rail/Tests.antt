-- ===== src/Client/Rail/Tests.antt =====
-- The tool windows of the tests of client/core/src/domain/rail.rs.
use project_apex.Prelude.{◌≡◌, refl, false, some, codes}
use project_apex.Client.Rail.{
  RailDestination, ToolWindowState, available, default_catalogue, first_available, is_selectable,
}

abbrev project : RailDestination
project = record {
  id = codes "project";
  label = codes "Project";
  icon = codes "ph-folder-open";
  availability = available;
  order = 0;
}

first_is_project : first_available default_catalogue ≡ some project
unfolding first_available default_catalogue is_selectable
first_is_project = refl

-- The active destination of an older file is gone, and its panel is too narrow.
abbrev stale : ToolWindowState
stale = record { active_destination_id = some (codes "run"); collapsed = false; width = 20 }
