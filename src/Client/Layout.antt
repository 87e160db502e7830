-- ===== src/Client/Layout.antt =====
-- client/core/src/domain/layout.rs: the regions of the window, and what a stored layout becomes.
pub mod Repair
mod Tests
use project_apex.Prelude.{
  ℕ, zero, suc, ◌+◌, ◌-◌, ◌*◌, ◌/◌, ◌%◌, ◌^◌, ◌≤◌, ◌<◌, ◌≡◌, refl, sym, ap, ◌∙◌, ◌≢◌, ◌↔◌, ◌⊎◌, inl,
  inr, Bool, true, false, not, ◌&&◌, ◌||◌, Option, none, some, List, [], ◌∷◌, ◌++◌, map, append-nil,
  append_assoc, arith, ltb, leb, ◌==◌, if◌then◌else◌, Bool-cases, Option-cases, length,
  length-append, All, All-append, Text, codes,
}

abbrev pub min_region_extent : ℕ
min_region_extent = 120

pub data RegionId : Type 0 where
  output document_area : RegionId

pub record RegionState : Type 0 where
  pub visible : Bool
  pub extent : ℕ

unfoldable pub clamped_region : RegionState → RegionState
clamped_region r =
    if r.visible && ltb r.extent min_region_extent
    then record r { extent = min_region_extent }
    else r

pub record Layout : Type 0 where
  pub output : RegionState
  pub document_area : RegionState
  pub legacy_navigation : Option RegionState

abbrev pub default_layout : Layout
default_layout = record {
  output = record { visible = true; extent = 200 };
  document_area = record { visible = true; extent = 0 };
  legacy_navigation = none;
}

pub data LayoutError : Type 0 where
  extent_below_minimum document_area_not_hideable : LayoutError

pub data Result : Type 0 where
  ok : Layout → Result
  err : LayoutError → Result

unfoldable pub get : RegionId → Layout → RegionState
get RegionId.output l = l.output
get RegionId.document_area l = l.document_area

abbrev pub is_document_area : RegionId → Bool
is_document_area RegionId.output = false
is_document_area RegionId.document_area = true

abbrev pub write : RegionId → RegionState → Layout → Layout
write RegionId.output r l = record l { output = r }
write RegionId.document_area r l = record l { document_area = r }

unfoldable pub set_region : RegionId → Bool → ℕ → Layout → Result
set_region id visible extent l =
    if is_document_area id && not visible
    then err document_area_not_hideable
    else if visible && ltb extent min_region_extent
    then err extent_below_minimum
    else ok (write id (record { visible = visible; extent = extent }) l)

unfoldable pub clamped : Layout → Layout
clamped l = record l {
  output = clamped_region l.output;
  document_area = clamped_region (record l.document_area { visible = true });
}
