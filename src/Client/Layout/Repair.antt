-- ===== src/Client/Layout/Repair.antt =====
-- client/core/src/domain/layout.rs: loading repairs a layout, a live command refuses instead, and
-- both end in a layout that can be shown.
use project_apex.Prelude.{ℕ, ◌≤◌, ◌≡◌, Bool, true, arith}
use project_apex.Client.Layout.{
  RegionId, RegionState, Layout, ok, clamped, clamped_region, set_region, get,
}

abbrev pub IsShowable : RegionState → Type 0
IsShowable r = r.visible ≡ true → 120 ≤ r.extent

-- The primary area shows, and what shows can be read.
pub record IsUsable (l : Layout) : Type 0 where
  pub primary : l.document_area.visible ≡ true
  pub output : IsShowable l.output
  pub document_area : IsShowable l.document_area

clamped_region-IsShowable : (r : RegionState) → IsShowable (clamped_region r)
unfolding clamped_region
clamped_region-IsShowable r h = ground arith

clamped_region-visible : (r : RegionState) → (clamped_region r).visible ≡ r.visible
unfolding clamped_region
clamped_region-visible r = ground arith

-- Whatever was stored, the loaded layout is usable: the primary area is visible and every visible
-- region has the least extent.
pub clamped-IsUsable : (l : Layout) → IsUsable (clamped l)
unfolding clamped
clamped-IsUsable l = record {
  primary = clamped_region-visible (record l.document_area { visible = true });
  output = clamped_region-IsShowable l.output;
  document_area = clamped_region-IsShowable (record l.document_area { visible = true });
}

clamped_region_of_showable : (r : RegionState) → IsShowable r → clamped_region r ≡ r
unfolding clamped_region
clamped_region_of_showable r h = ground (arith, h)

-- A usable layout is loaded as it was stored.
pub clamped_of_usable : (l : Layout) → IsUsable l → clamped l ≡ l
unfolding clamped
clamped_of_usable l u = ground (
  arith,
  clamped_region_of_showable l.output u.output,
  clamped_region_of_showable l.document_area u.document_area,
  u.primary,
)

-- A command on a usable layout, for any region, visibility and extent, either is refused or leaves
-- a usable layout in which the region is as commanded.
pub set_region-IsUsable :
    (id : RegionId) (visible : Bool) (extent : ℕ) (l m : Layout)
    → IsUsable l
    → set_region id visible extent l ≡ ok m
    → IsUsable m × (get id m ≡ record { visible = visible; extent = extent })
unfolding set_region get
set_region-IsUsable id visible extent l m u h = (
  record {
    primary = ground (arith, h, u.primary);
    output = ground (arith, h, u.output);
    document_area = ground (arith, h, u.document_area);
  },
  ground (arith, h),
)
