-- ===== src/Client/Layout/Tests.antt =====
-- The layouts of the tests of client/core/src/domain/layout.rs.
use project_apex.Prelude.{◌≡◌, refl, true, false, arith}
use project_apex.Client.Layout.{
  Layout, output, ok, err, extent_below_minimum, default_layout, set_region,
}
use project_apex.Client.Layout.Repair.{IsUsable}

refused : set_region output true 10 default_layout ≡ err extent_below_minimum
unfolding set_region
refused = refl

abbrev loaded : Layout
loaded = record default_layout { document_area = record { visible = true; extent = 120 } }

loaded-IsUsable : IsUsable loaded
loaded-IsUsable = record {
  primary = refl;
  output = λ h. omega arith;
  document_area = λ h. omega arith;
}

abbrev without_output : Layout
without_output = record loaded { output = record { visible = false; extent = 0 } }

hidden : set_region output false 0 loaded ≡ ok without_output
unfolding set_region
hidden = refl
