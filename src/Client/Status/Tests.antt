-- ===== src/Client/Status/Tests.antt =====
-- The states of the tests of client/core/src/domain/connection.rs and cache.rs.
use project_apex.Prelude.{◌≡◌, refl, inr}
use project_apex.Client.Status.{retrying, label}
use project_apex.Client.Status.Distinct.{without_progress, icon_label-distinct}

same_label : label (retrying 1 2) ≡ label (retrying 3 8)
unfolding label
same_label = refl

icon_label-distinct_example : without_progress (retrying 1 2) ≡ without_progress (retrying 3 8)
icon_label-distinct_example = icon_label-distinct (retrying 1 2) (retrying 3 8) (inr same_label)
