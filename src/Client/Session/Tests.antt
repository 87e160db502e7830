-- ===== src/Client/Session/Tests.antt =====
-- The sessions of the tests of client/core/src/domain/session.rs.
use project_apex.Prelude.{
  ◌≤◌, ◌<◌, ◌≡◌, refl, true, false, none, List, [], ◌∷◌, arith, length, codes,
}
use project_apex.Prelude.Int.{pos}
use project_apex.Prelude.Order.{text_ord}
use project_apex.Prelude.Map.{same}
use project_apex.Prelude.Utf8.{trim, trim_start, trim_end, is_whitespace}
use project_apex.Client.Layout.{default_layout}
use project_apex.Client.Rail.{default_state}
use project_apex.Client.Session.{
  PersistedSession, has_focus, has_distinct_ids, is_coherent, open_new, open_document,
  close_document, reorder_document, focus_document, has_id, position, find_path, repack_orders,
  remove_at, insert_at, neighbour, sort_ids, place_id, dedup, dedup_after,
}
use project_apex.Client.Session.Coherence.{
  IsKept, Command, opens, closes, focuses, reorders, perform, perform_all,
}
use project_apex.Client.Session.Loads.{perform_all-is_coherent}

abbrev first_run : PersistedSession
first_run = record {
  version = 4;
  workspace = none;
  window = record { x = pos 100; y = pos 100; width = 1200; height = 800; maximized = false };
  layout = default_layout;
  documents = [];
  focused_document_id = none;
  tool_window = default_state;
  tasks = [];
  autosave = false;
}

first_run-IsKept : IsKept first_run
unfolding repack_orders has_focus
first_run-IsKept = record { packed = refl; focus = refl }

abbrev commands : List Command
commands =
    opens (codes "1") (codes "a") (codes "/a")
    ∷ opens (codes "2") (codes "b") (codes "/b")
    ∷ opens (codes "3") (codes "c") (codes "/c")
    ∷ reorders (codes "3") 0
    ∷ focuses (codes "1")
    ∷ closes (codes "1")
    ∷ []

distinct_after : has_distinct_ids (perform_all commands first_run).documents ≡ true
unfolding perform_all perform open_document open_new close_document reorder_document focus_document
    has_id position find_path repack_orders remove_at insert_at neighbour trim trim_start trim_end
    is_whitespace same has_distinct_ids sort_ids place_id dedup dedup_after
distinct_after = refl

few_after : length (perform_all commands first_run).documents < 4294967296
unfolding perform_all perform open_document open_new close_document reorder_document focus_document
    has_id position find_path repack_orders remove_at insert_at neighbour trim trim_start trim_end
    is_whitespace same
few_after = omega arith

version_after : (perform_all commands first_run).version ≤ 4
unfolding perform_all perform open_document open_new close_document reorder_document focus_document
    has_id position find_path repack_orders remove_at insert_at neighbour trim trim_start trim_end
    is_whitespace same
version_after = omega arith

perform_all-is_coherent_example : is_coherent (perform_all commands first_run) ≡ true
perform_all-is_coherent_example =
    perform_all-is_coherent commands first_run first_run-IsKept distinct_after few_after
      version_after
