-- ===== src/Client/RelPath/Tests.antt =====
-- The paths of the tests of client/core/src/domain/workspace.rs.
use project_apex.Prelude.{◌≡◌, refl, some, codes}
use project_apex.Client.RelPath.{
  parse, parent, ok, err, traversal, contains, split, gather, part_of, join_parts, is_root,
  last_slash,
}
use project_apex.Client.RelPath.Normal.{IsNormal, parse-IsNormal}

parsed : parse (codes "src//./a.rs/") ≡ ok (codes "/src/a.rs")
unfolding parse contains split gather part_of join_parts
parsed = refl

climbing : parse (codes "src/../../etc") ≡ err traversal
unfolding parse contains split gather part_of
climbing = refl

above : parent (codes "/src/a.rs") ≡ some (codes "/src")
unfolding parent is_root last_slash
above = refl

parse-IsNormal_example : IsNormal (codes "/src/a.rs")
parse-IsNormal_example = parse-IsNormal (codes "src//./a.rs/") (codes "/src/a.rs") parsed
