-- ===== src/Engine/Path/Tests.antt =====
-- Runs over a disk with a link.
use project_apex.Prelude.{◌≡◌, refl, true, none, some, [], ◌∷◌, if◌then◌else◌, codes}
use project_apex.Client.RelPath.{contains, split, part_of}
use project_apex.Prelude.Map.{same}
use project_apex.Prelude.Order.{text_ord}
use project_apex.Engine.Path.{
  path_refused, not_found, err, Components, Disk, starts_with, parent, gather, lexical_parts,
  locate, resolve,
}
use project_apex.Engine.Path.Contained.{Answers, resolve-Answers, has_dots, resolve_of_escape}

-- `/w/out` is a link to `/etc`, and `/w/a` is there.
abbrev disk : Disk
disk = record {
  canonicalize = λ p. elim p [
    | [] ↦ some []
    | a ∷ rest ↦ elim rest [
      | [] ↦ some (a ∷ [])
      | b ∷ more ↦
          if same b (codes "out")
          then some (codes "etc" ∷ [])
          else if same b (codes "a")
          then some (a ∷ b ∷ more)
          else none
    ]
  ];
  is_directory = λ p. some true;
}

abbrev root : Components
root = codes "w" ∷ []

resolve-Answers_example : Answers root (codes "./a//b") disk (resolve root (codes "./a//b") disk)
resolve-Answers_example = resolve-Answers root (codes "./a//b") disk

resolve_of_escape_example : resolve root (codes "a/../../etc") disk ≡ err path_refused
resolve_of_escape_example =
    resolve_of_escape root (codes "a/../../etc") disk (unfold contains split has_dots same in refl)

through_link : resolve root (codes "out/x") disk ≡ err path_refused
unfolding resolve lexical_parts gather locate contains split starts_with same part_of
through_link = refl

absent : resolve root (codes "b") disk ≡ err not_found
unfolding resolve lexical_parts gather locate contains split starts_with same part_of parent
absent = refl
