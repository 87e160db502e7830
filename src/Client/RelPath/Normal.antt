-- ===== src/Client/RelPath/Normal.antt =====
-- client/core/src/domain/workspace.rs: what `RelPath::parse` accepts is in normal form.
use project_apex.Prelude.{
  ◌≡◌, refl, inl, inr, false, ◌||◌, List, [], ◌∷◌, ◌++◌, arith, Bool-cases, All, Text,
}
use project_apex.Client.RelPath.{
  join, trim_end_slashes, slash, contains, starts_with_two, split, gather, Result, ok, err,
  join_parts, rooted, parse, part_of,
}
use project_apex.Client.RelPath.Parts.{
  IsName, AreNames, split-IsPlain, gather-AreNames, gather_of_names, split-join_parts,
  contains-join_parts,
}

-- A slash and the names of the parts with slashes between them.
abbrev pub IsNormal : Text → Type 0
IsNormal path = (ps : List Text) × All IsName ps × (path ≡ slash ∷ join_parts ps)

rooted-IsNormal :
    (r : Result (List Text)) (path : Text) → AreNames r → rooted r ≡ ok path → IsNormal path
rooted-IsNormal (err e) path a h = absurd (ground (arith, h))
rooted-IsNormal (ok ps) path a h = (ps, a, ground (arith, h))

-- Every path that is accepted is in normal form: no part of it is empty, `.` or `..`, and none
-- holds a separator, a zero byte or a backslash.
pub parse-IsNormal : (raw path : Text) → parse raw ≡ ok path → IsNormal path
unfolding parse
parse-IsNormal raw path h = elim (Bool-cases (contains 0 raw)) [
  | inl has_nul ↦ absurd (ground (arith, h, has_nul))
  | inr no_nul ↦ elim (Bool-cases (starts_with_two raw || contains 92 raw)) [
    | inl outside ↦ absurd (ground (arith, h, no_nul, outside))
    | inr inside ↦
        rooted-IsNormal (gather (split raw)) path
          (gather-AreNames (split raw) (split-IsPlain raw no_nul (ground (arith, inside))))
          (ground (arith, h, no_nul, inside))
  ]
]

-- A joined path does not begin with a separator.
starts_once : (ps : List Text) → All IsName ps → starts_with_two (slash ∷ join_parts ps) ≡ false
unfolding join_parts part_of
starts_once [] n = refl
starts_once ([] ∷ ps) n = absurd (ground (arith, n.0.stays))
starts_once ((c ∷ p) ∷ []) n = ground (arith, n.0.plain.0.0)
starts_once ((c ∷ p) ∷ q ∷ ps) n = ground (arith, n.0.plain.0.0)

gather-split : (ps : List Text) → All IsName ps → gather (split (slash ∷ join_parts ps)) ≡ ok ps
unfolding split gather part_of join_parts
gather-split [] n = refl
gather-split (p ∷ ps) n = rw (split-join_parts p ps n) (gather_of_names (p ∷ ps) n)

normal-parse : (path : Text) → IsNormal path → parse path ≡ ok path
unfolding parse contains
normal-parse path (ps, names, e) =
    let (no_nul, no_backslash) = contains-join_parts ps names in
    rw (e, no_nul, starts_once ps names, no_backslash, gather-split ps names) refl

-- An accepted path is accepted again, as it is.
pub parse-parse : (raw path : Text) → parse raw ≡ ok path → parse path ≡ ok path
parse-parse raw path h = normal-parse path (parse-IsNormal raw path h)

-- A path with a child that is appended is in normal form, whatever the child is, or it is refused.
pub join-IsNormal : (path child joined : Text) → join path child ≡ ok joined → IsNormal joined
unfolding join
join-IsNormal path child joined h = parse-IsNormal (trim_end_slashes path ++ slash ∷ child) joined h
