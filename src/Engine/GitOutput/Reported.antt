-- ===== src/Engine/GitOutput/Reported.antt =====
-- What a status reports is what git printed within the workspace.
use project_apex.Prelude.{
  ℕ, suc, ◌-◌, ◌≡◌, refl, sym, ◌⊎◌, inl, inr, Bool, true, false, Option, none, some, List, [], ◌∷◌,
  ◌++◌, append_assoc, arith, ◌==◌, if◌then◌else◌, Bool-cases, length, All, All-append, Text, codes,
  filter, get_or,
}
use mathlib.Core.Path.{subst}
use project_apex.Prelude.Map.{same}
use project_apex.Prelude.Order.{text_ord}
use project_apex.Protocol.Wire.{GitChange, GitStatusKind, conflict, untracked}
use project_apex.Engine.GitPager.{StatusSnapshot, Result, err, ok}
use project_apex.Engine.GitPager.Service.{GitFailure, failed}
use project_apex.Engine.GitOutput.{
  Parsed, start, push_change, header, unreadable, counted, collapse, record_of, is_rename,
  read_fields, finish, parse_status_in, fields_of, not_empty, contained, kind_of, splitn,
}
use project_apex.Engine.GitOutput.Fields.{
  Ends, Behind-Ends, kind_of-Behind, kind_of-Ends, splitn-Behind,
}
use project_apex.Engine.GitOutput.Rooted.{IsPrinted, OfPrinted, contained-OfPrinted}

Result-cases :
    (r : Result GitFailure Parsed)
    → ((e : GitFailure) × (r ≡ err e)) ⊎ ((st : Parsed) × (r ≡ ok st))
Result-cases (err e) = inl (e, refl)
Result-cases (ok st) = inr (st, refl)

abbrev pub AllPaths : (Text → Type 0) → List GitChange → Type 0
AllPaths R = All (λ (c : GitChange). R c.path)

-- `R` is a property of paths that the printed ones have.
module _ (R : Text → Type 0) (prefix : Text) where
  abbrev Meets : Option Text → Type 0
  Meets none = Unit
  Meets (some p) = R p

  -- What `R` needs of a field.
  abbrev Gives : Text → Type 0
  Gives field = (path : Text) → IsPrinted prefix path field → R path

  OfPrinted-Meets :
      (field : Text) (p : Option Text) → Gives field → OfPrinted prefix field p → Meets p
  OfPrinted-Meets field none g h = tt
  OfPrinted-Meets field (some path) g h = g path h

  push_change-Meets :
      (k : Option GitStatusKind) (p : Option Text) (st : Parsed)
      → Meets p
      → AllPaths R st.changes
      → AllPaths R (push_change k p st).changes
  unfolding push_change
  push_change-Meets none p st h a = a
  push_change-Meets (some k) none st h a = a
  push_change-Meets (some k) (some p) st h a =
      All-append (λ (c : GitChange). R c.path) st.changes (record { path = p; status = k } ∷ []) a
        (h, tt)

  -- What is read so far, if reading did not fail.
  abbrev Reads : Result GitFailure Parsed → Type 0
  Reads (err e) = Unit
  Reads (ok st) = AllPaths R st.changes

  if_Reads :
      (b : Bool) (x y : Result GitFailure Parsed) → Reads x → Reads y → Reads (if b then x else y)
  if_Reads true x y hx hy = hx
  if_Reads false x y hx hy = hy

  counted-Reads :
      (n : ℕ) (status : Text → Option GitStatusKind) (kind field rest : Text) (st : Parsed)
      → Gives field
      → Ends field rest
      → AllPaths R st.changes
      → Reads (counted (suc (suc n)) status kind field rest prefix st)
  unfolding counted unreadable
  counted-Reads n status kind field rest st g ends a =
      let count_less : suc (suc n) - 1 ≡ suc n = omega arith in
      let last = get_or (splitn (suc (suc n)) rest) (suc n) [] in
      elim (Bool-cases (length (splitn (suc (suc n)) rest) == suc (suc n))) [
        | inl whole ↦
            let stands = Behind-Ends field rest last ends (splitn-Behind n rest whole) in
            rw (whole, count_less, counted)
              (push_change-Meets (status (get_or (splitn (suc (suc n)) rest) 0 []))
                (contained last prefix) st
                (OfPrinted-Meets field (contained last prefix) g
                  (contained-OfPrinted prefix field last (inr stands)))
                a)
        | inr short ↦ rw (short, counted) tt
      ]

  header-changes : (rest : Text) (st : Parsed) → (header rest st).changes ≡ st.changes
  unfolding header
  header-changes rest st = ground arith

  record_of-Reads :
      (field : Text) (st : Parsed)
      → Gives field
      → AllPaths R st.changes
      → Reads (record_of field prefix st)
  unfolding record_of
  record_of-Reads field st g a =
      let (kind, rest) = kind_of field in
      let ends = kind_of-Ends field in
      let unknown = err (failed (codes "unknown status record type `" ++ kind ++ codes "`")) in
      let other = if same kind (codes "!") then ok st else unknown in
      let new = ok (push_change (some untracked) (contained rest prefix) st) in
      let from_new = if same kind (codes "?") then new else other in
      let in_conflict = counted 10 (λ xy. some conflict) kind field rest prefix st in
      let from_conflict = if same kind (codes "u") then in_conflict else from_new in
      let moved = counted 9 collapse kind field rest prefix st in
      let from_moved = if same kind (codes "2") then moved else from_conflict in
      let plain = counted 8 collapse kind field rest prefix st in
      let from_plain = if same kind (codes "1") then plain else from_moved in
      let new_Reads =
        push_change-Meets (some untracked) (contained rest prefix) st
          (OfPrinted-Meets field (contained rest prefix) g
            (contained-OfPrinted prefix field rest (kind_of-Behind field)))
          a in
      let tail = if_Reads (same kind (codes "!")) (ok st) unknown a tt in
      let tail = if_Reads (same kind (codes "?")) new other new_Reads tail in
      let tail =
        if_Reads (same kind (codes "u")) in_conflict from_new
          (counted-Reads 8 (λ xy. some conflict) kind field rest st g ends a) tail in
      let tail =
        if_Reads (same kind (codes "2")) moved from_conflict
          (counted-Reads 7 collapse kind field rest st g ends a) tail in
      let tail =
        if_Reads (same kind (codes "1")) plain from_moved
          (counted-Reads 6 collapse kind field rest st g ends a) tail in
      if_Reads (same kind (codes "#")) (ok (header rest st)) from_plain
        (subst (AllPaths R) (sym (header-changes rest st)) a) tail

  read_fields-Reads :
      (fields : List Text) (st : Parsed)
      → All Gives fields
      → AllPaths R st.changes
      → Reads (read_fields fields prefix st)
  unfolding read_fields
  read_fields-Reads [] st g a = a
  read_fields-Reads (f ∷ []) st g a = elim (Result-cases (record_of f prefix st)) [
    | inl (e, bad) ↦ rw (bad, read_fields) tt
    | inr (st', good) ↦
        rw (good, read_fields)
          (if_Reads (is_rename f) _ (ok st') tt (subst Reads good (record_of-Reads f st g.0 a)))
  ]
  read_fields-Reads (f ∷ h ∷ fs) st g a = elim (Result-cases (record_of f prefix st)) [
    | inl (e, bad) ↦ rw (bad, read_fields) tt
    | inr (st', good) ↦
        let next = subst Reads good (record_of-Reads f st g.0 a) in
        elim (Bool-cases (is_rename f)) [
          | inl renamed ↦ rw (good, renamed, read_fields) (read_fields-Reads fs st' g.1.1 next)
          | inr plain ↦ rw (good, plain, read_fields) (read_fields-Reads (h ∷ fs) st' g.1 next)
        ]
  ]

  abbrev Reports : Result GitFailure StatusSnapshot → Type 0
  Reports (err e) = Unit
  Reports (ok s) = AllPaths R s.changes

  finish-Reports : (r : Result GitFailure Parsed) → Reads r → Reports (finish r)
  finish-Reports (err e) h = tt
  finish-Reports (ok st) h = h

-- A path that one of the fields prints.
abbrev pub IsIn : List Text → Text → Text → Type 0
IsIn fields prefix path =
    (before : List Text) × (field : Text) × (after : List Text) × (fields ≡ before ++ field ∷ after)
    × IsPrinted prefix path field

-- Each field of a list prints what is in the list.
fields-Give :
    (before fields : List Text) (prefix : Text)
    → All (Gives (IsIn (before ++ fields) prefix) prefix) fields
fields-Give before [] prefix = tt
fields-Give before (f ∷ fs) prefix =
    let moved = append_assoc before (f ∷ []) fs in
    (
      λ path printed. (before, f, fs, refl, printed),
      subst (λ all. All (Gives (IsIn all prefix) prefix) fs) moved
          (fields-Give (before ++ f ∷ []) fs prefix),
    )

All-kept : (P : Text → Type 0) (q : Text → Bool) (xs : List Text) → All P xs → All P (filter q xs)
All-kept P q [] a = tt
All-kept P q (x ∷ xs) a = elim (Bool-cases (q x)) [
  | inl stays ↦ rw (stays, All) (a.0, All-kept P q xs a.1)
  | inr goes ↦ rw (goes, All) (All-kept P q xs a.1)
]

-- The paths of a status, when one was read, are printed in the fields of the output.
abbrev pub ArePrinted : Text → Text → Result GitFailure StatusSnapshot → Type 0
ArePrinted raw prefix = Reports (IsIn (fields_of raw) prefix) prefix

-- Whatever git prints and wherever the workspace is in its repository, every path of a status that is
-- read is printed in a field of the output: there, behind white space, a name that does not begin
-- with a separator is the prefix of the workspace and a path below it, and the path is the names of
-- that one with a separator before each, at least one and none of them empty, `.` or `..`.
pub parse_status_in-ArePrinted :
    (raw prefix : Text) → ArePrinted raw prefix (parse_status_in raw prefix)
unfolding parse_status_in start
parse_status_in-ArePrinted raw prefix =
    let R = IsIn (fields_of raw) prefix in
    let given =
      All-kept (Gives R prefix) not_empty (fields_of raw) (fields-Give [] (fields_of raw) prefix) in
    finish-Reports R prefix (read_fields (filter not_empty (fields_of raw)) prefix start)
      (read_fields-Reads R prefix (filter not_empty (fields_of raw)) start given tt)
