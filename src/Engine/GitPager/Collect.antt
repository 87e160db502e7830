-- ===== src/Engine/GitPager/Collect.antt =====
-- A client that follows the cursors has the whole snapshot.
use project_apex.Prelude.{
  ℕ, zero, suc, ◌+◌, ◌-◌, ◌^◌, ◌≤◌, ◌<◌, ◌≡◌, refl, ap, ◌∙◌, inl, inr, Option, none, some, List, [],
  ◌∷◌, ◌++◌, arith, ltb, Bool-cases, length, Text, tests, length-take, length-drop,
}
use project_apex.Prelude.Map.{get}
use project_apex.Prelude.Order.{text_ord}
use project_apex.Protocol.Wire.{GitChange, GitStatusResult}
use project_apex.Engine.GitPager.{
  Held, err, ok, StatusPager, page, slice, offset_of, clamp, cursor_text, drop, take,
}
use project_apex.Engine.GitPager.Cursor.{parse_cursor-cursor_text}

-- Ask for pages, each with a limit of its own, until one carries no cursor. The fuel is the number
-- of pages that may be asked for.
unfoldable pub collect : ℕ → (ℕ → ℕ) → Text → Option Text → StatusPager → Option (List GitChange)
collect zero limits workspace cursor pager = none
collect (suc fuel) limits workspace cursor pager =
    elim (page workspace cursor (limits fuel) pager) [
      | err e ↦ none
      | ok r ↦ elim r.next_cursor [
        | none ↦ some r.changes
        | some c ↦ elim (collect fuel limits workspace (some c) pager) [
          | none ↦ none
          | some rest ↦ some (r.changes ++ rest)
        ]
      ]
    ]

drop_add : {A : Type 0} (o m : ℕ) (xs : List A) → drop (o + m) xs ≡ drop m (drop o xs)
drop_add zero m xs = let e : 0 + m ≡ m = omega arith in ap (λ k. drop k xs) e
drop_add (suc o) zero [] = let e : suc o + 0 ≡ suc o = omega arith in ap (λ k. drop k []) e
drop_add (suc o) (suc m) [] =
    let e : suc o + suc m ≡ suc (o + suc m) = omega arith in ap (λ k. drop k []) e
drop_add (suc o) m (x ∷ xs) =
    let e : suc o + m ≡ suc (o + m) = omega arith in ap (λ k. drop k (x ∷ xs)) e ∙ drop_add o m xs

take-append-rest :
    {A : Type 0} (n : ℕ) (xs : List A) → take n xs ++ drop (length (take n xs)) xs ≡ xs
take-append-rest zero xs = refl
take-append-rest (suc n) [] = refl
take-append-rest (suc n) (x ∷ xs) = ap (◌∷◌ x) (take-append-rest n xs)

slice-append :
    {A : Type 0} (n o : ℕ) (xs : List A)
    → take n (drop o xs) ++ drop (o + length (take n (drop o xs))) xs ≡ drop o xs
slice-append n o xs =
    ap (λ r. take n (drop o xs) ++ r) (drop_add o (length (take n (drop o xs))) xs)
    ∙ take-append-rest n (drop o xs)

take_all : {A : Type 0} (n : ℕ) (xs : List A) → length xs ≤ length (take n xs) → take n xs ≡ xs
take_all zero [] h = refl
take_all zero (x ∷ xs) h = absurd (omega arith)
take_all (suc n) [] h = refl
take_all (suc n) (x ∷ xs) h = ap (◌∷◌ x) (take_all n xs (omega arith))

pub page-slice :
    (workspace : Text) (cursor : Option Text) (limit o : ℕ) (pager : StatusPager) (h : Held)
    → get workspace pager.held ≡ some h
    → offset_of h cursor ≡ some o
    → page workspace cursor limit pager ≡ ok (slice h o limit)
unfolding page
page-slice workspace cursor limit o pager h held c = ground (arith, held, c)

pub offset_of_own :
    (h : Held) (next : ℕ)
    → h.generation < 2 ^ 64
    → next < 2 ^ 64
    → offset_of h (some (cursor_text h.generation next)) ≡ some next
unfolding offset_of
offset_of_own h next g n = ground (arith, parse_cursor-cursor_text h.generation next g n)

-- One round: the changes of a page, and those of the pages behind it.
collect_round :
    (fuel : ℕ) (limits : ℕ → ℕ) (workspace : Text) (cursor : Option Text) (pager : StatusPager)
    (r : GitStatusResult)
    → page workspace cursor (limits fuel) pager ≡ ok r
    → collect (suc fuel) limits workspace cursor pager ≡ elim r.next_cursor [
      | none ↦ some r.changes
      | some c ↦ elim (collect fuel limits workspace (some c) pager) [
        | none ↦ none
        | some rest ↦ some (r.changes ++ rest)
      ]
    ]
unfolding collect
collect_round fuel limits workspace cursor pager r h = rw (collect, h) refl

collect_from :
    (fuel o : ℕ) (limits : ℕ → ℕ) (workspace : Text) (cursor : Option Text) (pager : StatusPager)
    (h : Held)
    → get workspace pager.held ≡ some h
    → h.generation < 2 ^ 64
    → length h.snapshot.changes < 2 ^ 64
    → offset_of h cursor ≡ some o
    → length h.snapshot.changes - o < fuel
    → collect fuel limits workspace cursor pager ≡ some (drop o h.snapshot.changes)
unfolding slice
collect_from zero o limits workspace cursor pager h held g l c f = absurd (omega arith)
collect_from (suc fuel) o limits workspace cursor pager h held g l c f =
    let got = take (clamp (limits fuel)) (drop o h.snapshot.changes) in
    let round =
      collect_round fuel limits workspace cursor pager (slice h o (limits fuel))
        (page-slice workspace cursor (limits fuel) o pager h held c) in
    elim (Bool-cases (ltb (o + length got) (length h.snapshot.changes))) [
      | inl more ↦
          let ih =
            collect_from fuel (o + length got) limits workspace
              (some (cursor_text h.generation (o + length got))) pager h held g l
              (offset_of_own h (o + length got) g (omega (tests, more)))
              (omega (
                tests,
                more,
                length-take (clamp (limits fuel)) (drop o h.snapshot.changes),
                length-drop o h.snapshot.changes,
              )) in
          round ∙ rw (more, ih, slice-append (clamp (limits fuel)) o h.snapshot.changes) refl
      | inr last ↦
          round
          ∙ rw last (
              ap some (
                take_all (clamp (limits fuel)) (drop o h.snapshot.changes)
                  (ground (arith, last, length-drop o h.snapshot.changes))))
    ]

-- When a snapshot of fewer than 2 ^ 64 changes is held under a generation below 2 ^ 64, a client
-- that asks for the first page and follows each cursor, with any limits, comes to a page without a
-- cursor after at most as many further pages as there are changes, and has then every change,
-- once and in order.
pub collect_all :
    (limits : ℕ → ℕ) (workspace : Text) (pager : StatusPager) (h : Held)
    → get workspace pager.held ≡ some h
    → h.generation < 2 ^ 64
    → length h.snapshot.changes < 2 ^ 64
    → collect (suc (length h.snapshot.changes)) limits workspace none pager
      ≡ some h.snapshot.changes
unfolding offset_of
collect_all limits workspace pager h held g l =
    collect_from (suc (length h.snapshot.changes)) 0 limits workspace none pager h held g l refl
      (omega arith)
