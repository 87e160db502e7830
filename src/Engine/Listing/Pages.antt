-- ===== src/Engine/Listing/Pages.antt =====
-- The pages of a directory that does not change are its listing, cut up.
use project_apex.Prelude.{
  ℕ, zero, suc, ◌≤◌, ◌<◌, ◌≡◌, refl, ap, Option, none, some, List, [], ◌∷◌, ◌++◌, map, arith,
  length, Text, drop, take-append-drop, inr, inl, ltb→lt, length-take, ◌∙◌, length-drop,
}
use Prim.Native.Nat.{Ordering}
use project_apex.Prelude.Order.{lex, lex_refl}
use project_apex.Engine.Exclusions.{RawEntry}
use mathlib.Core.Path.{subst}
use project_apex.Engine.Listing.{
  FsEntryWire, sort, page_cursor, after_cursor, last, limit_of, from, read_directory, to_wire, take,
  Bool-cases, ltb, inr, inl, sym, append_assoc,
}
use project_apex.Engine.Listing.Sorted.{Before, IsRising, AreApart, sort-IsRising}

lex_turn : (a b : Text) → lex a b ≡ Ordering.lt → lex b a ≡ Ordering.gt
lex_turn [] [] h = ground (arith, h)
lex_turn [] (y ∷ b) h = refl
lex_turn (x ∷ a) [] h = ground (arith, h)
lex_turn (x ∷ a) (y ∷ b) h = ground (arith, h, lex_turn a b)

-- What stands behind an entry is what comes after its cursor.
after_cursor_self :
    (x : FsEntryWire) (rest : List FsEntryWire)
    → Before (page_cursor x) rest
    → after_cursor (page_cursor x) (x ∷ rest) ≡ rest
unfolding after_cursor
after_cursor_self x [] b = ground (arith, lex_refl (page_cursor x))
after_cursor_self x (y ∷ rest) b =
    ground (arith, lex_refl (page_cursor x), lex_turn (page_cursor x) (page_cursor y) b.0)

Before-append :
    (c : Text) (p : List FsEntryWire) (x : FsEntryWire) (rest : List FsEntryWire)
    → Before c (p ++ x ∷ rest)
    → lex c (page_cursor x) ≡ Ordering.lt
Before-append c [] x rest b = b.0
Before-append c (e ∷ p) x rest b = Before-append c p x rest b.1

after_cursor-append :
    (p : List FsEntryWire) (x : FsEntryWire) (rest : List FsEntryWire)
    → IsRising (p ++ x ∷ rest)
    → after_cursor (page_cursor x) (p ++ x ∷ rest) ≡ rest
unfolding after_cursor
after_cursor-append [] x rest r = after_cursor_self x rest r.0
after_cursor-append (e ∷ p) x rest r =
    ground (arith, Before-append (page_cursor e) p x rest r.0, after_cursor-append p x rest r.1)

last-split :
    (xs : List FsEntryWire)
    → 0 < length xs
    → (q : List FsEntryWire) × (y : FsEntryWire) × (last xs ≡ some y) × (xs ≡ q ++ y ∷ [])
unfolding last
last-split [] h = absurd (omega (arith, h))
last-split (e ∷ []) h = ([], e, refl, refl)
last-split (e ∷ f ∷ xs) h =
    let (q, y, at, whole) = last-split (f ∷ xs) (omega arith) in (e ∷ q, y, at, ap (◌∷◌ e) whole)

-- Ask for pages, each with a limit of its own, until one carries no cursor.
unfoldable pub collect :
    ℕ → (ℕ → Option ℕ) → List RawEntry → Option Text → Option (List FsEntryWire)
collect zero limits listed cursor = none
collect (suc fuel) limits listed cursor =
    let (page, next) = read_directory listed cursor (limits fuel) in
    elim next [
      | none ↦ some page
      | some c ↦ elim (collect fuel limits listed (some c)) [
        | none ↦ none
        | some rest ↦ some (page ++ rest)
      ]
    ]

take_of_le : {A : Type 0} (n : ℕ) (xs : List A) → length xs ≤ n → take n xs ≡ xs
take_of_le zero [] h = refl
take_of_le zero (x ∷ xs) h = absurd (omega (arith, h))
take_of_le (suc n) [] h = refl
take_of_le (suc n) (x ∷ xs) h = ap (◌∷◌ x) (take_of_le n xs (omega (arith, h)))

collect_more :
    (fuel : ℕ) (limits : ℕ → Option ℕ) (listed : List RawEntry) (cursor : Option Text)
    (r : List FsEntryWire) (y : FsEntryWire)
    → from cursor (sort (map to_wire listed)) ≡ r
    → limit_of (limits fuel) < length r
    → last (take (limit_of (limits fuel)) r) ≡ some y
    → collect fuel limits listed (some (page_cursor y)) ≡ some (drop (limit_of (limits fuel)) r)
    → collect (suc fuel) limits listed cursor ≡ some r
unfolding collect read_directory
collect_more fuel limits listed cursor r y e n l ih =
    ground (arith, e, n, l, ih, take-append-drop (limit_of (limits fuel)) r)

collect_last :
    (fuel : ℕ) (limits : ℕ → Option ℕ) (listed : List RawEntry) (cursor : Option Text)
    (r : List FsEntryWire)
    → from cursor (sort (map to_wire listed)) ≡ r
    → length r ≤ limit_of (limits fuel)
    → collect (suc fuel) limits listed cursor ≡ some r
unfolding collect read_directory
collect_last fuel limits listed cursor r e n =
    ground (arith, e, n, take_of_le (limit_of (limits fuel)) r n)

-- The whole listing is `p` and what is still to come.
collect_from :
    (fuel : ℕ) (limits : ℕ → Option ℕ) (listed : List RawEntry) (cursor : Option Text)
    (p r : List FsEntryWire)
    → ((n : ℕ) → 0 < limit_of (limits n))
    → IsRising (sort (map to_wire listed))
    → sort (map to_wire listed) ≡ p ++ r
    → from cursor (sort (map to_wire listed)) ≡ r
    → length r < fuel
    → collect fuel limits listed cursor ≡ some r
collect_from zero limits listed cursor p r some_room rising whole now h = absurd (omega (arith, h))
collect_from (suc fuel) limits listed cursor p r some_room rising whole now h =
    let n = limit_of (limits fuel) in
    elim (Bool-cases (ltb n (length r))) [
      | inr rest ↦ collect_last fuel limits listed cursor r now (ground (arith, rest))
      | inl more ↦
          let lt : n < length r = ltb→lt n (length r) more in
          let (q, y, at, cut) =
            last-split (take n r) (omega (arith, some_room fuel, lt, length-take n r)) in
          let split : r ≡ q ++ y ∷ drop n r =
            sym (take-append-drop n r)
            ∙ ap (λ t. t ++ drop n r) cut
            ∙ append_assoc q (y ∷ []) (drop n r) in
          let again : sort (map to_wire listed) ≡ (p ++ q) ++ y ∷ drop n r =
            whole ∙ ap (λ t. p ++ t) split ∙ sym (append_assoc p q (y ∷ drop n r)) in
          let next : from (some (page_cursor y)) (sort (map to_wire listed)) ≡ drop n r =
            ap (after_cursor (page_cursor y)) again
            ∙ after_cursor-append (p ++ q) y (drop n r) (subst IsRising again rising) in
          collect_more fuel limits listed cursor r y now lt at (
            collect_from fuel limits listed (some (page_cursor y)) ((p ++ q) ++ y ∷ []) (drop n r)
              some_room rising (again ∙ sym (append_assoc (p ++ q) (y ∷ []) (drop n r))) next
              (omega (arith, h, lt, some_room fuel, length-drop n r)))
    ]

-- When no two entries of a directory have one kind and name and every limit asked for is above 0, a
-- client that follows the cursors of a directory that does not change comes to a page without one
-- after at most as many further pages as there are entries, and has then the whole listing, each
-- entry once, in its order.
pub collect-sort :
    (limits : ℕ → Option ℕ) (listed : List RawEntry)
    → ((n : ℕ) → 0 < limit_of (limits n))
    → AreApart (map to_wire listed)
    → collect (suc (length (sort (map to_wire listed)))) limits listed none
      ≡ some (sort (map to_wire listed))
collect-sort limits listed some_room apart =
    collect_from (suc (length (sort (map to_wire listed)))) limits listed none []
      (sort (map to_wire listed)) some_room (sort-IsRising (map to_wire listed) apart) refl refl
      (omega arith)
