-- ===== src/Engine/Listing/Sorted.antt =====
-- The listing is in the order of its cursors.
use project_apex.Prelude.{◌≡◌, inl, inr, true, false, List, [], ◌∷◌, arith, Bool-cases, All, Text}
use Prim.Native.Nat.{Ordering}
use project_apex.Prelude.Map.{is_eq}
use project_apex.Prelude.Order.{lex, lex_swap, lex_trans}
use project_apex.Engine.Listing.{FsEntryWire, entry_order, is_gt, place, sort, page_cursor}

-- Cursors compare as their entries do.
pub lex-page_cursor : (a b : FsEntryWire) → lex (page_cursor a) (page_cursor b) ≡ entry_order a b
unfolding page_cursor entry_order
lex-page_cursor a b = ground arith

-- No two entries with one cursor, and each cursor in front of those behind.
abbrev pub Before : Text → List FsEntryWire → Type 0
Before c = All (λ (e : FsEntryWire). lex c (page_cursor e) ≡ Ordering.lt)

abbrev pub IsRising : List FsEntryWire → Type 0
IsRising [] = Unit
IsRising (e ∷ es) = Before (page_cursor e) es × IsRising es

abbrev pub Apart : FsEntryWire → List FsEntryWire → Type 0
Apart e = All (λ (f : FsEntryWire). is_eq (lex (page_cursor e) (page_cursor f)) ≡ false)

abbrev pub AreApart : List FsEntryWire → Type 0
AreApart [] = Unit
AreApart (e ∷ es) = Apart e es × AreApart es

Before-trans :
    (c d : Text) (es : List FsEntryWire) → lex c d ≡ Ordering.lt → Before d es → Before c es
Before-trans c d [] h b = tt
Before-trans c d (e ∷ es) h b = (lex_trans c d (page_cursor e) h b.0, Before-trans c d es h b.1)

Before-place :
    (c : Text) (e : FsEntryWire) (es : List FsEntryWire)
    → lex c (page_cursor e) ≡ Ordering.lt
    → Before c es
    → Before c (place e es)
unfolding place
Before-place c e [] h b = (h, tt)
Before-place c e (f ∷ es) h b = ground (arith, h, b.0, b.1, Before-place c e es h b.1)

gt_of : (a b : Text) → is_gt (lex a b) ≡ true → lex a b ≡ Ordering.gt
gt_of a b h = ground (arith, h)

lt_of : (a b : Text) → is_gt (lex a b) ≡ false → is_eq (lex a b) ≡ false → lex a b ≡ Ordering.lt
lt_of a b h k = ground (arith, h, k)

place-IsRising :
    (e : FsEntryWire) (es : List FsEntryWire) → Apart e es → IsRising es → IsRising (place e es)
unfolding place
place-IsRising e [] a r = (tt, tt)
place-IsRising e (f ∷ es) a r = elim (Bool-cases (is_gt (entry_order e f))) [
  | inl behind ↦
      let turned =
        lex_swap (page_cursor e) (page_cursor f)
          (gt_of (page_cursor e) (page_cursor f) (rw (lex-page_cursor e f) behind)) in
      rw (behind, place) (Before-place (page_cursor f) e es turned r.0, place-IsRising e es a.1 r.1)
  | inr front ↦
      let first = lt_of (page_cursor e) (page_cursor f) (rw (lex-page_cursor e f) front) a.0 in
      rw (front, place) ((first, Before-trans (page_cursor e) (page_cursor f) es first r.0), r)
]

Apart-place : (e f : FsEntryWire) (es : List FsEntryWire) → Apart e (f ∷ es) → Apart e (place f es)
unfolding place
Apart-place e f [] a = a
Apart-place e f (g ∷ es) a = ground (arith, a.0, a.1.0, a.1.1, Apart-place e f es (a.0, a.1.1))

Apart-sort : (e : FsEntryWire) (es : List FsEntryWire) → Apart e es → Apart e (sort es)
unfolding sort
Apart-sort e [] a = tt
Apart-sort e (f ∷ es) a = Apart-place e f (sort es) (a.0, Apart-sort e es a.1)

pub sort-IsRising : (es : List FsEntryWire) → AreApart es → IsRising (sort es)
unfolding sort
sort-IsRising [] a = tt
sort-IsRising (e ∷ es) a = place-IsRising e (sort es) (Apart-sort e es a.0) (sort-IsRising es a.1)
