-- ===== src/Client/Session/Documents.antt =====
-- client/core/src/domain/session.rs: the lists of documents under removal, insertion and renumbering.
use project_apex.Prelude.{
  ℕ, zero, suc, ◌+◌, ◌≤◌, ◌<◌, ◌≡◌, refl, ap, inl, inr, true, false, ◌||◌, none, some, List, [],
  ◌∷◌, ◌++◌, arith, Option-cases, length, Text,
}
use project_apex.Prelude.Map.{same, same_refl, same_eq}
use project_apex.Prelude.Order.{text_ord}
use project_apex.Client.Session.{
  OpenDocumentReference, has_id, position, repack_orders, remove_at, neighbour, id_at, as_u32,
  get_elem?, insert_at,
}

pub has_id-repack_orders :
    (id : Text) (i : ℕ) (docs : List OpenDocumentReference)
    → has_id id (repack_orders i docs) ≡ has_id id docs
unfolding has_id repack_orders
has_id-repack_orders id i [] = refl
has_id-repack_orders id i (d ∷ ds) =
    ap (λ b. same d.id id || b) (has_id-repack_orders id (i + 1) ds)

pub length-repack_orders :
    (i : ℕ) (docs : List OpenDocumentReference) → length (repack_orders i docs) ≡ length docs
unfolding repack_orders
length-repack_orders i [] = refl
length-repack_orders i (d ∷ ds) = ap suc (length-repack_orders (i + 1) ds)

pub repack_orders-repack_orders :
    (i : ℕ) (docs : List OpenDocumentReference)
    → repack_orders i (repack_orders i docs) ≡ repack_orders i docs
unfolding repack_orders
repack_orders-repack_orders i [] = refl
repack_orders-repack_orders i (d ∷ ds) =
    ap (◌∷◌ (record d { order = as_u32 i })) (repack_orders-repack_orders (i + 1) ds)

pub repack_orders-append :
    (i : ℕ) (docs more : List OpenDocumentReference)
    → repack_orders i (docs ++ more) ≡ repack_orders i docs ++ repack_orders (i + length docs) more
unfolding repack_orders
repack_orders-append i [] more = let same_start : i + 0 ≡ i = omega arith in rw same_start refl
repack_orders-append i (d ∷ ds) more =
    let same_start : i + 1 + length ds ≡ i + suc (length ds) = omega arith in
    rw (repack_orders-append (i + 1) ds more, same_start) refl

pub has_id-append :
    (id : Text) (docs more : List OpenDocumentReference)
    → has_id id (docs ++ more) ≡ (has_id id docs || has_id id more)
unfolding has_id
has_id-append id [] more = refl
has_id-append id (d ∷ ds) more = ground (arith, has_id-append id ds more)

-- The place of a document is one of the list's, and the document is there.
pub position-lt :
    (id : Text) (docs : List OpenDocumentReference) (i : ℕ)
    → position id docs ≡ some i
    → i < length docs
unfolding position
position-lt id [] i h = ground arith
position-lt id (d ∷ ds) i h = elim (Option-cases (position id ds)) [
  | inl gone ↦ ground (arith, gone)
  | inr (j, found) ↦ ground (arith, found, position-lt id ds j found)
]

-- Removing the document of one identity leaves those of the others.
pub has_id-remove_at :
    (id other : Text) (docs : List OpenDocumentReference) (i : ℕ)
    → position id docs ≡ some i
    → same other id ≡ false
    → has_id other docs ≡ true
    → has_id other (remove_at i docs) ≡ true
unfolding position has_id remove_at
has_id-remove_at id other [] i h d held = ground arith
has_id-remove_at id other (e ∷ es) i h d held = elim (Option-cases (position id es)) [
  | inl gone ↦ ground (arith, gone, same_eq e.id id, same_eq e.id other, same_refl other)
  | inr (j, found) ↦ ground (
    arith,
    found,
    has_id-remove_at id other es j found d,
    same_eq e.id id,
    same_eq e.id other,
    same_refl other,
  )
]

pub length-remove_at :
    (docs : List OpenDocumentReference) (i : ℕ)
    → i < length docs
    → length (remove_at i docs) + 1 ≡ length docs
unfolding remove_at
length-remove_at [] i h = absurd (omega arith)
length-remove_at (d ∷ ds) zero h = omega arith
length-remove_at (d ∷ ds) (suc i) h = omega (arith, length-remove_at ds i (omega arith))

-- The identity in a place of the list is of the list.
pub id_at-has_id :
    (i : ℕ) (docs : List OpenDocumentReference) (id : Text)
    → id_at i docs ≡ some id
    → has_id id docs ≡ true
unfolding has_id
id_at-has_id i [] id h = ground arith
id_at-has_id zero (d ∷ ds) id h = ground (arith, same_refl id)
id_at-has_id (suc i) (d ∷ ds) id h = ground (arith, id_at-has_id i ds id h)

pub id_at-some :
    (i : ℕ) (docs : List OpenDocumentReference)
    → i < length docs
    → (id : Text) × (id_at i docs ≡ some id)
id_at-some i [] h = absurd (omega arith)
id_at-some zero (d ∷ ds) h = (d.id, refl)
id_at-some (suc i) (d ∷ ds) h = id_at-some i ds (omega arith)

-- Beside a place that is no further than the end of the list stands a document of the list, unless
-- the list is empty.
pub neighbour-has_id :
    (i : ℕ) (docs : List OpenDocumentReference) (id : Text)
    → neighbour i docs ≡ some id
    → has_id id docs ≡ true
unfolding neighbour
neighbour-has_id zero docs id h = id_at-has_id 0 docs id h
neighbour-has_id (suc i) docs id h = elim (Option-cases (id_at (suc i) docs)) [
  | inl none_here ↦ id_at-has_id i docs id (ground (arith, h, none_here))
  | inr (j, here) ↦ id_at-has_id (suc i) docs id (ground (arith, h, here))
]

pub neighbour-none :
    (i : ℕ) (docs : List OpenDocumentReference)
    → i ≤ length docs
    → neighbour i docs ≡ none
    → length docs ≡ 0
unfolding neighbour
neighbour-none zero [] le h = refl
neighbour-none zero (d ∷ ds) le h = ground (arith, h)
neighbour-none (suc i) docs le h =
    let (j, here) = id_at-some i docs (omega arith) in ground (arith, h, here)

pub has_id-insert_at :
    (id : Text) (i : ℕ) (d : OpenDocumentReference) (docs : List OpenDocumentReference)
    → has_id id (insert_at i d docs) ≡ (same d.id id || has_id id docs)
unfolding has_id insert_at
has_id-insert_at id zero d docs = refl
has_id-insert_at id (suc i) d [] = refl
has_id-insert_at id (suc i) d (e ∷ es) = ground (arith, has_id-insert_at id i d es)

pub has_id_of_place :
    (id : Text) (i : ℕ) (d : OpenDocumentReference) (docs : List OpenDocumentReference)
    → get_elem? docs i ≡ some d
    → has_id id docs ≡ (same d.id id || has_id id (remove_at i docs))
unfolding has_id remove_at
has_id_of_place id i d [] h = ground arith
has_id_of_place id zero d (e ∷ es) h = let one : some e ≡ some d = h in ground (arith, one)
has_id_of_place id (suc i) d (e ∷ es) h = ground (arith, has_id_of_place id i d es h)
