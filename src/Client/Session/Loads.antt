-- ===== src/Client/Session/Loads.antt =====
-- client/core/src/domain/session.rs: a session whose orders are packed passes the check that a
-- stored one has to pass.
use project_apex.Prelude.{
  ℕ, zero, suc, ◌+◌, ◌%◌, ◌≤◌, ◌<◌, ◌≡◌, refl, sym, ap, ◌∙◌, true, List, [], ◌∷◌, map, arith,
  length,
}
use project_apex.Client.Session.{
  OpenDocumentReference, PersistedSession, repack_orders, has_distinct_ids, has_packed_orders,
  place_order, sort_orders, range, same_orders, is_coherent,
}
use project_apex.Client.Session.Coherence.{IsKept, Command, perform_all, perform_all-IsKept}

abbrev orders : List OpenDocumentReference → List ℕ
orders docs = map (λ (d : OpenDocumentReference). d.order) docs

orders-repack_orders :
    (i : ℕ) (docs : List OpenDocumentReference)
    → i + length docs ≤ 4294967296
    → orders (repack_orders i docs) ≡ range i (length docs)
unfolding repack_orders range
orders-repack_orders i [] h = refl
orders-repack_orders i (d ∷ ds) h =
    let small : i % 4294967296 ≡ i = omega arith in
    rw (small, orders-repack_orders (i + 1) ds (omega arith)) refl

place_order-range : (i n : ℕ) → place_order i (range (i + 1) n) ≡ i ∷ range (i + 1) n
unfolding place_order range
place_order-range i zero = refl
place_order-range i (suc n) = ground arith

sort_orders-range : (i n : ℕ) → sort_orders (range i n) ≡ range i n
unfolding sort_orders range
sort_orders-range i zero = refl
sort_orders-range i (suc n) = rw (sort_orders-range (i + 1) n) (place_order-range i n)

same_orders_refl : (xs : List ℕ) → same_orders xs xs ≡ true
unfolding same_orders
same_orders_refl [] = refl
same_orders_refl (x ∷ xs) = ground (arith, same_orders_refl xs)

packed-has_packed_orders :
    (docs : List OpenDocumentReference)
    → repack_orders 0 docs ≡ docs
    → length docs < 4294967296
    → has_packed_orders docs ≡ true
unfolding has_packed_orders
packed-has_packed_orders docs packed small =
    let fits : length docs % 4294967296 ≡ length docs = omega arith in
    let counted : orders docs ≡ range 0 (length docs) =
      ap orders (sym packed) ∙ orders-repack_orders 0 docs (omega arith) in
    rw (fits, counted, sort_orders-range 0 (length docs)) (same_orders_refl (range 0 (length docs)))

-- When each document's order is its place and the focus is on an open document, or nowhere when
-- none is open, then after any commands that leave the documents' identities distinct, fewer than
-- 2 ^ 32 of them and a version of this release or an older one, the session passes the check on
-- loading.
pub perform_all-is_coherent :
    (cs : List Command) (s : PersistedSession)
    → IsKept s
    → has_distinct_ids (perform_all cs s).documents ≡ true
    → length (perform_all cs s).documents < 4294967296
    → (perform_all cs s).version ≤ 4
    → is_coherent (perform_all cs s) ≡ true
unfolding is_coherent
perform_all-is_coherent cs s k distinct small old =
    let kept = perform_all-IsKept cs s k in
    let orders_fit = packed-has_packed_orders (perform_all cs s).documents kept.packed small in
    ground (arith, distinct, old, kept.focus, orders_fit)
