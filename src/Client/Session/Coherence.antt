-- ===== src/Client/Session/Coherence.antt =====
-- client/core/src/domain/session.rs: the orders stay packed and the focus stays on an open document.
use project_apex.Prelude.{
  ℕ, ◌+◌, ◌≤◌, ◌≡◌, refl, sym, ◌∙◌, inl, inr, true, false, ◌||◌, Option, none, some, List, [], ◌∷◌,
  arith, ltb, leb, if◌then◌else◌, Bool-cases, Option-cases, length, Text,
}
use project_apex.Client.Session.Documents.{
  has_id-insert_at, has_id_of_place, has_id-repack_orders, length-repack_orders,
  repack_orders-repack_orders, repack_orders-append, has_id-append, position-lt, has_id-remove_at,
  length-remove_at, neighbour-has_id, neighbour-none,
}
use project_apex.Client.Session.{
  insert_at, is_nil, has_id, OpenDocumentReference, PersistedSession, Result, ok, err, position,
  find_path, repack_orders, remove_at, neighbour, as_u32, has_focus, open_new, open_document,
  close_document, reorder_document, focus_document, get_elem?,
}
use project_apex.Prelude.Map.{same_refl, same}
use project_apex.Prelude.Order.{text_ord}
use project_apex.Prelude.Utf8.{trim}

-- Each document's order is its place, and the focus is on an open document, or nowhere when there
-- is none.
pub record IsKept (s : PersistedSession) : Type 0 where
  pub packed : repack_orders 0 s.documents ≡ s.documents
  pub focus : has_focus s.focused_document_id s.documents ≡ true

find_path-has_id :
    (path : Text) (docs : List OpenDocumentReference) (d : OpenDocumentReference)
    → find_path path docs ≡ some d
    → has_id d.id docs ≡ true
unfolding find_path has_id
find_path-has_id path [] d h = ground arith
find_path-has_id path (e ∷ es) d h = elim (Bool-cases (same e.path path)) [
  | inl here ↦
      let one : some e ≡ some d = ground (arith, h, here) in ground (arith, one, same_refl d.id)
  | inr there ↦ ground (arith, find_path-has_id path es d (ground (arith, h, there)))
]

open_new-IsKept :
    (fresh : Text) (name : List ℕ) (path : Text) (s : PersistedSession)
    → IsKept s
    → IsKept (open_new fresh name path s)
unfolding open_new has_focus repack_orders has_id
open_new-IsKept fresh name path s k =
    let tab : OpenDocumentReference = record {
      id = fresh;
      display_name = name;
      order = as_u32 (length s.documents);
      path = path;
    } in
    let start : 0 + length s.documents ≡ length s.documents = omega arith in
    record {
      packed = rw (repack_orders-append 0 s.documents (tab ∷ []), k.packed, start) refl;
      focus = rw (has_id-append fresh s.documents (tab ∷ []), same_refl fresh) (ground arith);
    }

-- The session after an operation: a refused one leaves it as it was.
abbrev pub after : PersistedSession → Result PersistedSession → PersistedSession
after s (ok s') = s'
after s (err e) = s

abbrev pub after_open : PersistedSession → Result (PersistedSession × Text) → PersistedSession
after_open s (ok (s', id)) = s'
after_open s (err e) = s

open_document-IsKept :
    (fresh : Text) (name : List ℕ) (path : Text) (s : PersistedSession)
    → IsKept s
    → IsKept (after_open s (open_document fresh name path s))
unfolding open_document has_focus
open_document-IsKept fresh name path s k =
    let opened = open_new-IsKept fresh name path s k in
    elim (Bool-cases (is_nil (trim name) || ltb 255 (length name))) [
      | inl bad ↦ rw (bad, open_document) k
      | inr good ↦ elim (Bool-cases (is_nil path)) [
        | inl bare ↦ rw (good, bare, open_document) opened
        | inr named ↦ elim (Option-cases (find_path path s.documents)) [
          | inl unknown ↦ rw (good, named, unknown, open_document) opened
          | inr (d, found) ↦
              rw (good, named, found, open_document)
                (record { packed = k.packed; focus = find_path-has_id path s.documents d found })
        ]
      ]
    ]

-- The focus after the document in a place was closed.
closed-focus :
    (id : Text) (i : ℕ) (focused : Option Text) (docs : List OpenDocumentReference)
    → position id docs ≡ some i
    → has_focus focused docs ≡ true
    → has_focus
        (if elim focused [ none ↦ false | some f ↦ same f id ]
          then neighbour i (repack_orders 0 (remove_at i docs))
          else focused)
        (repack_orders 0 (remove_at i docs))
      ≡ true
unfolding has_focus
closed-focus id i none docs at held = absurd (ground (arith, position-lt id docs i at))
closed-focus id i (some f) docs at held =
    let left = repack_orders 0 (remove_at i docs) in
    let count : length left ≡ length (remove_at i docs) =
      length-repack_orders 0 (remove_at i docs) in
    let bound : i ≤ length left = omega (
      arith,
      count,
      length-remove_at docs i (position-lt id docs i at),
      position-lt id docs i at,
    ) in
    elim (Bool-cases (same f id)) [
      | inr other ↦
          rw (other) (
            has_id-repack_orders f 0 (remove_at i docs)
            ∙ has_id-remove_at id f docs i at other held)
      | inl mine ↦ elim (Option-cases (neighbour i left)) [
        | inl alone ↦ rw (mine, alone) (ground (arith, neighbour-none i left bound alone))
        | inr (g, next) ↦ rw (mine, next) (neighbour-has_id i left g next)
      ]
    ]

close_document-IsKept :
    (id : Text) (s : PersistedSession) → IsKept s → IsKept (after s (close_document id s))
unfolding close_document
close_document-IsKept id s k = elim (Option-cases (position id s.documents)) [
  | inl unknown ↦ rw (unknown, close_document) k
  | inr (i, at) ↦
      rw (at, close_document)
        (record {
          packed = repack_orders-repack_orders 0 (remove_at i s.documents);
          focus = closed-focus id i s.focused_document_id s.documents at k.focus;
        })
]

focus_document-IsKept :
    (id : Text) (s : PersistedSession) → IsKept s → IsKept (after s (focus_document id s))
unfolding focus_document has_focus
focus_document-IsKept id s k = elim (Bool-cases (has_id id s.documents)) [
  | inl known ↦ rw (known, focus_document) (record { packed = k.packed; focus = known })
  | inr unknown ↦ rw (unknown, focus_document) k
]

-- A document that is taken out and put in elsewhere leaves the same documents open.
has_id-moved :
    (f : Text) (source to : ℕ) (doc : OpenDocumentReference) (docs : List OpenDocumentReference)
    → get_elem? docs source ≡ some doc
    → has_id f (repack_orders 0 (insert_at to doc (remove_at source docs))) ≡ has_id f docs
has_id-moved f source to doc docs held =
    has_id-repack_orders f 0 (insert_at to doc (remove_at source docs))
    ∙ has_id-insert_at f to doc (remove_at source docs)
    ∙ sym (has_id_of_place f source doc docs held)

moved-focus :
    (id : Text) (focused : Option Text) (source to : ℕ) (doc : OpenDocumentReference)
    (docs : List OpenDocumentReference)
    → position id docs ≡ some source
    → get_elem? docs source ≡ some doc
    → has_focus focused docs ≡ true
    → has_focus focused (repack_orders 0 (insert_at to doc (remove_at source docs))) ≡ true
unfolding has_focus
moved-focus id none source to doc docs at there held =
    absurd (ground (arith, position-lt id docs source at))
moved-focus id (some f) source to doc docs at there held =
    has_id-moved f source to doc docs there ∙ held

reorder_document-IsKept :
    (id : Text) (to : ℕ) (s : PersistedSession)
    → IsKept s
    → IsKept (after s (reorder_document id to s))
unfolding reorder_document
reorder_document-IsKept id to s k = elim (Bool-cases (leb (length s.documents) to)) [
  | inl far ↦ rw (far, reorder_document) k
  | inr near ↦ elim (Option-cases (position id s.documents)) [
    | inl unknown ↦ rw (near, unknown, reorder_document) k
    | inr (source, at) ↦ elim (Option-cases (get_elem? s.documents source)) [
      | inl nothing ↦ rw (near, at, nothing, reorder_document) k
      | inr (doc, there) ↦
          rw (near, at, there, reorder_document)
            (record {
              packed =
                  repack_orders-repack_orders 0 (insert_at to doc (remove_at source s.documents));
              focus =
                  moved-focus id s.focused_document_id source to doc s.documents at there k.focus;
            })
    ]
  ]
]

-- What the commands of the interface do to the open documents; a new tab comes with its identity.
pub data Command : Type 0 where
  opens : Text → List ℕ → Text → Command
  closes focuses : Text → Command
  reorders : Text → ℕ → Command

unfoldable pub perform : Command → PersistedSession → PersistedSession
perform (opens fresh name path) s = after_open s (open_document fresh name path s)
perform (closes id) s = after s (close_document id s)
perform (focuses id) s = after s (focus_document id s)
perform (reorders id to) s = after s (reorder_document id to s)

unfoldable pub perform_all : List Command → PersistedSession → PersistedSession
perform_all [] s = s
perform_all (c ∷ cs) s = perform_all cs (perform c s)

-- When each document's order is its place and the focus is on an open document, or nowhere when
-- none is open, the same holds after any commands, refused ones among them.
pub perform_all-IsKept :
    (cs : List Command) (s : PersistedSession) → IsKept s → IsKept (perform_all cs s)
unfolding perform_all perform
perform_all-IsKept [] s k = k
perform_all-IsKept (opens fresh name path ∷ cs) s k =
    perform_all-IsKept cs _ (open_document-IsKept fresh name path s k)
perform_all-IsKept (closes id ∷ cs) s k = perform_all-IsKept cs _ (close_document-IsKept id s k)
perform_all-IsKept (focuses id ∷ cs) s k = perform_all-IsKept cs _ (focus_document-IsKept id s k)
perform_all-IsKept (reorders id to ∷ cs) s k =
    perform_all-IsKept cs _ (reorder_document-IsKept id to s k)
