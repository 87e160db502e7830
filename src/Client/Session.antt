-- ===== src/Client/Session.antt =====
-- client/core/src/domain/session.rs: the open documents, their order and the focus. The identity
-- that `Uuid::new_v4` makes is an argument of `open_document`. A display name is the list of its
-- characters; `as u32` keeps the wrap-around.
pub mod Coherence
pub mod Documents
pub mod Loads
mod Tests
use project_apex.Prelude.{
  ℕ, zero, suc, ◌+◌, ◌-◌, ◌*◌, ◌/◌, ◌%◌, ◌^◌, ◌≤◌, ◌<◌, ◌≡◌, refl, sym, ap, ◌∙◌, ◌≢◌, ◌↔◌, ◌⊎◌, inl,
  inr, Bool, true, false, not, ◌&&◌, ◌||◌, Option, none, some, List, [], ◌∷◌, ◌++◌, map, append-nil,
  append_assoc, arith, ltb, leb, ◌==◌, if◌then◌else◌, Bool-cases, Option-cases, length,
  length-append, All, All-append, Text, codes, get_elem?,
}
use project_apex.Prelude.Utf8.{trim}
use Prim.Native.Nat.{Ordering}
use project_apex.Prelude.Int.{ℤ}
use project_apex.Prelude.Map.{same}
use project_apex.Prelude.Order.{text_ord}
use project_apex.Client.Layout.{Layout}
use project_apex.Client.Rail.{ToolWindowState}

abbrev pub schema_version : ℕ
schema_version = 4

abbrev pub max_name : ℕ
max_name = 255

abbrev pub as_u32 : ℕ → ℕ
as_u32 n = n % 4294967296

pub data LocationType : Type 0 where
  remote local : LocationType

pub record WorkspaceReference : Type 0 where
  pub id : Text
  pub name : Text
  pub location_type : LocationType

pub record OpenDocumentReference : Type 0 where
  pub id : Text
  pub display_name : List ℕ
  pub order : ℕ
  pub path : Text

pub data SessionError : Type 0 where
  invalid_display_name unknown_document order_out_of_range : SessionError

pub record WindowGeometry : Type 0 where
  pub x : ℤ
  pub y : ℤ
  pub width : ℕ
  pub height : ℕ
  pub maximized : Bool

pub record PersistedTask : Type 0 where
  pub task_id : Text
  pub workspace_id : Text

pub record PersistedSession : Type 0 where
  pub version : ℕ
  pub workspace : Option WorkspaceReference
  pub window : WindowGeometry
  pub layout : Layout
  pub documents : List OpenDocumentReference
  pub focused_document_id : Option Text
  pub tool_window : ToolWindowState
  pub tasks : List PersistedTask
  pub autosave : Bool

pub record SessionSnapshot : Type 0 where
  pub workspace : Option WorkspaceReference
  pub window : WindowGeometry
  pub layout : Layout
  pub documents : List OpenDocumentReference
  pub focused_document_id : Option Text
  pub tool_window : ToolWindowState
  pub tasks : List PersistedTask
  pub autosave : Bool

-- `SessionSnapshot::from`
unfoldable pub snapshot : PersistedSession → SessionSnapshot
snapshot p = record {
  workspace = p.workspace;
  window = p.window;
  layout = p.layout;
  documents = p.documents;
  focused_document_id = p.focused_document_id;
  tool_window = p.tool_window;
  tasks = p.tasks;
  autosave = p.autosave;
}

-- `any(|d| d.id == id)`
unfoldable pub has_id : Text → List OpenDocumentReference → Bool
has_id id [] = false
has_id id (d ∷ ds) = same d.id id || has_id id ds

-- `ids.sort_by(cmp)`
unfoldable pub place_id : Text → List Text → List Text
place_id a [] = a ∷ []
place_id a (b ∷ bs) =
    let rest = place_id a bs in
    elim (text_ord.order a b) [ Ordering.gt ↦ b ∷ rest | _ ↦ a ∷ b ∷ bs ]

unfoldable pub sort_ids : List Text → List Text
sort_ids [] = []
sort_ids (a ∷ xs) = place_id a (sort_ids xs)

-- `dedup`: of equal neighbours the first stays.
unfoldable pub dedup_after : Text → List Text → List Text
dedup_after a [] = []
dedup_after a (b ∷ bs) = if same a b then dedup_after a bs else b ∷ dedup_after b bs

unfoldable pub dedup : List Text → List Text
dedup [] = []
dedup (a ∷ xs) = a ∷ dedup_after a xs

-- `orders.sort_unstable()`
unfoldable pub place_order : ℕ → List ℕ → List ℕ
place_order a [] = a ∷ []
place_order a (b ∷ bs) = let rest = place_order a bs in if leb a b then a ∷ b ∷ bs else b ∷ rest

unfoldable pub sort_orders : List ℕ → List ℕ
sort_orders [] = []
sort_orders (a ∷ xs) = place_order a (sort_orders xs)

-- `(first..first + count).collect()`
unfoldable pub range : ℕ → ℕ → List ℕ
range first zero = []
range first (suc count) = first ∷ range (first + 1) count

unfoldable pub same_orders : List ℕ → List ℕ → Bool
same_orders [] [] = true
same_orders [] (b ∷ bs) = false
same_orders (a ∷ xs) [] = false
same_orders (a ∷ xs) (b ∷ bs) = a == b && same_orders xs bs

abbrev pub ids : List OpenDocumentReference → List Text
ids docs = map (λ (d : OpenDocumentReference). d.id) docs

unfoldable pub has_distinct_ids : List OpenDocumentReference → Bool
has_distinct_ids docs = length (dedup (sort_ids (ids docs))) == length docs

unfoldable pub has_packed_orders : List OpenDocumentReference → Bool
has_packed_orders docs =
    same_orders (sort_orders (map (λ (d : OpenDocumentReference). d.order) docs))
      (range 0 (as_u32 (length docs)))

-- The focus is on one of the documents, or nowhere when there is none.
unfoldable pub has_focus : Option Text → List OpenDocumentReference → Bool
has_focus none docs = length docs == 0
has_focus (some id) docs = has_id id docs

unfoldable pub is_coherent : PersistedSession → Bool
is_coherent s =
    if ltb schema_version s.version
    then false
    else if not (has_distinct_ids s.documents)
    then false
    else if not (has_packed_orders s.documents)
    then false
    else has_focus s.focused_document_id s.documents

-- The place of the first document with an identity.
unfoldable pub position : Text → List OpenDocumentReference → Option ℕ
position id [] = none
position id (d ∷ ds) =
    let later : Option ℕ = elim (position id ds) [ none ↦ none | some i ↦ some (i + 1) ] in
    if same d.id id then some 0 else later

-- `documents.iter().find(|d| d.path == path)`
unfoldable pub find_path : Text → List OpenDocumentReference → Option OpenDocumentReference
find_path path [] = none
find_path path (d ∷ ds) = let rest = find_path path ds in if same d.path path then some d else rest

unfoldable pub repack_orders : ℕ → List OpenDocumentReference → List OpenDocumentReference
repack_orders i [] = []
repack_orders i (d ∷ ds) = record d { order = as_u32 i } ∷ repack_orders (i + 1) ds

pub data Result (A : Type 0) : Type 0 where
  ok : A → Result A
  err : SessionError → Result A

abbrev pub is_nil {ℓ} : {A : Type ℓ} → List A → Bool
is_nil [] = true
is_nil (x ∷ xs) = false

-- A new tab, which takes the focus.
unfoldable pub open_new : Text → List ℕ → Text → PersistedSession → PersistedSession
open_new fresh display_name path s = record s {
  documents =
      s.documents
      ++ record {
        id = fresh;
        display_name = display_name;
        order = as_u32 (length s.documents);
        path = path;
      }
        ∷ [];
  focused_document_id = some fresh;
}

unfoldable pub open_document :
    Text → List ℕ → Text → PersistedSession → Result (PersistedSession × Text)
open_document fresh display_name path s =
    if is_nil (trim display_name) || ltb max_name (length display_name)
    then err invalid_display_name
    else if is_nil path
    then ok (open_new fresh display_name path s, fresh)
    else elim (find_path path s.documents) [
      | some open_already ↦
          ok (record s { focused_document_id = some open_already.id }, open_already.id)
      | none ↦ ok (open_new fresh display_name path s, fresh)
    ]

unfoldable pub set_workspace : Text → Text → LocationType → PersistedSession → PersistedSession
set_workspace id name location_type s = record s {
  workspace = some (record { id = id; name = name; location_type = location_type });
}

unfoldable pub remove_at {ℓ} : {A : Type ℓ} → ℕ → List A → List A
remove_at i [] = []
remove_at zero (x ∷ xs) = xs
remove_at (suc i) (x ∷ xs) = x ∷ remove_at i xs

unfoldable pub insert_at {ℓ} : {A : Type ℓ} → ℕ → A → List A → List A
insert_at zero a xs = a ∷ xs
insert_at (suc i) a [] = a ∷ []
insert_at (suc i) a (x ∷ xs) = x ∷ insert_at i a xs

abbrev pub id_at : ℕ → List OpenDocumentReference → Option Text
id_at i docs = elim (get_elem? docs i) [ none ↦ none | some d ↦ some d.id ]

-- The document that took a closed document's place, or the one before it.
unfoldable pub neighbour : ℕ → List OpenDocumentReference → Option Text
neighbour zero docs = id_at 0 docs
neighbour (suc i) docs = elim (id_at (suc i) docs) [ some id ↦ some id | none ↦ id_at i docs ]

abbrev pub is_focused : Text → PersistedSession → Bool
is_focused id s = elim s.focused_document_id [ none ↦ false | some focused ↦ same focused id ]

unfoldable pub close_document : Text → PersistedSession → Result PersistedSession
close_document id s = elim (position id s.documents) [
  | none ↦ err unknown_document
  | some idx ↦
      let docs = repack_orders 0 (remove_at idx s.documents) in
      ok (record s {
        documents = docs;
        focused_document_id = if is_focused id s then neighbour idx docs else s.focused_document_id;
      })
]

unfoldable pub reorder_document : Text → ℕ → PersistedSession → Result PersistedSession
reorder_document id to s =
    if leb (length s.documents) to then err order_out_of_range else elim (position id s.documents) [
      | none ↦ err unknown_document
      | some source ↦ elim (get_elem? s.documents source) [
        | none ↦ err unknown_document
        | some doc ↦ ok (record s {
          documents = repack_orders 0 (insert_at to doc (remove_at source s.documents));
        })
      ]
    ]

unfoldable pub focus_document : Text → PersistedSession → Result PersistedSession
focus_document id s =
    if has_id id s.documents
    then ok (record s { focused_document_id = some id })
    else err unknown_document
