-- ===== src/Client/Status.antt =====
-- client/core/src/domain/connection.rs and client/core/src/domain/cache.rs: what the developer is
-- told of the connection, of watching and of cached content. A digest is its text.
pub mod Distinct
mod Tests
use project_apex.Prelude.Int.{ℤ, pos, ◌-ℤ◌}
use project_apex.Prelude.{
  ℕ, zero, suc, ◌+◌, ◌-◌, ◌*◌, ◌/◌, ◌%◌, ◌^◌, ◌≤◌, ◌<◌, ◌≡◌, refl, sym, ap, ◌∙◌, ◌≢◌, ◌↔◌, ◌⊎◌, inl,
  inr, Bool, true, false, not, ◌&&◌, ◌||◌, Option, none, some, List, [], ◌∷◌, ◌++◌, map, append-nil,
  append_assoc, arith, ltb, leb, ◌==◌, if◌then◌else◌, Bool-cases, Option-cases, length,
  length-append, All, All-append, Text, codes,
}
use project_apex.Prelude.Map.{same}
use project_apex.Prelude.Order.{text_ord}

pub data ConnectionState : Type 0 where
  unknown connecting connected disconnected : ConnectionState
  retrying : ℕ → ℕ → ConnectionState

unfoldable pub icon : ConnectionState → Text
icon unknown = codes "question"
icon connecting = codes "circle-dashed"
icon connected = codes "plugs-connected"
icon disconnected = codes "plugs"
icon (retrying attempt next_in_secs) = codes "arrows-clockwise"

unfoldable pub label : ConnectionState → Text
label unknown = codes "Unknown"
label connecting = codes "Connecting"
label connected = codes "Connected"
label disconnected = codes "Offline"
label (retrying attempt next_in_secs) = codes "Reconnecting"

unfoldable pub is_retrying : ConnectionState → Bool
is_retrying s = elim s [ retrying attempt next_in_secs ↦ true | _ ↦ false ]

pub data Reporting : Type 0 where
  live offline unavailable : Reporting
  partial : ℕ → Reporting

unfoldable pub is_live : Reporting → Bool
is_live r = elim r [ live ↦ true | _ ↦ false ]

pub data Validity : Type 0 where
  valid stale absent : Validity

unfoldable pub compare_hashes : Option Text → Option Text → Validity
compare_hashes none engine = absent
compare_hashes (some c) none = stale
compare_hashes (some c) (some e) = if same c e then valid else stale

pub data Presentation : Type 0 where
  verifying current unverified possibly_stale content_unavailable gone : Presentation

unfoldable pub all_presentations : List Presentation
all_presentations =
    verifying ∷ current ∷ unverified ∷ possibly_stale ∷ content_unavailable ∷ gone ∷ []

pub data MaintenancePhase : Type 0 where
  idle checking rebuilding evicting ready : MaintenancePhase
  migrating : ℕ → ℕ → MaintenancePhase

unfoldable pub is_rendered : MaintenancePhase → Bool
is_rendered p = elim p [
  | migrating source target ↦ true
  | rebuilding ↦ true
  | evicting ↦ true
  | _ ↦ false
]

-- `RetentionWindow::cutoff`, in seconds
unfoldable pub cutoff : ℕ → ℤ → ℤ
cutoff window now = now -ℤ pos window

abbrev pub days_14 : ℕ
days_14 = 14 * 24 * 60 * 60
