-- ===== src/Client/Status/Distinct.antt =====
-- client/core/src/domain/connection.rs and cache.rs: no two states look the same, and only a hash
-- that matches makes cached content valid.
use project_apex.Prelude.{◌≡◌, refl, sym, ap, ◌↔◌, ◌⊎◌, inl, inr, Option, none, some, arith, Text}
use project_apex.Prelude.Map.{same_eq, same_refl}
use project_apex.Prelude.Order.{text_ord}
use project_apex.Client.Status.{
  ConnectionState, unknown, connecting, connected, disconnected, retrying, icon, label, valid,
  compare_hashes,
}

-- The five states, without the progress of a retry.
abbrev pub without_progress : ConnectionState → ConnectionState
without_progress unknown = unknown
without_progress connecting = connecting
without_progress connected = connected
without_progress disconnected = disconnected
without_progress (retrying attempt next_in_secs) = retrying 0 0

-- Two states that share their icon, or their label, are one state, up to the progress of a retry.
pub icon_label-distinct :
    (s t : ConnectionState)
    → (icon s ≡ icon t) ⊎ (label s ≡ label t)
    → without_progress s ≡ without_progress t
unfolding icon label
icon_label-distinct s t (inl h) = ground (arith, h)
icon_label-distinct s t (inr h) = ground (arith, h)

-- Cached content is valid exactly when it is there and the engine names the same hash.
pub compare_hashes-valid :
    (cached engine : Option Text)
    → (compare_hashes cached engine ≡ valid) ↔ ((c : Text) × (cached ≡ some c) × (engine ≡ some c))
unfolding compare_hashes
compare_hashes-valid none engine =
    (λ h. absurd (ground (arith, h)), λ (c, e, f). absurd (ground (arith, e)))
compare_hashes-valid (some c) none =
    (λ h. absurd (ground (arith, h)), λ (d, e, f). absurd (ground (arith, f)))
compare_hashes-valid (some c) (some e) = (
  λ h. (c, refl, ap some (sym (same_eq c e (ground (arith, h))))),
  λ (d, p, q). ground (arith, p, q, same_refl d),
)
