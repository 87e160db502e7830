-- ===== src/Engine/Event.antt =====
-- engine/src/domain/watch.rs: what the host reports of a directory, and what is said of it.
use project_apex.Prelude.{ℕ, Bool, Text}
use project_apex.Prelude.Int.{ℤ}

pub data RawKind : Type 0 where
  created modified deleted overflow : RawKind
  moved_from moved_to : ℕ → RawKind

pub record RawEvent : Type 0 where
  pub kind : RawKind
  pub relative_path : Text
  pub is_directory : Bool
  pub size : ℕ
  pub modified : ℤ

pub data EventKind : Type 0 where
  created modified deleted : EventKind
  renamed : Text → EventKind

pub record FileEvent : Type 0 where
  pub kind : EventKind
  pub relative_path : Text
  pub is_directory : Bool
  pub size : ℕ
  pub modified : ℤ
