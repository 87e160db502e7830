-- ===== src/Client.antt =====
-- The crate `client/core`: the desktop client's own logic.
pub mod SendQueue
pub mod Layout
pub mod Rail
pub mod Session
pub mod Supervise
pub mod RelPath
pub mod Status
pub mod Ports
pub mod Reconcile
pub mod Conflicts
