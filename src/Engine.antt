-- ===== src/Engine.antt =====
-- The crate `engine`: what runs on the developer's host.
pub mod Watch
pub mod TaskSet
pub mod Output
pub mod Event
pub mod Coalescer
pub mod GitCoalescer
pub mod GitPager
pub mod Exclusions
pub mod Path
pub mod Listing
pub mod Reading
pub mod Workspace
pub mod Tasks
pub mod GitOutput
