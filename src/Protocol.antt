-- ===== src/Protocol.antt =====
-- The crate `protocol`: what both ends of the connection agree on byte for byte.
pub mod Base64
pub mod Framing
pub mod Wire
