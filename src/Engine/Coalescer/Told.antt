-- ===== src/Engine/Coalescer/Told.antt =====
-- engine/src/application/coalescer.rs: what a drain tells of, and in which order.
use project_apex.Prelude.Map.{Map}
use project_apex.Prelude.Order.{text_ord, nat_ord}
use project_apex.Engine.Coalescer.{Coalescer}
