-- ===== src/Syncx.antt =====
-- The concurrency primitives of shared/syncx: the drop counter and the timer group.
pub mod DropCounter
pub mod TimerGroup
