-- ===== src/Thread.antt =====
-- thread.c and thread.h.
pub mod ListLib
pub mod State
pub mod Sched
pub mod Create
pub mod Inv
pub mod Safe
pub mod Sync
pub mod Chan
pub mod Tests
