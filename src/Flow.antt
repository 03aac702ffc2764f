-- ===== src/Flow.antt =====
-- flow/: the priority classes, the scheduler of outgoing stream chunks and the manager of flows.
pub mod Scheduler
pub mod State
pub mod Opening
pub mod Manager
use aurora_core.Common.{ℕ}

abbrev pub priority_interactive : ℕ
priority_interactive = 0x01

abbrev pub priority_bulk : ℕ
priority_bulk = 0x02

abbrev pub priority_realtime : ℕ
priority_realtime = 0x03
