-- ===== src/RuntimeExec.antt =====
-- crates/runtime-exec: the queues of the event loop, and the budgets and caches of the workers.
pub mod Tails
pub mod Timer
pub mod Budget
pub mod NormCache
pub mod ExecQueue
