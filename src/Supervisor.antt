-- ===== src/Supervisor.antt =====
-- crates/supervisor: the fleet of tabs, the records of tasks, forms and the watch list.
pub mod Fleet
pub mod Task
pub mod Form
pub mod Watch
