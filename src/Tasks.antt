-- ===== src/Tasks.antt =====
-- tasks/: the command-line tasks.
pub mod PoolAdmin
pub mod Full
pub mod OracleAdmin
