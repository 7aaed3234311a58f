-- ===== src/Cpu/Tables.antt =====
-- The two jump tables of `agoge_core_cpu_run`.
pub mod Ops
pub mod Cbs
