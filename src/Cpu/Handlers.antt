-- ===== src/Cpu/Handlers.antt =====
-- The handlers of `agoge_core_cpu_run` in core/src/cpu.c, by the rows of the opcode table.
pub mod Low
pub mod High
pub mod Block
