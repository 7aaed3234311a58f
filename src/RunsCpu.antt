-- ===== src/RunsCpu.antt =====
-- Validity of the context under the helpers and handlers of core/src/cpu.c.
pub mod Helpers
pub mod Flow
pub mod Handlers
pub mod Block
pub mod Tables
pub mod Run
