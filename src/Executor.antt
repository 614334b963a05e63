-- ===== src/Executor.antt =====
-- `ArbitrageExecutor` (src/execution/execution.cpp): one module for each group of its handlers, and
-- the theorems about them.
pub mod Defs
pub mod Sizing
pub mod Filters
pub mod Cycle
pub mod Cleanup
pub mod Report
pub mod Machine
pub mod Invariant
pub mod Safety
pub mod Halting
pub mod Clearing
mod Tests
