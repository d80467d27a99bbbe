-- ===== src/Harness.antt =====
-- What every harness shares: the Verilated model it drives, and the two ways it counts checks.
pub mod Verilated
pub mod Tally
pub mod Checker
