-- ===== src/Ucpu.antt =====
-- tb/verilator/ucpu/sim_main.cpp: the arithmetic battery of the micro-CPU, from the operand generator
-- to the verdict.
mod Tests
pub mod Operands
pub mod Model
pub mod Battery
