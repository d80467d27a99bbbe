-- ===== src/Gasket.antt =====
-- tb/verilator/gaskets/sim_main.cpp, class `GasketLoopbackHarness`: the MII gasket loopback bench.
mod Tests
pub mod Clock
pub mod Queue
pub mod Legs
