-- ===== src/Tsngen.antt =====
-- tb/tsngen/tsngen_main.cpp, class `TsnGenHarness`: the engine driven by a script.
mod Tests
pub mod Clock
pub mod Peer
pub mod Script
