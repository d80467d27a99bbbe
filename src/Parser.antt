-- ===== src/Parser.antt =====
-- tb/verilator/parser/sim_main.cpp: the frames that the parser suite builds, the
-- feeding of them, the checks of what the parser made of each, and the whole run.
mod Tests
pub mod Frames
pub mod Feed
pub mod Chain
pub mod Expect
pub mod Checks
pub mod Suite
