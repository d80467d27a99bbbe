-- ===== src/Engine.antt =====
-- tb/verilator/engine/sim_main.cpp, class `GptpEngineHarness`: the constants, the frames it builds,
-- the mirrors of the specification that it grades the engine against, the clocked bench with its
-- recorders, and the peer, waits and senders that the phases share.
mod Tests
pub mod Const
pub mod Frames
pub mod Pdelay
pub mod Servo
pub mod Ports
pub mod Watch
pub mod Face
pub mod Transmit
pub mod Bench
pub mod Phc
pub mod Suite
