-- ===== src/Lib.antt =====
-- The test harnesses of the gPTP plane, modelled and verified.
--
-- The C++ of this repository drives the RTL: each harness owns a class that Verilator generates from
-- the RTL, gives it clocks and frames, records what its ports show and grades that against an
-- independent model. A harness that records or computes wrongly passes a broken design, so the
-- theorems are about the harnesses: their recorders, their frame builders, their mirrors of the
-- specification, their bounded waits and their verdicts.
--
--   Base     shared names: Boolean tests, vectors as lists, words, signed integers, laws of bits
--   Harness  tb/common/verilator_harness.hpp: `Checker`; the two-counter tallies; `Verilated`
--   Wire     `struct Frame` and the field readers of tb/verilator/engine/sim_main.cpp
--   Engine   tb/verilator/engine/sim_main.cpp, `GptpEngineHarness`: Frames (builders), Pdelay and
--            Servo (mirrors), Face (egress results), Transmit (captured frames), Phc (hardware
--            clock), Watch (published state), Bench (`tick` and the loops on it, over the others),
--            Suite (`service_pdelay` and the waits that interleave it); under Suite: Phased (members of the
--            phases), Send (what they send and grade by), Interval (scripted Sync), Boot, Capable,
--            Exchange, Sending, Pairing, Loss, Present, Record (phases), Pass (the fourth pass of
--            `run_suite`), Graded (the tally)
--   Ucpu     tb/verilator/ucpu/sim_main.cpp: Operands, Model, Battery
--   Gasket   tb/verilator/gaskets/sim_main.cpp: Clock, Queue, Legs
--   Parser   tb/verilator/parser/sim_main.cpp: Frames and Chain (builders), Feed (one frame through
--            the parser), Expect (comparisons), Checks (every `check_` method), Suite (`run`)
--   Tsngen   tb/tsngen/tsngen_main.cpp: Clock, Peer, Script
--   MiiTx    bench/arty/bench_mii_tx_tag_test.cpp
--
-- The generated class is built code and a parameter, `Verilated`: a state, the state it starts in,
-- `eval` at the input ports, and the output ports. The theorems assume nothing of it: they hold for
-- every design, right or wrong. A harness is a record of the class's state, the ports and the
-- members; a method is a function on it. A C++ `uint64_t` is a native number with its wrap-around
-- written out, an `int64_t` an integer, a vector a list, a map an association list, and the -1 of
-- `auto_pend` is `none`. An `int` counter is a native number: past its range C++ leaves it undefined.
-- Printed text is dropped, but for the lines of `Checker` and of the script.
--
-- Bounded loops of the source keep their bounds. The wait of the micro-CPU battery takes fuel for one
-- turn more than its time limit in cycles, which is enough since each turn is a cycle. The
-- responder of the script harness and `service_pdelay` have no bound in the source, since answering
-- runs the engine, which may send more, and an engine that keeps sending keeps the source in them for
-- ever: their fuel is a parameter, and the theorems hold for every value of it. The engine suite's
-- `is_cut` says that the fuel of some call ran out, where the source would have gone on; the pass has no
-- status then. Where it is false, the run is the source's.
--
-- Not modelled: the phases of `run_every_phase` that are neither in the fourth pass nor 1a, 1b, 2
-- to 3d or 6 to 7c, which are calls of what is here; the RTL and the microcode generator, which are
-- not C++; `Model<T>`, which owns the class and frees it; the splitting of a script line into words.
pub mod Base
pub mod Harness
pub mod Wire
pub mod Engine
pub mod Ucpu
pub mod Gasket
pub mod MiiTx
pub mod Tsngen
pub mod Parser
