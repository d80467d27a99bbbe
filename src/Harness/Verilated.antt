-- ===== src/Harness/Verilated.antt =====
-- The class that Verilator generates from the RTL. It is built code, so it is a parameter of every
-- harness: its state, the state it is elaborated in, `eval()` at the values on the input ports, and
-- the output ports as they stand after an `eval()`.

pub record Verilated (In Out : Type 0) : Type 1 where
  pub State : Type 0
  pub fresh : State
  pub eval : In → State → State
  pub out : State → Out
