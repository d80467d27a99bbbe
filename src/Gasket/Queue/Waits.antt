-- ===== src/Gasket/Queue/Waits.antt =====
-- The bounded waits of the loopback bench, for every behaviour of the gaskets.
use fpga_g_ptp.Base.{◌+◌, ◌≤◌, ◌≡◌, some}
use fpga_g_ptp.Harness.Verilated.{Verilated}
use fpga_g_ptp.Gasket.Clock.{GasketIn, GasketOut, Bench}

-- Clocks only: what the bench grades, counts and has read is as it was.
pub record OnlyClocks {S : Type 0} (b c : Bench S) : Type 0 where
  pub tally : c.tally ≡ b.tally
  pub timeouts : c.push_timeouts ≡ b.push_timeouts
  pub read : c.rp ≡ b.rp
  pub frames : c.nf ≡ b.nf

module _ (V : Verilated GasketIn GasketOut) where
  -- What a push may do to the bench.
  record Pushed (b c : Bench V.State) : Type 0 where
    tally : c.tally ≡ b.tally
    some : b.push_timeouts ≤ c.push_timeouts
    most : c.push_timeouts ≤ b.push_timeouts + 1
    read : c.rp ≡ b.rp
