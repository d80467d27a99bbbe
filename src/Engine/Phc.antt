-- ===== src/Engine/Phc.antt =====
-- tb/verilator/engine/sim_main.cpp, the PTP hardware clock that the engine under test steers: the
-- Q24 accumulator of `phc_acc`, and the records of the addend and step writes that move it.
pub mod Laws
use fpga_g_ptp.Base.{
  ℕ, ◌+◌, ◌-◌, ◌*◌, ◌%◌, ◌^◌, Bool, true, false, ◌||◌, List, [], if◌then◌else◌, snoc, ◌<<<◌, ◌>>>◌,
  u64, count_u64,
}
use fpga_g_ptp.Base.Int.{ℤ, pos, negsuc, neg, ◌+ℤ◌, ltb_ℤ, eqb_ℤ, to_i64, to_i32, to_u64}
use fpga_g_ptp.Engine.Ports.{EngineOut}
use fpga_g_ptp.Engine.Servo.{sv_amax}

pub record Phc : Type 0 where
  pub phc_acc : ℕ  -- 128 bits
  pub phc_adj : ℤ
  pub steps_seen : List ℕ
  pub adj_seen : List ℕ
  pub step_cyc : List ℕ
  pub adj_cyc : List ℕ
  pub adj_out_of_envelope : ℕ
  pub adj_on_the_rail : ℕ
  pub slew_at_step : List Bool

abbrev pub initial : Phc
initial = record {
  phc_acc = 0;
  phc_adj = pos 0;
  steps_seen = [];
  adj_seen = [];
  step_cyc = [];
  adj_cyc = [];
  adj_out_of_envelope = 0;
  adj_on_the_rail = 0;
  slew_at_step = [];
}

unfoldable pub phc : Phc → ℕ
phc p = u64 (p.phc_acc >>> 24)

-- `a > SV_AMAX || a < -SV_AMAX`
abbrev pub outside_envelope : ℤ → Bool
outside_envelope a = ltb_ℤ (pos sv_amax) a || ltb_ℤ a (neg (pos sv_amax))

-- `a == SV_AMAX || a == -SV_AMAX`
abbrev pub on_the_rail : ℤ → Bool
on_the_rail a = eqb_ℤ a (pos sv_amax) || eqb_ℤ a (neg (pos sv_amax))

-- The branch `if (dut->phc_addend_we_o)`, on the addend written.
unfoldable pub write_addend : (cyc addend : ℕ) → Phc → Phc
write_addend cyc addend p = record p {
  phc_adj = to_i32 addend;
  adj_seen = snoc p.adj_seen addend;
  adj_cyc = snoc p.adj_cyc cyc;
  adj_out_of_envelope = count_u64 (outside_envelope (to_i32 addend)) p.adj_out_of_envelope;
  adj_on_the_rail = count_u64 (on_the_rail (to_i32 addend)) p.adj_on_the_rail;
}

-- `(unsigned __int128)((__int128)(int64_t)step << 24)`
unfoldable pub step_acc : (step : ℕ) → ℕ
step_acc step = elim (to_i64 step) [ pos n ↦ n * 2 ^ 24 | negsuc n ↦ 2 ^ 128 - (n + 1) * 2 ^ 24 ]

-- The branch `if (dut->phc_step_we_o)`.
unfoldable pub write_step : (cyc step : ℕ) (slew : Bool) → Phc → Phc
unfolding step_acc
write_step cyc step slew p = record p {
  slew_at_step = snoc p.slew_at_step slew;
  steps_seen = snoc p.steps_seen step;
  step_cyc = snoc p.step_cyc cyc;
  phc_acc = (p.phc_acc + step_acc step) % 2 ^ 128;
}

-- `phc_acc += (uint64_t)((500ll << 24) + phc_adj)`
unfoldable pub advance : Phc → Phc
advance p = record p { phc_acc = (p.phc_acc + to_u64 (pos (500 <<< 24) +ℤ p.phc_adj)) % 2 ^ 128 }

-- What one clock does to the counter, on the outputs after its rising edge.
unfoldable pub clock_phc : (cyc : ℕ) → EngineOut → Phc → Phc
unfolding write_addend write_step advance
clock_phc cyc o p =
    let p = if o.phc_addend_we_o then write_addend cyc o.phc_addend_o p else p in
    let p = if o.phc_step_we_o then write_step cyc o.phc_step_o o.phc_slew_active_o p else p in
    advance p
