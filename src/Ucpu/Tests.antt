-- ===== src/Ucpu/Tests.antt =====
-- The battery on concrete operands and a core that is always ready.
use fpga_g_ptp.Base.{ℕ, ◌+◌, ◌^◌, ◌≤◌, ◌<◌, ◌≡◌, ◌↔◌, true, false, [], ◌∷◌, arith, min, suc, u32}
use fpga_g_ptp.Harness.Verilated.{Verilated}
use fpga_g_ptp.Harness.Tally.{no_checks}
use fpga_g_ptp.Ucpu.Operands.{Operands, seed, operands_for_run}
use fpga_g_ptp.Ucpu.Operands.Laws.{operands_for_run_lem}
use fpga_g_ptp.Ucpu.Model.{expected, sar, shift_of}
use fpga_g_ptp.Ucpu.Model.Laws.{sar_lem}
use fpga_g_ptp.Ucpu.Battery.{
  UcpuIn, UcpuOut, Battery, battery, run, idle_in, compare_scratch_against_the_model,
  dispatch_the_battery, max_fail_reports,
}
use fpga_g_ptp.Ucpu.Battery.Laws.{matches, compare_scratch_against_the_model_lem, battery_run_lem}
use fpga_g_ptp.Ucpu.Battery.Laws.Ready.{Ended, dispatch_the_battery_ends}

-- A core that writes 5 to scratch word 0 in every clock and is ready.
abbrev core : Verilated UcpuIn UcpuOut
core = record {
  State = ℕ;
  fresh = 0;
  eval = λ ports evals. suc evals;
  out = λ evals. record {
    disp_ready_o = true;
    st_req_o = true;
    st_we_o = true;
    st_addr_o = 0x20000;
    st_wdata_o = 5;
    gx_req_o = false;
  };
}

abbrev two_three : Operands
two_three = record { a = 2; b = 3 }

abbrev start : Battery ℕ
start = record {
  dut = 0;
  ports = idle_in;
  rec = record { scratch = 5 ∷ 0 ∷ []; seen = true ∷ false ∷ [] };
  cyc = 12;
  xs_state = seed;
  tally = no_checks;
  printed = 0;
}

battery-run_example :
    let c = (run core (battery core)).1 in
    (c.tally.checks ≡ 768)
    × (c.tally.fails ≤ 832)
    × (c.printed ≤ min c.tally.fails max_fail_reports)
    × (((run core (battery core)).0 ≡ 0) ↔ (c.tally.fails ≡ 0))
battery-run_example = battery_run_lem core

dispatch_the_battery_example : Ended core start (dispatch_the_battery core two_three start)
dispatch_the_battery_example = dispatch_the_battery_ends core two_three start (omega arith)

compare_scratch_example :
    let c = compare_scratch_against_the_model two_three start in
    (c.tally.checks ≡ 0 + 12)
    × ((c.tally.fails ≡ 0) ↔ (matches 0 (expected two_three) start.rec ≡ true))
    × (c.printed ≤ min c.tally.fails max_fail_reports)
compare_scratch_example = compare_scratch_against_the_model_lem two_three start (omega arith)

operands_for_run_example :
    let next = operands_for_run 5 seed in
    (next.0.a < 2 ^ 64)
    × (next.0.b < 2 ^ 64)
    × (0 < u32 next.0.b)
    × (0 < next.1)
    × (next.1 < 2 ^ 64)
operands_for_run_example = operands_for_run_lem 5 seed (omega arith) (omega arith)

sar_example : sar 0x8000000000000000 (shift_of 63) ≡ 0xFFFF_FFFF_FFFF_FFFF
sar_example = sar_lem 0x8000000000000000 63 (omega arith)
