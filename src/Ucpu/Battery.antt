-- ===== src/Ucpu/Battery.antt =====
-- tb/verilator/ucpu/sim_main.cpp, class `UcpuArithmeticBattery`: the state port recorder, the clock, the
-- dispatch and the verdict.
pub mod Laws
use Prim.Native.String.{String}
use fpga_g_ptp.Base.{
  ℕ, zero, suc, ◌+◌, ◌-◌, ◌/◌, ◌%◌, ◌^◌, Bool, true, false, not, ◌&&◌, ◌||◌, List, [], ◌∷◌, ◌==◌,
  if◌then◌else◌, ltb, leb, replicate, set, get_or, repeat, for_range, u64, ◌>>>◌, bit_and,
}
use fpga_g_ptp.Harness.Verilated.{Verilated}
use fpga_g_ptp.Harness.Tally.{Tally, no_checks, grade, exit_status}
use fpga_g_ptp.Ucpu.Operands.{Operands, seed, operands_for_run}
use fpga_g_ptp.Ucpu.Model.{expected}

pub record UcpuIn : Type 0 where
  pub clk_i : Bool
  pub rst_n : Bool
  pub disp_valid_i : Bool
  pub disp_upc_i : ℕ
  pub disp_ev_i : ℕ
  pub disp_ts0_i : ℕ
  pub st_ready_i : Bool
  pub st_rvalid_i : Bool
  pub st_rdata_i : ℕ
  pub st_err_i : Bool
  pub gx_valid_i : Bool
  pub gx_data_i : ℕ
  pub lock_held_i : Bool
  pub lock_ctlr_i : Bool
  pub rb_ready_i : Bool
  pub tx_ready_i : Bool

pub record UcpuOut : Type 0 where
  pub disp_ready_o : Bool
  pub st_req_o : Bool
  pub st_we_o : Bool
  pub st_addr_o : ℕ
  pub st_wdata_o : ℕ
  pub gx_req_o : Bool

pub record Recorder : Type 0 where
  pub scratch : List ℕ
  pub seen : List Bool

abbrev pub scratch_words : ℕ
scratch_words = 16

-- `Recorder::clear`
abbrev pub cleared : Recorder
cleared = record { scratch = replicate scratch_words 0; seen = replicate scratch_words false }

-- The branch of `tick` on a write of the state port.
unfoldable pub record_write : (addr wdata : ℕ) → Recorder → Recorder
record_write addr wdata rec =
    if addr >>> 16 == 2 && ltb (bit_and addr 0xffff) scratch_words
    then record {
      scratch = set rec.scratch (bit_and addr 0xf) wdata;
      seen = set rec.seen (bit_and addr 0xf) true;
    }
    else rec

pub record Battery (S : Type 0) : Type 0 where
  pub dut : S
  pub ports : UcpuIn
  pub rec : Recorder
  pub cyc : ℕ
  pub xs_state : ℕ
  pub tally : Tally
  pub printed : ℕ  -- FAIL lines of `expect`

abbrev pub idle_in : UcpuIn
idle_in = record {
  clk_i = false;
  rst_n = false;
  disp_valid_i = false;
  disp_upc_i = 0;
  disp_ev_i = 0;
  disp_ts0_i = 0;
  st_ready_i = false;
  st_rvalid_i = false;
  st_rdata_i = 0;
  st_err_i = false;
  gx_valid_i = false;
  gx_data_i = 0;
  lock_held_i = false;
  lock_ctlr_i = false;
  rb_ready_i = false;
  tx_ready_i = false;
}

-- At most `max_fail_reports` lines are printed.
abbrev pub max_fail_reports : ℕ
max_fail_reports = 20

unfoldable pub expect : {S : Type 0} → (got exp : ℕ) (seen : Bool) → Battery S → Battery S
unfolding grade
expect got exp seen b =
    let ok = seen && got == exp in
    record b {
      tally = grade ok b.tally;
      printed =
          if ok
          then b.printed
          else (if leb (b.tally.fails + 1) max_fail_reports then b.printed + 1 else b.printed);
    }

-- One comparison for each expected result, from scratch word `i` on.
unfoldable pub compare_from : {S : Type 0} → (i : ℕ) → List ℕ → Battery S → Battery S
unfolding expect
compare_from i [] b = b
compare_from i (e ∷ es) b =
    compare_from (i + 1) es (expect (get_or b.rec.scratch i 0) e (get_or b.rec.seen i false) b)

unfoldable pub compare_scratch_against_the_model : {S : Type 0} → Operands → Battery S → Battery S
unfolding compare_from
compare_scratch_against_the_model ops b = compare_from 0 (expected ops) b

abbrev pub cycle_timeout : ℕ
cycle_timeout = 2000000

abbrev pub runs : ℕ
runs = 64

module _ (V : Verilated UcpuIn UcpuOut) where
  unfoldable pub battery : Battery V.State
  battery = record {
    dut = V.fresh;
    ports = idle_in;
    rec = cleared;
    cyc = 0;
    xs_state = seed;
    tally = no_checks;
    printed = 0;
  }

  unfoldable pub tick : Battery V.State → Battery V.State
  unfolding record_write
  tick b =
      let low = record b.ports { clk_i = false } in
      let high = record low { clk_i = true } in
      let dut = V.eval high (V.eval low b.dut) in
      let o = V.out dut in
      record b {
        dut = dut;
        ports = record high {
          st_ready_i = true;
          st_rvalid_i = o.st_req_o && not o.st_we_o;
          st_rdata_i = 0;
          gx_valid_i = o.gx_req_o;
          gx_data_i = 0;
          rb_ready_i = true;
          tx_ready_i = true;
        };
        rec =
            if o.st_req_o && o.st_we_o then record_write o.st_addr_o o.st_wdata_o b.rec else b.rec;
        cyc = u64 (b.cyc + 1);
      }

  unfoldable pub release_the_core_from_reset : Battery V.State → Battery V.State
  unfolding tick
  release_the_core_from_reset b =
      let b = repeat 8 tick (record b {
        ports = record b.ports {
          rst_n = false;
          disp_valid_i = false;
          st_ready_i = true;
          st_rvalid_i = false;
          st_rdata_i = 0;
          st_err_i = false;
          gx_valid_i = false;
          gx_data_i = 0;
          lock_held_i = false;
          lock_ctlr_i = false;
          rb_ready_i = true;
          tx_ready_i = true;
        };
      }) in
      repeat 4 tick (record b { ports = record b.ports { rst_n = true } })

  -- `while (!dut->disp_ready_o)`, with the give-up guard on the cycles of the whole run.
  unfoldable pub await_ready : (fuel : ℕ) → Battery V.State → Battery V.State
  unfolding tick
  await_ready zero b = b
  await_ready (suc fuel) b = elim (V.out b.dut).disp_ready_o [
    | true ↦ b
    | false ↦
        let c = tick (record b { ports = record b.ports { disp_valid_i = false } }) in
        elim (ltb cycle_timeout c.cyc) [
          | true ↦ record c {
            tally = record { checks = c.tally.checks; fails = c.tally.fails + 1 };
          }
          | false ↦ await_ready fuel c
        ]
  ]

  -- Up to the wait: the recorder cleared, the operands driven, one clock.
  unfoldable pub start_dispatch : Operands → Battery V.State → Battery V.State
  unfolding tick
  start_dispatch ops b = tick (record b {
    rec = cleared;
    ports = record b.ports {
      disp_upc_i = 704;
      disp_ev_i = ops.b;
      disp_ts0_i = ops.a;
      disp_valid_i = true;
    };
  })

  unfoldable pub end_dispatch : Battery V.State → Battery V.State
  end_dispatch b = record b { ports = record b.ports { disp_valid_i = false } }

  -- `cyc` grows by one in each turn, so the guard fires before the fuel is spent.
  unfoldable pub dispatch_the_battery : Operands → Battery V.State → Battery V.State
  unfolding start_dispatch await_ready end_dispatch
  dispatch_the_battery ops b = end_dispatch (await_ready (cycle_timeout + 1) (start_dispatch ops b))

  -- The body of the loop of `run`.
  unfoldable pub run_once : (run : ℕ) → Battery V.State → Battery V.State
  unfolding dispatch_the_battery
  run_once run b =
      let next = operands_for_run run b.xs_state in
      compare_scratch_against_the_model next.0
        (dispatch_the_battery next.0 (record b { xs_state = next.1 }))

  -- The exit status, and the counts printed.
  unfoldable pub run : Battery V.State → ℕ × Battery V.State
  unfolding release_the_core_from_reset run_once
  run b =
      let b = for_range runs 0 run_once (release_the_core_from_reset b) in (exit_status b.tally, b)
