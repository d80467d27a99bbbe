-- ===== src/Gasket/Clock.antt =====
-- tb/verilator/gaskets/sim_main.cpp, the clock pair of the loopback bench: `tick`, with the gap between
-- frames that it measures and the received words that it collects.
pub mod Laws
use fpga_g_ptp.Base.{
  ℕ, zero, suc, ◌+◌, ◌%◌, ◌^◌, Bool, true, false, not, ◌&&◌, List, [], ◌∷◌, ◌==◌, if◌then◌else◌,
  ltb, snoc, repeat, u64, u64_max,
}
use fpga_g_ptp.Harness.Verilated.{Verilated}
use fpga_g_ptp.Harness.Tally.{Tally, no_checks}

pub record GasketIn : Type 0 where
  pub sys_clk_i : Bool
  pub mii_clk_i : Bool
  pub rst_n : Bool
  pub tx_valid_i : Bool
  pub tx_data_i : ℕ
  pub tx_sof_i : Bool
  pub tx_eof_i : Bool
  pub corrupt_i : ℕ

pub record GasketOut : Type 0 where
  pub mii_en_o : Bool
  pub rx_valid_o : Bool
  pub rx_data_o : ℕ
  pub rx_sof_o : Bool
  pub rx_eof_o : Bool
  pub rx_err_o : Bool
  pub tx_ready_o : Bool
  pub tx_sfd_tgl_o : Bool
  pub rx_sfd_tgl_o : Bool
  pub tx_cnt_o : ℕ
  pub crc_bad_o : ℕ

pub record RxWord : Type 0 where
  pub byte : ℕ
  pub sof : Bool
  pub eof : Bool
  pub err : Bool

-- The gap that the MII clock measures.
pub record Gap : Type 0 where
  pub idle_mii : ℕ
  pub min_gap : ℕ
  pub en_prev : Bool
  pub seen_first_frame : Bool

-- The bookkeeping of one rising MII edge, on the enable sampled there.
unfoldable pub mii_edge : (mii_en_o : Bool) → Gap → Gap
mii_edge true g = record {
  idle_mii = if g.en_prev then g.idle_mii else 0;
  min_gap =
      if not g.en_prev && g.seen_first_frame && ltb g.idle_mii g.min_gap
      then g.idle_mii
      else g.min_gap;
  en_prev = true;
  seen_first_frame = true;
}
mii_edge false g = record g {
  idle_mii = if g.seen_first_frame then u64 (g.idle_mii + 1) else g.idle_mii;
  en_prev = false;
}

pub record Bench (S : Type 0) : Type 0 where
  pub dut : S
  pub ports : GasketIn
  pub half_ns : ℕ
  pub tally : Tally
  pub rxw : List RxWord
  pub gap : Gap
  pub push_timeouts : ℕ
  pub rp : ℕ
  pub nf : ℕ

abbrev pub idle_in : GasketIn
idle_in = record {
  sys_clk_i = false;
  mii_clk_i = false;
  rst_n = false;
  tx_valid_i = false;
  tx_data_i = 0;
  tx_sof_i = false;
  tx_eof_i = false;
  corrupt_i = 0;
}

abbrev pub no_gap : Gap
no_gap = record { idle_mii = 0; min_gap = u64_max; en_prev = false; seen_first_frame = false }

module _ (V : Verilated GasketIn GasketOut) where
  unfoldable pub bench : Bench V.State
  bench = record {
    dut = V.fresh;
    ports = idle_in;
    half_ns = 0;
    tally = no_checks;
    rxw = [];
    gap = no_gap;
    push_timeouts = 0;
    rp = 0;
    nf = 0;
  }

  abbrev pub outs : Bench V.State → GasketOut
  outs b = V.out b.dut

  -- `if (half_ns % 20 == 0) { ... }`, on the outputs of the last `eval`.
  unfoldable pub mii_half : Bench V.State → Bench V.State
  unfolding mii_edge
  mii_half b =
      if b.half_ns % 20 == 0
      then record b {
        ports = record b.ports { mii_clk_i = not b.ports.mii_clk_i };
        gap = if b.ports.mii_clk_i then b.gap else mii_edge (outs b).mii_en_o b.gap;
      }
      else b

  abbrev pub word_of : GasketOut → RxWord
  word_of o = record { byte = o.rx_data_o; sof = o.rx_sof_o; eof = o.rx_eof_o; err = o.rx_err_o }

  -- `dut->eval()`, and the word sampled after it.
  unfoldable pub eval_half : Bench V.State → Bench V.State
  eval_half b =
      let dut = V.eval b.ports b.dut in
      let o = V.out dut in
      record b {
        dut = dut;
        rxw =
            if (b.ports.sys_clk_i && b.half_ns % 10 == 5) && o.rx_valid_o
            then snoc b.rxw (word_of o)
            else b.rxw;
      }

  -- One turn of the loop of `tick`.
  unfoldable pub half : Bench V.State → Bench V.State
  unfolding mii_half eval_half
  half b = eval_half (
      mii_half (record b {
        half_ns = u64 (b.half_ns + 5);
        ports = record b.ports { sys_clk_i = not b.ports.sys_clk_i };
      }))

  unfoldable pub tick : Bench V.State → Bench V.State
  unfolding half
  tick b = half (half b)

  unfoldable pub run : ℕ → Bench V.State → Bench V.State
  unfolding tick
  run n b = repeat n tick b
