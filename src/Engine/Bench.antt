-- ===== src/Engine/Bench.antt =====
-- tb/verilator/engine/sim_main.cpp, the clock of `GptpEngineHarness`: `tick` and the loops on it, with
-- the whole state that they move.
pub mod Laws
use fpga_g_ptp.Base.{
  ℕ, zero, suc, ◌+◌, ◌-◌, Bool, true, false, not, ◌&&◌, ◌||◌, Option, none, some, List, [], ◌∷◌,
  ◌==◌, if◌then◌else◌, is_empty, get_or, ltb, length, repeat, add_u64, u64,
}
use fpga_g_ptp.Harness.Verilated.{Verilated}
use fpga_g_ptp.Harness.Tally.{Tally, expect_eq, no_checks}
use fpga_g_ptp.Wire.{Frame}
use fpga_g_ptp.Wire.Read.{seq_of, type_of}
use fpga_g_ptp.Engine.Const.{fl_present}
use fpga_g_ptp.Engine.Ports.{EngineIn, EngineOut, idle_in}
use fpga_g_ptp.Engine.Face.{
  Face, Tags, drive_result_face, offer_result, settle_beat, is_withheld, release_withheld,
}
use fpga_g_ptp.Engine.Transmit.{Transmit, Beat, capture, stamp}
use fpga_g_ptp.Engine.Phc.{Phc, phc, clock_phc}
use fpga_g_ptp.Engine.Watch.{Watch, watch_low, watch_high}

-- `dut` is the Verilated model with the values last driven on its ports.
pub record Bench (S : Type 0) : Type 0 where
  pub dut : S
  pub ports : EngineIn
  pub cyc : ℕ
  pub rst_release_cyc : ℕ
  pub rst_was_high : Bool
  pub self_present : ℕ
  pub tally : Tally
  pub face : Face
  pub withheld : Tags
  pub transmit : Transmit
  pub phc : Phc
  pub watch : Watch

module _ (V : Verilated EngineIn EngineOut) where
  -- The harness as constructed, for one value of `not_gm_capable`.
  unfoldable pub bench : (not_gm_capable : Bool) → Bench V.State
  bench not_gm_capable = record {
    dut = V.fresh;
    ports = idle_in;
    cyc = 0;
    rst_release_cyc = 0;
    rst_was_high = false;
    self_present = if not_gm_capable then 0 else fl_present;
    tally = no_checks;
    face = fpga_g_ptp.Engine.Face.initial;
    withheld = [];
    transmit = fpga_g_ptp.Engine.Transmit.initial;
    phc = fpga_g_ptp.Engine.Phc.initial;
    watch = fpga_g_ptp.Engine.Watch.initial;
  }

  -- The output ports.
  abbrev pub outs : Bench V.State → EngineOut
  outs b = V.out b.dut

  unfoldable pub note_reset_release : Bench V.State → Bench V.State
  note_reset_release b = record b {
    rst_release_cyc = if b.ports.rst_n && not b.rst_was_high then b.cyc else b.rst_release_cyc;
    rst_was_high = b.ports.rst_n;
  }

  -- The result of transmitted frame `idx`, offered 200 ns after now.
  abbrev pub offer_stamp : (idx : ℕ) → Bench V.State → Bench V.State
  offer_stamp idx b =
      let ns = add_u64 (fpga_g_ptp.Engine.Phc.phc b.phc) 200 in
      let f = get_or b.transmit.txf idx [] in
      let offered = offer_result ns (seq_of f) (type_of f) true 1 (b.face, b.tally) in
      record b { face = offered.0; tally = offered.1; transmit = stamp idx ns b.transmit }

  -- The first branch of `tick`, the automatic producer, on the pending stamp.
  unfoldable pub produce : (auto_pend : Option ℕ) → Bench V.State → Bench V.State
  produce none b = b
  produce (some idx) b =
      if b.face.ts_offer
      then b
      else (if is_withheld (get_or b.transmit.txf idx []) b.withheld
          then record b { transmit = record b.transmit { auto_pend = none } }
          else offer_stamp idx b)

  unfoldable pub auto_offer : Bench V.State → Bench V.State
  unfolding produce
  auto_offer b = produce b.transmit.auto_pend b

  -- `dut->clk_i = level; dut->eval();`
  unfoldable pub clock : (level : Bool) → Bench V.State → Bench V.State
  clock level b =
      let ports = record b.ports { clk_i = level } in
      record b { ports = ports; dut = V.eval ports b.dut }

  -- `ts_beat` and the TX face, sampled before the rising edge.
  abbrev pub ts_beat : Bench V.State → Bool
  ts_beat b = b.face.ts_offer && (outs b).txts_ready_o

  abbrev pub tx_beat : Bench V.State → Beat
  tx_beat b = record {
    fire = (outs b).tx_valid_o && b.ports.tx_ready_i;
    sof = (outs b).tx_sof_o;
    eof = (outs b).tx_eof_o;
    byte = (outs b).tx_data_o;
  }

  -- All of `tick` up to the falling half and what is counted there.
  unfoldable pub low_half : Bench V.State → Bench V.State
  unfolding note_reset_release auto_offer clock
  low_half b =
      let b = auto_offer (note_reset_release b) in
      let b = clock false (record b { ports = drive_result_face b.face b.ports }) in
      record b { watch = watch_low (outs b) b.watch }

  -- The rising edge and all that is recorded after it, by the samples taken before it.
  unfoldable pub high_half : (ts_beat : Bool) → Beat → Bench V.State → Bench V.State
  unfolding clock
  high_half ts_beat beat b =
      let b = clock true b in
      let o = outs b in
      record b {
        watch = watch_high b.self_present b.ports.rst_n b.cyc o b.watch;
        phc = clock_phc b.cyc o b.phc;
        transmit = capture b.cyc beat b.transmit;
        face = settle_beat ts_beat b.face;
        cyc = u64 (b.cyc + 1);
      }

  unfoldable pub tick : Bench V.State → Bench V.State
  unfolding low_half high_half
  tick b = let b = low_half b in high_half (ts_beat b) (tx_beat b) b

  unfoldable pub run : ℕ → Bench V.State → Bench V.State
  unfolding tick
  run n b = repeat n tick b

  abbrev pub owes_result : Bench V.State → Bool
  owes_result b = elim b.transmit.auto_pend [ none ↦ b.face.ts_offer | some idx ↦ true ]

  -- The bounded loop of `drain_automatic_results`, which stops by its condition.
  unfoldable pub drain_loop : ℕ → Bench V.State → Bench V.State
  unfolding tick
  drain_loop zero b = b
  drain_loop (suc n) b = elim (owes_result b) [ true ↦ drain_loop n (tick b) | false ↦ b ]

  unfoldable pub drain_automatic_results : Bench V.State → Bench V.State
  unfolding drain_loop
  drain_automatic_results b =
      let b = drain_loop 200000 b in
      if owes_result b then record b { tally = expect_eq 0 1 b.tally } else b

  -- The bounded wait of `deliver_result`, which stops when the offer is taken.
  unfoldable pub offer_loop : ℕ → Bench V.State → Bench V.State
  unfolding tick
  offer_loop zero b = b
  offer_loop (suc n) b = elim b.face.ts_offer [ true ↦ offer_loop n (tick b) | false ↦ b ]

  -- Past the end of `txf` the identity is zero and nothing is released.
  unfoldable pub deliver_result : (idx ns : ℕ) (ok : Bool) (gen : ℕ) → Bench V.State → Bench V.State
  unfolding offer_loop
  deliver_result idx ns ok gen b =
      let known = ltb idx (length b.transmit.txf) in
      let f = get_or b.transmit.txf idx [] in
      let seq = if known then seq_of f else 0 in
      let type = if known then type_of f else 0 in
      let offered = offer_result ns seq type ok gen (b.face, b.tally) in
      let b = offer_loop 200000 (record b {
        withheld = if known then release_withheld type seq b.withheld else b.withheld;
        face = offered.0;
        tally = offered.1;
      }) in
      if b.face.ts_offer then record b { tally = expect_eq 0 1 b.tally } else b

  -- The bytes of a received frame from its `i`th on, one in a clock.
  unfoldable pub send_bytes : (first : Bool) → Frame → Bench V.State → Bench V.State
  unfolding tick
  send_bytes first [] b = b
  send_bytes first (x ∷ xs) b = send_bytes false xs (
      tick (record b {
        ports = record b.ports {
          rx_valid_i = true;
          rx_data_i = x;
          rx_sof_i = first;
          rx_eof_i = is_empty xs;
          rx_err_i = false;
        };
      }))

  unfoldable pub send_frame : Frame → (rx_ts : ℕ) → Bench V.State → Bench V.State
  unfolding send_bytes
  send_frame bytes rx_ts b =
      let b = send_bytes true bytes (record b { ports = record b.ports { rx_ts_i = rx_ts } }) in
      record b { ports = record b.ports { rx_valid_i = false; rx_sof_i = false; rx_eof_i = false } }
