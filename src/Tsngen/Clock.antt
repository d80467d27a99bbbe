-- ===== src/Tsngen/Clock.antt =====
-- tb/tsngen/tsngen_main.cpp, the clock of the script harness: `tick`, `run`, `send_frame`, and the reset.
pub mod Laws
use fpga_g_ptp.Base.{
  ℕ, zero, suc, ◌+◌, ◌-◌, ◌*◌, ◌%◌, ◌^◌, Bool, true, false, not, ◌&&◌, Option, none, some, List, [],
  ◌∷◌, if◌then◌else◌, is_empty, get_or, set, snoc, length, repeat, u64,
}
use fpga_g_ptp.Harness.Verilated.{Verilated}
use fpga_g_ptp.Wire.{Frame}
use fpga_g_ptp.Wire.Read.{seq_of, type_of}
use fpga_g_ptp.Engine.Ports.{EngineIn, EngineOut, idle_in}

pub record Session (S : Type 0) : Type 0 where
  pub dut : S
  pub ports : EngineIn
  pub txf : List Frame
  pub txns : List ℕ
  pub cur : Frame
  pub in_tx : Bool
  pub auto_pend : Option ℕ
  pub dumped : ℕ
  pub auto_pd : Bool
  pub pd_seen : ℕ

-- `50000000ull + auto_pend * 1000000ull`
unfoldable pub egress_ns : (idx : ℕ) → ℕ
egress_ns idx = u64 (50000000 + idx * 1000000)

-- The first branch of `tick`, on the pending stamp.
unfoldable pub offer : {S : Type 0} → Option ℕ → Session S → Session S
unfolding egress_ns
offer none s = s
offer (some idx) s = if s.ports.txts_valid_i then s else record s {
  ports = record s.ports {
    txts_valid_i = true;
    txts_ns_i = egress_ns idx;
    txts_seq_i = seq_of (get_or s.txf idx []);
    txts_type_i = type_of (get_or s.txf idx []);
    txts_ok_i = true;
    txts_gen_i = 1;
  };
  txns = set s.txns idx (egress_ns idx);
  auto_pend = none;
}

unfoldable pub start_frame : {S : Type 0} → EngineOut → Session S → Session S
start_frame o s = if o.tx_sof_o then record s { cur = []; in_tx = true } else s

unfoldable pub take_byte : {S : Type 0} → EngineOut → Session S → Session S
take_byte o s = if s.in_tx then record s { cur = snoc s.cur o.tx_data_o } else s

unfoldable pub end_frame : {S : Type 0} → EngineOut → Session S → Session S
end_frame o s =
    if o.tx_eof_o && s.in_tx
    then record s {
      txf = snoc s.txf s.cur;
      txns = snoc s.txns 0;
      auto_pend = some (length s.txf);
      in_tx = false;
    }
    else s

-- The branch `if (dut->tx_valid_o)`.
unfoldable pub capture : {S : Type 0} → EngineOut → Session S → Session S
unfolding start_frame take_byte end_frame
capture o s = if o.tx_valid_o then end_frame o (take_byte o (start_frame o s)) else s

module _ (V : Verilated EngineIn EngineOut) where
  unfoldable pub session : Session V.State
  session = record {
    dut = V.fresh;
    ports = idle_in;
    txf = [];
    txns = [];
    cur = [];
    in_tx = false;
    auto_pend = none;
    dumped = 0;
    auto_pd = false;
    pd_seen = 0;
  }

  abbrev pub outs : Session V.State → EngineOut
  outs s = V.out s.dut

  unfoldable pub clock : (level : Bool) → Session V.State → Session V.State
  clock level s =
      let ports = record s.ports { clk_i = level } in
      record s { ports = ports; dut = V.eval ports s.dut }

  -- `if (ts_beat) dut->txts_valid_i = 0;`
  unfoldable pub settle : (ts_beat : Bool) → Session V.State → Session V.State
  settle ts_beat s =
      if ts_beat then record s { ports = record s.ports { txts_valid_i = false } } else s

  unfoldable pub tick : Session V.State → Session V.State
  unfolding offer clock capture settle
  tick s =
      let low = clock false (offer s.auto_pend s) in
      let ts_beat = low.ports.txts_valid_i && (outs low).txts_ready_o in
      let high = clock true low in settle ts_beat (capture (outs high) high)

  unfoldable pub run : ℕ → Session V.State → Session V.State
  unfolding tick
  run n s = repeat n tick s

  unfoldable pub send_bytes : (first : Bool) → Frame → Session V.State → Session V.State
  unfolding tick
  send_bytes first [] s = s
  send_bytes first (x ∷ xs) s = send_bytes false xs (
      tick (record s {
        ports = record s.ports {
          rx_valid_i = true;
          rx_data_i = x;
          rx_sof_i = first;
          rx_eof_i = is_empty xs;
          rx_err_i = false;
        };
      }))

  unfoldable pub send_frame : Frame → (rx_ts : ℕ) → Session V.State → Session V.State
  unfolding send_bytes
  send_frame bytes rx_ts s =
      let t = send_bytes true bytes (record s { ports = record s.ports { rx_ts_i = rx_ts } }) in
      record t { ports = record t.ports { rx_valid_i = false; rx_sof_i = false; rx_eof_i = false } }

  unfoldable pub bring_the_engine_out_of_reset : Session V.State → Session V.State
  unfolding tick
  bring_the_engine_out_of_reset s =
      let held = record s {
        ports = record s.ports {
          rst_n = false;
          rx_valid_i = false;
          rx_sof_i = false;
          rx_eof_i = false;
          rx_err_i = false;
          rx_data_i = 0;
          rx_ts_i = 0;
          tx_ready_i = true;
          txts_valid_i = false;
          txts_ns_i = 0;
          txts_seq_i = 0;
          txts_type_i = 0;
          txts_ok_i = false;
          txts_gen_i = 0;
          tx_credit_i = true;
          port_enabled_i = true;
        };
      } in
      let t = repeat 8 tick held in record t { ports = record t.ports { rst_n = true } }
