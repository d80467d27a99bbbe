-- ===== src/MiiTx.antt =====
-- bench/arty/bench_mii_tx_tag_test.cpp, class `MiiTxTagHarness`: two frames in the FIFO, and the tags
-- that come back with the done toggles.
mod Tests
pub mod Laws
use fpga_g_ptp.Base.{
  ℕ, zero, suc, ◌+◌, ◌-◌, ◌/◌, ◌%◌, ◌^◌, Bool, true, false, not, ◌&&◌, ◌||◌, List, [], ◌∷◌, ◌++◌,
  ◌==◌, if◌then◌else◌, length, is_empty, get_or, set, replicate, min, repeat, differ, bit_or, u8,
  ◌<<<◌, ◌>>>◌,
}
use fpga_g_ptp.Harness.Verilated.{Verilated}
use fpga_g_ptp.Wire.{Frame}

pub record MiiTxIn : Type 0 where
  pub tx_clk_i : Bool
  pub rst_n : Bool
  pub f_empty_i : Bool
  pub f_level_i : ℕ
  pub f_data_i : ℕ

pub record MiiTxOut : Type 0 where
  pub f_rd_o : Bool
  pub done_toggle_o : Bool
  pub frame_type_o : ℕ
  pub frame_seq_o : ℕ
  pub tx_cnt_o : ℕ

-- The 60 bytes of a frame of that type and sequence.
unfoldable pub tag_frame : (type seq : ℕ) → Frame
tag_frame type seq =
    set
      (set (set (set (set (replicate 60 0) 12 0x88) 13 0xF7) 14 (u8 (bit_or 0xA0 type))) 44
        (u8 (seq >>> 8)))
      45 (u8 seq)

-- The FIFO words: bit 9 marks the first byte, bit 8 the last.
unfoldable pub words_of : (first : Bool) → Frame → List ℕ
words_of first [] = []
words_of first (x ∷ xs) =
    let word = if first then bit_or x (1 <<< 9) else x in
    (if is_empty xs then bit_or word (1 <<< 8) else word) ∷ words_of false xs

unfoldable pub append_frame : (type seq : ℕ) → List ℕ → List ℕ
unfolding tag_frame words_of
append_frame type seq words = words ++ words_of true (tag_frame type seq)

pub record Bench (S : Type 0) : Type 0 where
  pub dut : S
  pub ports : MiiTxIn
  pub words : List ℕ
  pub rd_pos : ℕ

unfoldable pub drive_fifo : {S : Type 0} → Bench S → Bench S
drive_fifo b =
    let left = length b.words - b.rd_pos in
    record b {
      ports = record b.ports {
        f_empty_i = left == 0;
        f_level_i = min left 127;
        f_data_i = if left == 0 then 0 else get_or b.words b.rd_pos 0;
      };
    }

module _ (V : Verilated MiiTxIn MiiTxOut) where
  unfoldable pub eval_at : (tx_clk_i : Bool) → Bench V.State → Bench V.State
  eval_at level b =
      let ports = record b.ports { tx_clk_i = level } in
      record b { ports = ports; dut = V.eval ports b.dut }

  unfoldable pub tick : Bench V.State → Bench V.State
  unfolding drive_fifo eval_at
  tick b =
      let low = eval_at false (drive_fifo b) in
      let read = (V.out low.dut).f_rd_o && not low.ports.f_empty_i in
      let high = eval_at true low in
      eval_at false
        (drive_fifo (record high { rd_pos = if read then high.rd_pos + 1 else high.rd_pos }))

  -- The loop of `run`: the tags still expected, and the toggle last seen. The result is the exit status.
  unfoldable pub await_tags :
      (cycles : ℕ) (expected : List (ℕ × ℕ)) (last_done : Bool) → Bench V.State → ℕ
  unfolding tick
  await_tags cycles [] last_done b = if (V.out b.dut).tx_cnt_o == 2 then 0 else 1
  await_tags zero (e ∷ es) last_done b = 1
  await_tags (suc cycles) (e ∷ es) last_done b =
      let c = tick b in
      let o = V.out c.dut in
      elim (differ o.done_toggle_o last_done) [
        | false ↦ await_tags cycles (e ∷ es) last_done c
        | true ↦ elim (o.frame_type_o == e.0 && o.frame_seq_o == e.1) [
          | true ↦ await_tags cycles es o.done_toggle_o c
          | false ↦ 1
        ]
      ]

  abbrev pub idle_in : MiiTxIn
  idle_in = record {
    tx_clk_i = false;
    rst_n = false;
    f_empty_i = false;
    f_level_i = 0;
    f_data_i = 0;
  }

  -- After the two frames and the three clocks of reset.
  unfoldable pub out_of_reset : Bench V.State
  unfolding append_frame tick
  out_of_reset =
      let b = repeat 3 tick (record {
        dut = V.fresh;
        ports = idle_in;
        words = append_frame 0xA 0xBEEF (append_frame 0x3 0x1234 []);
        rd_pos = 0;
      }) in
      record b { ports = record b.ports { rst_n = true } }

  unfoldable pub run : ℕ
  unfolding await_tags out_of_reset
  run =
      await_tags 2000 ((0x3, 0x1234) ∷ (0xA, 0xBEEF) ∷ []) (V.out out_of_reset.dut).done_toggle_o
        out_of_reset
