-- ===== src/MiiTx/Tests.antt =====
-- The tag test on a short frame, and a device that reads in each clock.
use fpga_g_ptp.Base.{ℕ, ◌≡◌, true, false, [], ◌∷◌, arith, suc}
use fpga_g_ptp.Harness.Verilated.{Verilated}
use fpga_g_ptp.MiiTx.{MiiTxIn, MiiTxOut, Bench, words_of}
use fpga_g_ptp.MiiTx.Laws.{IsFramed, bytes_of, words_of_lem}

abbrev device : Verilated MiiTxIn MiiTxOut
device = record {
  State = ℕ;
  fresh = 0;
  eval = λ ports evals. suc evals;
  out = λ evals. record {
    f_rd_o = true;
    done_toggle_o = false;
    frame_type_o = 0;
    frame_seq_o = 0;
    tx_cnt_o = 0;
  };
}

abbrev loaded : Bench ℕ
loaded = record {
  dut = 0;
  ports = record {
    tx_clk_i = false;
    rst_n = true;
    f_empty_i = false;
    f_level_i = 2;
    f_data_i = 0x201;
  };
  words = 0x201 ∷ 0x102 ∷ [];
  rd_pos = 1;
}

words_of_example :
    IsFramed true (words_of true (7 ∷ 8 ∷ 9 ∷ []))
    × (bytes_of (words_of true (7 ∷ 8 ∷ 9 ∷ [])) ≡ 7 ∷ 8 ∷ 9 ∷ [])
words_of_example = words_of_lem 7 8 (9 ∷ []) (omega arith, (omega arith, (omega arith, tt)))
