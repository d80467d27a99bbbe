-- ===== src/Gasket/Tests.antt =====
-- The loopback bench on concrete words and gaskets that never take a byte.
use fpga_g_ptp.Base.{
  ℕ, ◌≡◌, refl, true, false, List, [], ◌∷◌, ◌++◌, arith, some, none, replicate, suc,
}
use fpga_g_ptp.Harness.Verilated.{Verilated}
use fpga_g_ptp.Gasket.Clock.{GasketIn, GasketOut, RxWord, no_gap}
use fpga_g_ptp.Gasket.Clock.Laws.{edges, wire, min_gap_lem}
use fpga_g_ptp.Gasket.Queue.{look}
use fpga_g_ptp.Gasket.Queue.Laws.{words_of, look_frame, look_partial}

abbrev gaskets : Verilated GasketIn GasketOut
gaskets = record {
  State = ℕ;
  fresh = 0;
  eval = λ ports evals. suc evals;
  out = λ evals. record {
    mii_en_o = false;
    rx_valid_o = false;
    rx_data_o = 0;
    rx_sof_o = false;
    rx_eof_o = false;
    rx_err_o = false;
    tx_ready_o = false;
    tx_sfd_tgl_o = false;
    rx_sfd_tgl_o = false;
    tx_cnt_o = 0;
    crc_bad_o = 0;
  };
}

-- The end of a frame whose head was lost.
abbrev lost : List RxWord
lost = record { byte = 9; sof = false; eof = true; err = false } ∷ []

abbrev head : RxWord
head = record { byte = 1; sof = true; eof = false; err = false }

look_frame_example :
    look (lost ++ (lost ++ (words_of true ((1, false) ∷ (2, true) ∷ []) ++ lost))) 1
    ≡ (4, some (record { out = 1 ∷ 2 ∷ []; err = true }))
look_frame_example = look_frame lost lost (1, false) ((2, true) ∷ []) lost (refl, tt)

look_partial_example : look (lost ++ (lost ++ (head ∷ []))) 1 ≡ (2, none)
look_partial_example = look_partial lost lost head [] (refl, tt) refl (refl, tt)

min_gap_example :
    (edges
      (replicate 40 false
        ++ (replicate 3 true
            ++ wire (record { idle = 25; busy = 9 } ∷ record { idle = 23; busy = 5 } ∷ [])))
      no_gap).min_gap
    ≡ 24
min_gap_example =
    min_gap_lem 40 2 (record { idle = 25; busy = 9 } ∷ record { idle = 23; busy = 5 } ∷ [])
      (omega arith, (omega arith, tt))
