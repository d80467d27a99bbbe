-- ===== src/Tsngen/Tests.antt =====
-- The script harness on concrete scripts and an engine that sends a frame of one byte in each clock.
use fpga_g_ptp.Base.{
  ℕ, ◌-◌, ◌/◌, ◌%◌, ◌^◌, ◌≡◌, refl, true, false, List, [], ◌∷◌, ◌++◌, arith, suc, length,
}
use fpga_g_ptp.Harness.Verilated.{Verilated}
use fpga_g_ptp.Wire.Read.{fld, fld16, fld64, seq_of, type_of}
use fpga_g_ptp.Engine.Const.{our_cid}
use fpga_g_ptp.Engine.Ports.{EngineIn, EngineOut}
use fpga_g_ptp.Tsngen.Clock.{Session, session, run}
use fpga_g_ptp.Tsngen.Clock.Laws.{IsStamped, run-IsStamped}
use fpga_g_ptp.Tsngen.Peer.{pd_answer}
use fpga_g_ptp.Tsngen.Peer.Laws.{pd_answer_lem}
use fpga_g_ptp.Tsngen.Script.{Command, rx, run_for, txdump, unknown, bytes_of_hex, hex_of_bytes}
use fpga_g_ptp.Tsngen.Script.Laws.{bytes_of_hex-hex_of_bytes}

abbrev engine : Verilated EngineIn EngineOut
engine = record {
  State = ℕ;
  fresh = 0;
  eval = λ ports evals. suc evals;
  out = λ evals. record {
    tx_valid_o = true;
    tx_data_o = 0x5A;
    tx_sof_o = true;
    tx_eof_o = true;
    txts_ready_o = true;
    pub_gm_id_o = our_cid;
    pub_parent_id_o = our_cid;
    pub_path_count_o = 1;
    pub_path_o = [];
    pub_flags_o = 0x7;
    pub_commit_o = false;
    pub_pdelay_ns_o = 0;
    pub_offset_o = 0;
    pub_annq_o = 0;
    phc_slew_active_o = false;
    phc_addend_we_o = false;
    phc_addend_o = 0;
    phc_step_we_o = false;
    phc_step_o = 0;
    dbg_rx_drop_o = 0;
    dbg_ev_drop_o = 0;
  };
}

abbrev one_frame : Session ℕ
one_frame = record (session engine) { txf = (1 ∷ []) ∷ []; txns = 0 ∷ [] }

one_frame-IsStamped : IsStamped one_frame
unfolding session
one_frame-IsStamped = record { stamps = refl; pending = λ i h. ground arith }

run-IsStamped_example : IsStamped (run engine 4 one_frame)
run-IsStamped_example = run-IsStamped engine 4 one_frame one_frame-IsStamped

pd_answer_example :
    let f = pd_answer 0x3 0x1234 0x0200 0x7F 5_000_000_007 our_cid in
    (length f ≡ 68)
    × (fld16 f 16 ≡ length f - 14)
    × (type_of f ≡ 0x3)
    × (seq_of f ≡ 0x1234)
    × (fld16 f 48 ≡ 5_000_000_007 / 1000000000 / 2 ^ 32)
    × (fld 4 f 50 ≡ 5_000_000_007 / 1000000000 % 2 ^ 32)
    × (fld 4 f 54 ≡ 5_000_000_007 % 1000000000)
    × (fld64 f 58 ≡ our_cid)
pd_answer_example =
    pd_answer_lem 0x3 0x1234 0x0200 0x7F 5_000_000_007 our_cid (omega arith) (omega arith)
      (omega arith) (omega arith)

hex_example :
    (bytes_of_hex (hex_of_bytes (0xDE ∷ 0xAD ∷ [])) ≡ 0xDE ∷ 0xAD ∷ [])
    × (bytes_of_hex (hex_of_bytes (0xDE ∷ 0xAD ∷ []) ++ (7 ∷ [])) ≡ 0xDE ∷ 0xAD ∷ [])
hex_example = bytes_of_hex-hex_of_bytes (0xDE ∷ 0xAD ∷ []) 7 (omega arith, (omega arith, tt))

abbrev script : List Command
script = rx (0xA ∷ 0xB ∷ []) 5 ∷ run_for 3 ∷ txdump ∷ unknown ∷ []
