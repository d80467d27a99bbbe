-- ===== src/Engine/Tests.antt =====
-- The engine suite on concrete frames, exchanges and clocks.
pub mod Waits
pub mod Passes
pub mod Answers
use fpga_g_ptp.Base.{
  ℕ, ◌+◌, ◌/◌, ◌%◌, ◌^◌, ◌<◌, ◌≡◌, refl, true, false, List, [], ◌∷◌, arith, leb, length, ◌==◌, ◌&&◌,
  get_or, to_nat, suc,
}
use fpga_g_ptp.Base.Int.{pos, negsuc, asr}
use fpga_g_ptp.Harness.Verilated.{Verilated}
use fpga_g_ptp.Wire.{Frame}
use fpga_g_ptp.Wire.Read.{fld, fld16, fld48, fld64, seq_of, type_of}
use fpga_g_ptp.Engine.Const.{our_cid, peer_cid}
use fpga_g_ptp.Engine.Frames.{follow_up, announce_frame, send_announce_frame}
use fpga_g_ptp.Engine.Suite.{pd_frame}
use fpga_g_ptp.Engine.Suite.Boot.{pdelay_req}
use fpga_g_ptp.Engine.Frames.Fields.{Says, follow_up_lem, send_announce_frame_lem}
use fpga_g_ptp.Engine.Frames.Layout.{tlv_length}
use fpga_g_ptp.Engine.Pdelay.{PdelayModelState, update_ratio, model_exchange, peer_ns}
use fpga_g_ptp.Engine.Pdelay.Laws.{model_exchange_corrected}
use fpga_g_ptp.Engine.Pdelay.Peer.{pd_normal, residence}
use fpga_g_ptp.Engine.Servo.{ServoModelState, servo_mirror}
use fpga_g_ptp.Engine.Servo.Laws.{Policy, servo_mirror_lem}
use fpga_g_ptp.Engine.Ports.{EngineIn, EngineOut}
use fpga_g_ptp.Engine.Face.{Face, withhold, release_withheld, is_withheld}
use fpga_g_ptp.Engine.Face.Laws.{times_withheld, is_withheld_lem}
use fpga_g_ptp.Engine.Transmit.{Beat}
use fpga_g_ptp.Engine.Transmit.Stream.{captures, beat_of, captures_frames}
use fpga_g_ptp.Engine.Phc.{Phc}
use fpga_g_ptp.Engine.Watch.{PubSnap, committed_path_is}
use fpga_g_ptp.Engine.Watch.Laws.{committed_path_is_lem}
use fpga_g_ptp.Engine.Bench.{Bench, bench, run}
use fpga_g_ptp.Engine.Bench.Laws.{IsSound, run-IsSound}

-- An engine that commits and sends a frame of one byte in each clock, and takes every result.
abbrev pub quiet : EngineOut
quiet = record {
  tx_valid_o = true;
  tx_data_o = 0x5A;
  tx_sof_o = true;
  tx_eof_o = true;
  txts_ready_o = true;
  pub_gm_id_o = our_cid;
  pub_parent_id_o = our_cid;
  pub_path_count_o = 1;
  pub_path_o = our_cid % 2 ^ 32 ∷ our_cid / 2 ^ 32 ∷ [];
  pub_flags_o = 0x3;
  pub_commit_o = true;
  pub_pdelay_ns_o = 0;
  pub_offset_o = 0;
  pub_annq_o = 0;
  phc_slew_active_o = false;
  phc_addend_we_o = true;
  phc_addend_o = 1000;
  phc_step_we_o = false;
  phc_step_o = 0;
  dbg_rx_drop_o = 0;
  dbg_ev_drop_o = 0;
}

abbrev engine : Verilated EngineIn EngineOut
engine = record { State = ℕ; fresh = 0; eval = λ ports evals. suc evals; out = λ evals. quiet }

abbrev pub start : Bench ℕ
start = record {
  dut = 0;
  ports = fpga_g_ptp.Engine.Ports.idle_in;
  cyc = 7;
  rst_release_cyc = 0;
  rst_was_high = false;
  self_present = 1;
  tally = record { checks = 0; fails = 0 };
  face = record fpga_g_ptp.Engine.Face.initial { ts_offer = true; ts_offer_ns = 77 };
  withheld = [];
  transmit = fpga_g_ptp.Engine.Transmit.initial;
  phc = fpga_g_ptp.Engine.Phc.initial;
  watch = fpga_g_ptp.Engine.Watch.initial;
}

run-IsSound_example : IsSound (run engine 3 (bench engine false))
run-IsSound_example = run-IsSound engine false 3 (omega arith)

-- Two frames with a stall in the first.
abbrev clocks : List Beat
clocks =
    beat_of true false 1
    ∷ record { fire = false; sof = false; eof = false; byte = 9 }
    ∷ beat_of false true 2
    ∷ beat_of true true 3
    ∷ []

captures_frames_example :
    (captures 5 clocks fpga_g_ptp.Engine.Transmit.initial).txf ≡ (1 ∷ 2 ∷ []) ∷ (3 ∷ []) ∷ []
captures_frames_example =
    captures_frames 5 clocks ((1 ∷ 2 ∷ []) ∷ (3 ∷ []) ∷ []) fpga_g_ptp.Engine.Transmit.initial refl
      refl

follow_up_example :
    let f = follow_up 7 0x10000 3_000_000_005 peer_cid 0 in
    (length f ≡ 14 + 76)
    × Says f 0x8 7 0x10000 0 76 peer_cid
    × (fld48 f 48 ≡ 3_000_000_005 / 1_000_000_000)
    × (fld 4 f 54 ≡ 3_000_000_005 % 1_000_000_000)
    × (fld16 f 58 ≡ 0x0003)
    × (fld16 f 60 ≡ 28)
    × (fld48 f 62 ≡ 0x0080C2000001)
follow_up_example =
    follow_up_lem 7 0x10000 3_000_000_005 peer_cid 0 (omega arith) (omega arith) (omega arith)
      (omega arith) (omega arith)

send_announce_frame_example :
    let f = send_announce_frame 9 248 peer_cid 1 peer_cid (peer_cid ∷ our_cid ∷ []) false in
    (length f ≡ 14 + 64 + tlv_length (peer_cid ∷ our_cid ∷ []) false)
    × Says f 0xB 9 0 0x0008 (64 + tlv_length (peer_cid ∷ our_cid ∷ []) false) peer_cid
    × (fld64 f 67 ≡ peer_cid)
    × (fld16 f 75 ≡ 1)
send_announce_frame_example =
    send_announce_frame_lem 9 248 peer_cid 1 peer_cid (peer_cid ∷ our_cid ∷ []) false (omega arith)
      (omega arith) (omega arith) (omega arith) (omega arith)

-- After one exchange, with a window of a millisecond to the next.
abbrev once : PdelayModelState
once = record {
  nr3 = 5_000_000;
  nr4 = 1_000_000;
  nrr = 2 ^ 30;
  d = pos 0;
  count = 1;
  stale_skip = false;
}

model_exchange_corrected_example :
    (model_exchange 1_978_800 5_980_000 6_000_000 2_000_000 once).d ≡ pos 600
unfolding update_ratio asr
model_exchange_corrected_example =
    model_exchange_corrected 1_978_800 5_980_000 6_000_000 2_000_000 once (omega arith)
      (omega arith) (omega arith) (omega arith) (omega arith) (omega arith) (omega arith)
      (omega arith)

-- The state that the first normal exchange, at 10 ms, leaves.
abbrev answered : PdelayModelState
answered = record {
  nr3 = peer_ns (10_000_000 + 300) + residence pd_normal;
  nr4 = 10_000_000 + 21200;
  nrr = 0;
  d = pos 600;
  count = 1;
  stale_skip = false;
}

servo_mirror_example :
    Policy
      (negsuc 30_000)
      true
      fpga_g_ptp.Engine.Servo.initial
      (servo_mirror (negsuc 30_000) true fpga_g_ptp.Engine.Servo.initial)
servo_mirror_example = servo_mirror_lem (negsuc 30_000) true fpga_g_ptp.Engine.Servo.initial

abbrev snap : PubSnap
snap = record {
  gm = 5;
  parent = 5;
  count = 2;
  head = 5;
  tail = 6 ∷ 0 ∷ 0 ∷ 0 ∷ 0 ∷ 0 ∷ 0 ∷ [];
  cyc = 9;
  flags = 1;
}

committed_path_is_example :
    (0 < 2)
    × (snap.count ≡ 2)
    × ((i : ℕ) → i < 8 → get_or (snap.head ∷ snap.tail) i 0 ≡ get_or (5 ∷ 6 ∷ []) i 0)
unfolding committed_path_is
committed_path_is_example = committed_path_is_lem snap (5 ∷ 6 ∷ []) refl
