-- ===== src/Engine/Tests/Answers.antt =====
-- The phase in which the peer initiates, on a concrete engine that has its answers out already.
use fpga_g_ptp.Base.{ℕ, false, [], ◌∷◌, suc, refl, bit_or}
use fpga_g_ptp.Harness.Verilated.{Verilated}
use fpga_g_ptp.Wire.{Frame, put_u8, put_u16, put_u32, put_u48, put_u64, put_ts}
use fpga_g_ptp.Wire.Read.{fld, fld16, fld32, fld48, fld64, seq_of, type_of}
use fpga_g_ptp.Harness.Tally.{expect_eq}
use fpga_g_ptp.Engine.Frames.{ptp}
use fpga_g_ptp.Engine.Face.{drive_result_face, offer_result, settle_beat}
use fpga_g_ptp.Engine.Transmit.{capture}
use fpga_g_ptp.Engine.Suite.Boot.{pdelay_req}
use fpga_g_ptp.Engine.Const.{our_cid, our_mac, peer_cid}
use fpga_g_ptp.Engine.Ports.{EngineIn, EngineOut}
use fpga_g_ptp.Engine.Bench.{send_frame, tick, offer_loop, deliver_result}
use fpga_g_ptp.Engine.Suite.{next_tx, wait_tx}
use fpga_g_ptp.Engine.Suite.Phased.{Phased, phased}
use fpga_g_ptp.Engine.Suite.Send.{check_common, expect, txts, txts_idx}
use fpga_g_ptp.Engine.Suite.Exchange.{
  answer_a_peer_initiated_exchange, grade_answer, wait_and_grade, when_sent, stamp_of,
}
use fpga_g_ptp.Engine.Suite.Exchange.Laws.{Answered, responded, answer_the_peer-Answered}
use fpga_g_ptp.Engine.Tests.{quiet, start}
use fpga_g_ptp.Engine.Tests.Waits.{waiting}

-- An engine that takes every result and is silent otherwise.
abbrev silent : Verilated EngineIn EngineOut
silent = record {
  State = ℕ;
  fresh = 0;
  eval = λ ports evals. suc evals;
  out = λ evals. record quiet { tx_valid_o = false; pub_commit_o = false; phc_addend_we_o = false };
}

abbrev answer : (mtype flags ns : ℕ) → Frame
answer mtype flags ns =
    let f = put_u48 (put_u48 [] 0x0180C200000E) our_mac in
    let f = put_u8 (put_u8 (put_u16 f 0x88F7) (bit_or 0x10 mtype)) 0x02 in
    let f = put_u16 (put_u16 (put_u16 f 54) 0) flags in
    let f = put_u16 (put_u64 (put_u32 (put_u64 f 0) 0) our_cid) 1 in
    let f = put_u8 (put_u8 (put_u16 f 0x55AA) 0x05) 0x7F in
    put_u16 (put_u64 (put_ts f ns) peer_cid) 1

abbrev asked : Phased ℕ
asked = record (phased silent false) {
  suite = record waiting {
    bench = record start {
      face = fpga_g_ptp.Engine.Face.initial;
      transmit = record fpga_g_ptp.Engine.Transmit.initial {
        txf = answer 0x3 0x0200 2000000 ∷ answer 0xA 0x0000 2050000 ∷ [];
        txns = 0 ∷ 0 ∷ [];
      };
    };
  };
}

answer_the_peer_example :
    Answered 0x3 0x0200 0x55AA 2000000 (responded silent 8 asked)
    × Answered 0xA 0x0000 0x55AA 2050000 (answer_a_peer_initiated_exchange silent 8 asked).suite
unfolding answer_a_peer_initiated_exchange wait_and_grade when_sent wait_tx next_tx txts txts_idx
    send_frame pdelay_req put_ts put_u32 put_u16 put_u8 put_u48 put_u64 ptp capture grade_answer
    check_common expect expect_eq stamp_of fld16 fld32 fld48 fld64 deliver_result tick offer_loop
    drive_result_face offer_result settle_beat seq_of type_of fld
answer_the_peer_example = answer_the_peer-Answered silent 8 asked refl
