-- ===== src/Parser/Checks/Minimum.antt =====
-- tb/verilator/parser/sim_main.cpp, the messageLength minimum: `check_message_length_minimum_per_type`,
-- `check_a_padded_sync_is_accepted` and `check_pdelay_req_minimum_arms`.
use fpga_g_ptp.Base.{
  ℕ, ◌-◌, List, [], ◌∷◌, bit_and, bit_or, u8, u16, ◌>>>◌, replicate, set, for_each,
}
use fpga_g_ptp.Harness.Verilated.{Verilated}
use fpga_g_ptp.Wire.{Frame}
use fpga_g_ptp.Parser.Frames.{common, fill, put_bytes}
use fpga_g_ptp.Parser.Feed.{ParserIn, ParserOut, Harness}
use fpga_g_ptp.Parser.Expect.{
  expect_word, expect_event, expect_size, expect_no_drop, block, expect_dropped, expect_unwritten,
}
use fpga_g_ptp.Parser.Checks.Arms.{peer_hdr, master_hdr, sync_of}

pub record LenArm : Type 0 where
  pub mtype : ℕ
  pub minlen : ℕ
  pub ev : ℕ

abbrev pub len_arms : List LenArm
len_arms =
    record { mtype = 0x0; minlen = 44; ev = 1 }
    ∷ record { mtype = 0x3; minlen = 54; ev = 5 }
    ∷ record { mtype = 0xA; minlen = 54; ev = 6 }
    ∷ record { mtype = 0x2; minlen = 54; ev = 4 }
    ∷ record { mtype = 0xC; minlen = 34; ev = 7 }
    ∷ []

-- The complete message of an arm.
unfoldable pub minimum_frame : LenArm → Frame
minimum_frame a =
    fill (a.minlen - 34) 0
      (common (peer_hdr a.mtype (u16 (bit_or 0x0B00 a.minlen))) (u16 (a.minlen - 34)))

-- The same declaring one octet fewer.
unfoldable pub short_declared : LenArm → Frame
short_declared a =
    set (set (minimum_frame a) 16 (u8 ((a.minlen - 1) >>> 8))) 17 (u8 (bit_and (a.minlen - 1) 0xFF))

abbrev pub pads : List (List ℕ)
pads = (0x00 ∷ 0x00 ∷ []) ∷ (0x00 ∷ 0x03 ∷ []) ∷ (0x00 ∷ 0x08 ∷ []) ∷ replicate 16 0x00 ∷ []

-- A Pdelay_Req that declares `declared` octets behind the header and has `physical`.
unfoldable pub pdreq_short : (seq declared physical : ℕ) → Frame
pdreq_short seq declared physical = fill physical 0 (common (peer_hdr 0x2 seq) declared)

module _ (V : Verilated ParserIn ParserOut) where
  unfoldable pub len_arm : LenArm → Harness V.State → Harness V.State
  len_arm a h =
      let h = expect_unwritten V (short_declared a) h in
      block V (λ d0 c. expect_no_drop V d0 (expect_event a.ev c)) (minimum_frame a) h

  unfoldable pub check_message_length_minimum_per_type : Harness V.State → Harness V.State
  check_message_length_minimum_per_type = for_each len_arm len_arms

  unfoldable pub padded_sync : (pad : List ℕ) → Harness V.State → Harness V.State
  padded_sync pad =
      block V
        (λ d0 h. expect_no_drop V d0 (expect_word 5 0x1DCD6500 (expect_size 6 (expect_event 1 h))))
        (put_bytes (sync_of (master_hdr 0x0 0x0A60)) pad)

  unfoldable pub check_a_padded_sync_is_accepted : Harness V.State → Harness V.State
  check_a_padded_sync_is_accepted = for_each padded_sync pads

  unfoldable pub check_pdelay_req_minimum_arms : Harness V.State → Harness V.State
  check_pdelay_req_minimum_arms h =
      let h = expect_unwritten V (pdreq_short 0x0E22 0 0) h in
      let h = expect_unwritten V (pdreq_short 0x0E2C 10 10) h in
      let h = expect_unwritten V (pdreq_short 0x0E35 19 19) h in
      expect_dropped V (pdreq_short 0x0E36 20 19) h
