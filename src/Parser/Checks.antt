-- ===== src/Parser/Checks.antt =====
-- tb/verilator/parser/sim_main.cpp, the first Announce checks: a two-hop path trace, a declared
-- suffix, and unknown TLVs around the path.
pub mod Announce
pub mod Paths
pub mod FollowUp
pub mod Arms
pub mod Minimum
pub mod Adjacent
pub mod Errors
pub mod Stale
use fpga_g_ptp.Base.{ℕ, ◌+◌, false, [], ◌∷◌, bit_or, ◌<<<◌}
use fpga_g_ptp.Harness.Verilated.{Verilated}
use fpga_g_ptp.Wire.{Frame, put_u8, put_u16, put_u32, put_u64}
use fpga_g_ptp.Parser.Frames.{
  Hdr, default_hdr, common, fill, w0_of, announce_frame, append_tlv, append_path_tlv,
}
use fpga_g_ptp.Parser.Feed.{ParserIn, ParserOut, Harness, feed}
use fpga_g_ptp.Parser.Expect.{
  local_cid, agm, asrc, pt_present, expect_word, expect_event, expect_seq, expect_pathless,
  expect_counted, expect_path,
}

abbrev pub two_hop_hdr : Hdr
two_hop_hdr = record default_hdr {
  mtype = 0xB;
  seq = 0xBEEF;
  flags = 0x0008;
  srcid = 0x00220FFFFE334455;
  srcpn = 2;
}

unfoldable pub two_hop_frame : Frame
two_hop_frame =
    let f = fill 10 0 (common two_hop_hdr (30 + 4 + 16)) in
    let f = put_u8 (put_u8 (put_u16 f 0xFFC4) 0) 248 in
    let f = put_u8 (put_u32 f 0xF8FE436A) 248 in
    let f = put_u8 (put_u16 (put_u64 f 0x00220FFFFE334455) 1) 0xA0 in
    let f = put_u16 (put_u16 f 0x0008) 16 in
    put_u64 (put_u64 f 0x00220FFFFE334455) 0x2222222222222222

-- `announce_frame(seq, AGM, steps, ASRC, {})`
abbrev pub bare : (seq steps : ℕ) → Frame
bare seq steps = announce_frame seq agm steps asrc []

module _ (V : Verilated ParserIn ParserOut) where
  unfoldable pub check_announce_with_a_two_hop_path_trace : Harness V.State → Harness V.State
  check_announce_with_a_two_hop_path_trace h =
      let h = expect_seq 0xBEEF (expect_event 3 (feed V two_hop_frame false h)) in
      let h =
        expect_word 3 2 (expect_word 2 two_hop_hdr.srcid (expect_word 0 (w0_of two_hop_hdr) h)) in
      let h =
        expect_word 8 (bit_or (bit_or (bit_or (0xFFC4 <<< 48) (248 <<< 40)) (0xF8FE436A <<< 8)) 248)
          h in
      let h = expect_word 9 0x00220FFFFE334455 h in
      let h = expect_word 10 (bit_or (1 <<< 48) (0xA0 <<< 40)) h in
      let h = expect_word 12 (bit_or pt_present 2) h in
      expect_word 17 0x2222222222222222 (expect_word 16 0x00220FFFFE334455 h)

  unfoldable pub check_a_declared_suffix_binds_parsing_to_the_message :
      Harness V.State → Harness V.State
  check_a_declared_suffix_binds_parsing_to_the_message h =
      let outside = put_u64 (put_u64 (put_u16 (put_u16 (bare 0xA002 1) 0x0008) 16) agm) local_cid in
      let h = expect_pathless V outside (expect_pathless V (bare 0xA001 0) h) in
      let h = expect_pathless V (append_tlv 0x1234 (0xAA ∷ 0x55 ∷ []) (bare 0xA010 0)) h in
      expect_pathless V
        (append_tlv 0x0003 (0x12 ∷ 0x34 ∷ 0x56 ∷ 0xAB ∷ 0xCD ∷ 0xEF ∷ []) (bare 0xA016 0)) h

  unfoldable pub check_unknown_tlvs_are_skipped_around_the_path_tlv :
      Harness V.State → Harness V.State
  check_unknown_tlvs_are_skipped_around_the_path_tlv h =
      let h = expect_counted V 0 (append_tlv 0x1234 [] (bare 0xA011 0)) h in
      let h =
        expect_pathless V
          (append_tlv 0x2222 (1 ∷ 2 ∷ 3 ∷ 4 ∷ []) (append_tlv 0x1111 [] (bare 0xA012 0))) h in
      let path = append_path_tlv (agm ∷ asrc ∷ []) in
      let expect_two = expect_path V (bit_or pt_present 2) (agm ∷ asrc ∷ []) in
      let h = expect_two (path (append_tlv 0x1111 (0xA1 ∷ 0xA2 ∷ []) (bare 0xA013 1))) h in
      let h = expect_two (append_tlv 0x2222 (0xB1 ∷ 0xB2 ∷ []) (path (bare 0xA014 1))) h in
      expect_two
        (append_tlv 0x3333 (1 ∷ 2 ∷ 3 ∷ 4 ∷ [])
          (path (append_tlv 0x2222 (0xC1 ∷ 0xC2 ∷ []) (append_tlv 0x1111 [] (bare 0xA015 1)))))
        h
