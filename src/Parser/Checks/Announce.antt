-- ===== src/Parser/Checks/Announce.antt =====
-- tb/verilator/parser/sim_main.cpp, the Announce chains that the parser refuses:
-- `check_an_incomplete_declared_chain_is_refused` and `check_a_duplicate_path_tlv_is_refused`.
use fpga_g_ptp.Base.{
  ℕ, ◌+◌, ◌-◌, [], ◌∷◌, ◌==◌, if◌then◌else◌, length, take, replicate, set, for_range,
}
use fpga_g_ptp.Harness.Verilated.{Verilated}
use fpga_g_ptp.Wire.{Frame, put_u8, put_u16, put_u32}
use fpga_g_ptp.Parser.Frames.{announce_frame, append_tlv, append_path_tlv, set_declared_to_physical}
use fpga_g_ptp.Parser.Feed.{ParserIn, ParserOut, Harness}
use fpga_g_ptp.Parser.Expect.{local_cid, agm, asrc, expect_refused, expect_counted}
use fpga_g_ptp.Parser.Checks.{bare}

-- `f.b.resize(f.b.size() - n)`
abbrev pub cut : (n : ℕ) → Frame → Frame
cut n f = take (length f - n) f

-- `f.b[16] = 0; f.b[17] = n;`
abbrev pub declare : (n : ℕ) → Frame → Frame
declare n f = set (set f 16 0) 17 n

-- An Announce with the first `partial` octets of a TLV header behind it.
unfoldable pub partial_header : (partial : ℕ) → Frame
partial_header partial =
    set_declared_to_physical
      (for_range partial 0 (λ i f. put_u8 f (0xD0 + i)) (bare (0xA020 + partial) 0))

-- An Announce with two path trace TLVs, the second with one hop.
unfoldable pub duplicate_path : (duplicate : ℕ) → Frame
duplicate_path duplicate =
    let hop =
      if duplicate == 0 then agm else if duplicate == 1 then 0x00BAD0FFFE000001 else local_cid in
    append_path_tlv (hop ∷ []) (append_path_tlv (agm ∷ []) (bare (0xA030 + duplicate) 0))

module _ (V : Verilated ParserIn ParserOut) where
  unfoldable pub check_an_incomplete_declared_chain_is_refused : Harness V.State → Harness V.State
  check_an_incomplete_declared_chain_is_refused h =
      let h = for_range 3 1 (λ partial c. expect_refused V (partial_header partial) c) h in
      let h = expect_refused V (append_tlv 0x1234 (0xEE ∷ []) (bare 0xA024 0)) h in
      let huge = put_u16 (put_u16 (bare 0xA025 0) 0x1234) 0xFFFE in
      let h = expect_refused V (set_declared_to_physical huge) h in
      let overrun = put_u16 (put_u16 (put_u16 (bare 0xA026 0) 0x1234) 4) 0xCAFE in
      let h = expect_refused V (set_declared_to_physical overrun) h in
      let whole = append_tlv 0x1234 (1 ∷ 2 ∷ 3 ∷ 4 ∷ []) (bare 0xA027 0) in
      let h = expect_refused V (cut 2 whole) h in
      let partial_tlv = put_u16 (append_path_tlv (agm ∷ []) (bare 0xA028 0)) 0x1234 in
      expect_refused V (set_declared_to_physical partial_tlv) h

  unfoldable pub check_a_duplicate_path_tlv_is_refused : Harness V.State → Harness V.State
  check_a_duplicate_path_tlv_is_refused h =
      let h = for_range 3 0 (λ duplicate c. expect_refused V (duplicate_path duplicate) c) h in
      let h = expect_counted V 0 (append_tlv 0x1234 (replicate 1432 0x5A) (bare 0xA040 0)) h in
      let h = expect_refused V (put_u32 (declare 68 (bare 0xA009 0)) 0xDEADBEEF) h in
      expect_refused V (cut 8 (announce_frame 0xA003 agm 1 asrc (agm ∷ asrc ∷ []))) h
