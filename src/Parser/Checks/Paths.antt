-- ===== src/Parser/Checks/Paths.antt =====
-- tb/verilator/parser/sim_main.cpp, the bounds of a path trace and what does not disqualify one:
-- `check_declared_path_boundaries_and_padding`, `check_a_path_count_need_not_match_steps_removed`
-- and `check_a_path_head_and_an_empty_path_qualify`.
use fpga_g_ptp.Base.{ℕ, ◌+◌, List, [], ◌∷◌, bit_or, set, snoc, for_range, for_each}
use fpga_g_ptp.Harness.Verilated.{Verilated}
use fpga_g_ptp.Wire.{put_u8, put_u16, put_u64}
use fpga_g_ptp.Parser.Frames.{announce_frame, append_tlv, append_path_tlv}
use fpga_g_ptp.Parser.Feed.{ParserIn, ParserOut, Harness}
use fpga_g_ptp.Parser.Expect.{
  local_cid, agm, asrc, pt_present, expect_word, expect_event, expect_no_drop, block,
  expect_dropped, expect_refused, expect_counted, expect_path,
}
use fpga_g_ptp.Parser.Checks.{bare}
use fpga_g_ptp.Parser.Checks.Announce.{declare}

-- The grandmaster, seven made hops, and ninth, past the words of the bank, the local clock.
unfoldable pub deep_self_path : List ℕ
deep_self_path = snoc (for_range 7 1 (λ i path. snoc path (0x7000 + i)) (agm ∷ [])) local_cid

-- Both structures `Probe`; the head probes have no `steps` and take 1.
pub record Probe : Type 0 where
  pub seq : ℕ
  pub steps : ℕ
  pub path : List ℕ
  pub w12 : ℕ

abbrev pub xhead : ℕ
xhead = 0x00BAD0FFFE000001

abbrev pub count_probes : List Probe
count_probes =
    record { seq = 0xA020; steps = 3; path = agm ∷ []; w12 = bit_or pt_present 1 }
    ∷ record { seq = 0xA021; steps = 2; path = agm ∷ asrc ∷ []; w12 = bit_or pt_present 2 }
    ∷ record {
      seq = 0xA022;
      steps = 0;
      path = agm ∷ 0x001122FFFE778899 ∷ asrc ∷ [];
      w12 = bit_or pt_present 3;
    }
    ∷ record { seq = 0xA023; steps = 5; path = agm ∷ local_cid ∷ []; w12 = bit_or pt_present 0x102 }
    ∷ []

abbrev pub head_probes : List Probe
head_probes =
    record { seq = 0xA050; steps = 1; path = xhead ∷ asrc ∷ []; w12 = bit_or pt_present 2 }
    ∷ record { seq = 0xA051; steps = 1; path = asrc ∷ []; w12 = bit_or pt_present 1 }
    ∷ record {
      seq = 0xA052;
      steps = 1;
      path = local_cid ∷ asrc ∷ [];
      w12 = bit_or pt_present 0x102;
    }
    ∷ []

module _ (V : Verilated ParserIn ParserOut) where
  unfoldable pub check_declared_path_boundaries_and_padding : Harness V.State → Harness V.State
  check_declared_path_boundaries_and_padding h =
      let two = announce_frame 0xA008 agm 1 asrc (agm ∷ asrc ∷ []) in
      let h = expect_dropped V (declare 76 two) h in
      let one = announce_frame 0xA004 agm 0 asrc (agm ∷ []) in
      let h = expect_dropped V (put_u8 (declare 77 (set one 81 9)) 0xEE) h in
      let one = announce_frame 0xA006 agm 0 asrc (agm ∷ []) in
      let padded = put_u64 (put_u16 (put_u16 one 0x0008) 8) local_cid in
      let h = expect_counted V (bit_or pt_present 1) padded h in
      block V
        (λ d0 c. expect_no_drop V d0 (
          expect_word 23 0x7007
            (expect_word 16 agm (expect_word 12 (bit_or pt_present 0x109) (expect_event 3 c)))))
        (announce_frame 0xA007 agm 8 asrc deep_self_path) h

  unfoldable pub probe_path : Probe → Harness V.State → Harness V.State
  probe_path p = expect_path V p.w12 p.path (announce_frame p.seq agm p.steps asrc p.path)

  unfoldable pub check_a_path_count_need_not_match_steps_removed : Harness V.State → Harness V.State
  check_a_path_count_need_not_match_steps_removed = for_each probe_path count_probes

  unfoldable pub check_a_path_head_and_an_empty_path_qualify : Harness V.State → Harness V.State
  check_a_path_head_and_an_empty_path_qualify h =
      let h = for_each probe_path head_probes h in
      let h = expect_counted V pt_present (append_path_tlv [] (bare 0xA053 0)) h in
      let between =
        append_tlv 0x2222 []
          (append_path_tlv [] (append_tlv 0x1111 (0xA1 ∷ 0xA2 ∷ []) (bare 0xA054 0))) in
      let h = expect_counted V pt_present between h in
      expect_refused V (append_path_tlv (agm ∷ []) (append_path_tlv [] (bare 0xA055 0))) h
