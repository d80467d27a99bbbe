-- ===== src/Parser/Suite/Laws/Announce.antt =====
-- The comparisons of the Announce checks.
use fpga_g_ptp.Base.{for_range, for_each}
use fpga_g_ptp.Harness.Verilated.{Verilated}
use fpga_g_ptp.Parser.Feed.{ParserIn, ParserOut, Harness}
use fpga_g_ptp.Parser.Expect.Laws.{Graded, gradings, block_gradings}
use fpga_g_ptp.Parser.Checks.{
  check_announce_with_a_two_hop_path_trace, check_a_declared_suffix_binds_parsing_to_the_message,
  check_unknown_tlvs_are_skipped_around_the_path_tlv,
}
use fpga_g_ptp.Parser.Checks.Announce.{
  check_an_incomplete_declared_chain_is_refused, check_a_duplicate_path_tlv_is_refused,
}
use fpga_g_ptp.Parser.Checks.Paths.{
  check_declared_path_boundaries_and_padding, probe_path,
  check_a_path_count_need_not_match_steps_removed, check_a_path_head_and_an_empty_path_qualify,
}

module _ (V : Verilated ParserIn ParserOut) (h : Harness V.State) where
  pub two_hop-Graded : Graded h (check_announce_with_a_two_hop_path_trace V h) 11
  unfolding check_announce_with_a_two_hop_path_trace
  two_hop-Graded = search (gradings, block_gradings) depth 40

  pub declared_suffix-Graded :
      Graded h (check_a_declared_suffix_binds_parsing_to_the_message V h) 16
  unfolding check_a_declared_suffix_binds_parsing_to_the_message
  declared_suffix-Graded = search (gradings, block_gradings) depth 40

  pub unknown_tlvs-Graded : Graded h (check_unknown_tlvs_are_skipped_around_the_path_tlv V h) 22
  unfolding check_unknown_tlvs_are_skipped_around_the_path_tlv
  unknown_tlvs-Graded = search (gradings, block_gradings) depth 40

  pub incomplete_chain-Graded : Graded h (check_an_incomplete_declared_chain_is_refused V h) 24
  unfolding check_an_incomplete_declared_chain_is_refused for_range
  incomplete_chain-Graded = search (gradings, block_gradings) depth 40

  pub duplicate_path-Graded : Graded h (check_a_duplicate_path_tlv_is_refused V h) 18
  unfolding check_a_duplicate_path_tlv_is_refused for_range
  duplicate_path-Graded = search (gradings, block_gradings) depth 40

  pub path_boundaries-Graded : Graded h (check_declared_path_boundaries_and_padding V h) 12
  unfolding check_declared_path_boundaries_and_padding
  path_boundaries-Graded = search (gradings, block_gradings) depth 40

  pub path_count-Graded : Graded h (check_a_path_count_need_not_match_steps_removed V h) 20
  unfolding check_a_path_count_need_not_match_steps_removed for_each probe_path
  path_count-Graded = search (gradings, block_gradings) depth 40

  pub path_head-Graded : Graded h (check_a_path_head_and_an_empty_path_qualify V h) 23
  unfolding check_a_path_head_and_an_empty_path_qualify for_each probe_path
  path_head-Graded = search (gradings, block_gradings) depth 40
