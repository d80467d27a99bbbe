-- ===== src/Parser/Suite.antt =====
-- tb/verilator/parser/sim_main.cpp, `run` and `report`: the checks in their order and the exit status.
pub mod Laws
pub mod Drops
use fpga_g_ptp.Base.{ℕ}
use fpga_g_ptp.Harness.Verilated.{Verilated}
use fpga_g_ptp.Harness.Tally.{exit_status}
use fpga_g_ptp.Parser.Feed.{ParserIn, ParserOut, Harness, reset_the_parser}
use fpga_g_ptp.Parser.Checks.{
  check_announce_with_a_two_hop_path_trace, check_a_declared_suffix_binds_parsing_to_the_message,
  check_unknown_tlvs_are_skipped_around_the_path_tlv,
}
use fpga_g_ptp.Parser.Checks.Announce.{
  check_an_incomplete_declared_chain_is_refused, check_a_duplicate_path_tlv_is_refused,
}
use fpga_g_ptp.Parser.Checks.Paths.{
  check_declared_path_boundaries_and_padding, check_a_path_count_need_not_match_steps_removed,
  check_a_path_head_and_an_empty_path_qualify,
}
use fpga_g_ptp.Parser.Checks.FollowUp.{
  check_sync, check_follow_up_with_information_tlv, check_follow_up_tlv_walk_accepts,
  check_follow_up_tlv_walk_refuses, check_follow_up_minimum_and_tlv_arms,
}
use fpga_g_ptp.Parser.Checks.Arms.{
  check_pdelay_resp, check_header_level_drop_arms, check_foreign_domain_is_refused_for_every_type,
  check_unlisted_message_types_are_refused,
}
use fpga_g_ptp.Parser.Checks.Minimum.{
  check_message_length_minimum_per_type, check_a_padded_sync_is_accepted,
  check_pdelay_req_minimum_arms,
}
use fpga_g_ptp.Parser.Checks.Adjacent.{
  check_adjacent_refusals_are_each_counted, check_the_drop_count_advanced,
}
use fpga_g_ptp.Parser.Checks.Errors.{
  check_rx_err_on_any_byte_drops_the_frame, check_rx_err_writes_before_on_and_after_the_flag,
}
use fpga_g_ptp.Parser.Checks.Stale.{check_a_refused_frame_leaves_no_stale_word}

module _ (V : Verilated ParserIn ParserOut) where
  -- The Announce checks.
  unfoldable pub announce_checks : Harness V.State → Harness V.State
  announce_checks h =
      let h = check_announce_with_a_two_hop_path_trace V h in
      let h = check_a_declared_suffix_binds_parsing_to_the_message V h in
      let h = check_unknown_tlvs_are_skipped_around_the_path_tlv V h in
      let h = check_an_incomplete_declared_chain_is_refused V h in
      let h = check_a_duplicate_path_tlv_is_refused V h in
      let h = check_declared_path_boundaries_and_padding V h in
      let h = check_a_path_count_need_not_match_steps_removed V h in
      check_a_path_head_and_an_empty_path_qualify V h

  -- The checks of the event messages, up to the drop arms.
  unfoldable pub message_checks : Harness V.State → Harness V.State
  message_checks h =
      let h = check_follow_up_with_information_tlv V (check_sync V h) in
      let h = check_follow_up_tlv_walk_refuses V (check_follow_up_tlv_walk_accepts V h) in
      check_pdelay_resp V h

  -- The arms behind the foreign domains.
  unfoldable pub length_arms : Harness V.State → Harness V.State
  length_arms h =
      let h = check_follow_up_minimum_and_tlv_arms V h in
      let h = check_message_length_minimum_per_type V h in
      let h = check_a_padded_sync_is_accepted V h in
      let h = check_pdelay_req_minimum_arms V h in
      let h = check_unlisted_message_types_are_refused V h in
      check_adjacent_refusals_are_each_counted V h

  -- The drop arms, whose drops `drops0` is the base of.
  unfoldable pub drop_arms : Harness V.State → Harness V.State
  drop_arms h =
      length_arms
        (check_foreign_domain_is_refused_for_every_type V (check_header_level_drop_arms V h))

  unfoldable pub error_checks : Harness V.State → Harness V.State
  error_checks h =
      let h = check_rx_err_on_any_byte_drops_the_frame V h in
      let h = check_a_refused_frame_leaves_no_stale_word V h in
      check_rx_err_writes_before_on_and_after_the_flag V h

  unfoldable pub run : Harness V.State → ℕ × Harness V.State
  run h =
      let h = message_checks (announce_checks (reset_the_parser V h)) in
      let h = error_checks (check_the_drop_count_advanced V (drop_arms h)) in
      (exit_status h.tally, h)
