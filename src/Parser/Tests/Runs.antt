-- ===== src/Parser/Tests/Runs.antt =====
-- A parser that passes the drop arms of the suite.
use fpga_g_ptp.Base.{u16, ◌≡◌, ◌+◌, refl, for_range, for_each, repeat}
use fpga_g_ptp.Wire.{put_u8, put_u16, put_u32, put_u48, put_u64}
use fpga_g_ptp.Harness.Tally.{grade, expect_eq}
use fpga_g_ptp.Parser.Frames.{fill, common, w0_of, put_bytes}
use fpga_g_ptp.Parser.Feed.{
  store, load, record_write, record_event, harness, eval_at, tick, feed_bytes, feed, feed_gap,
  reset_the_parser,
}
use fpga_g_ptp.Parser.Expect.{
  count, touch, expect, expect_word, expect_event, expect_seq, expect_silent, expect_absent,
  expect_size, expect_drops, expect_no_drop, expect_dropped, expect_unwritten,
}
use fpga_g_ptp.Parser.Checks.FollowUp.{fu_frame, bad_tlv_arm, check_follow_up_minimum_and_tlv_arms}
use fpga_g_ptp.Parser.Checks.Arms.{
  sync_of, pdresp_of, pdreq_of, signaling_of, domain_1_announce, zeros_behind, feed_silent,
  check_header_level_drop_arms, foreign_payloads, header_only_controls, foreign_header_only,
  check_foreign_domain_is_refused_for_every_type, unlisted_arm,
  check_unlisted_message_types_are_refused,
}
use fpga_g_ptp.Parser.Checks.Minimum.{
  minimum_frame, short_declared, pdreq_short, len_arm, check_message_length_minimum_per_type,
  padded_sync, check_a_padded_sync_is_accepted, check_pdelay_req_minimum_arms,
}
use fpga_g_ptp.Parser.Checks.Adjacent.{
  foreign_sync, two_drops, drop_then_good, good_then_good, not_a_frame,
  check_adjacent_refusals_are_each_counted, check_the_drop_count_advanced,
}
use fpga_g_ptp.Parser.Suite.{length_arms, drop_arms}
use fpga_g_ptp.Parser.Tests.Reference.{
  reference, number, field, type_of, end_of, code_of, least, walks, refuses_header, write_fixed,
  tlv_header, tlv_hop, tlv_info, tlv_end, walk, finish, at_byte, finish_later, edge,
}
use fpga_g_ptp.Parser.Expect.{drops}
use fpga_g_ptp.Parser.Suite.Drops.Total.{drop_arms_lem}

program : Unit {0}
unfolding put_u8 put_u16 put_u32 put_u48 put_u64 grade expect_eq fill common w0_of put_bytes store
    load record_write record_event harness eval_at tick feed_bytes feed feed_gap reset_the_parser
    count touch expect expect_word expect_event expect_seq expect_silent expect_absent expect_size
    expect_drops expect_no_drop expect_dropped expect_unwritten fu_frame bad_tlv_arm
    check_follow_up_minimum_and_tlv_arms sync_of pdresp_of pdreq_of signaling_of domain_1_announce
    zeros_behind feed_silent check_header_level_drop_arms foreign_payloads header_only_controls
    foreign_header_only check_foreign_domain_is_refused_for_every_type unlisted_arm
    check_unlisted_message_types_are_refused minimum_frame short_declared pdreq_short len_arm
    check_message_length_minimum_per_type padded_sync check_a_padded_sync_is_accepted
    check_pdelay_req_minimum_arms foreign_sync two_drops drop_then_good good_then_good not_a_frame
    check_adjacent_refusals_are_each_counted check_the_drop_count_advanced length_arms drop_arms
    number field type_of end_of code_of least walks refuses_header write_fixed tlv_header tlv_hop
    tlv_info tlv_end walk finish at_byte finish_later edge for_range for_each repeat
program = tt

drop_arms_pass :
    let start = reset_the_parser reference (harness reference) in
    (check_the_drop_count_advanced reference (drop_arms reference start)).tally.fails
    ≡ start.tally.fails
unfolding program
drop_arms_pass = refl

drop_arms_example :
    let start = reset_the_parser reference (harness reference) in
    let a = check_header_level_drop_arms reference start in
    let b = foreign_payloads reference a in
    let c = header_only_controls reference b in
    (u16 (drops reference b) ≡ u16 (drops reference a + 3))
    × (u16 (drops reference c) ≡ u16 (drops reference start + 8))
drop_arms_example =
    drop_arms_lem reference (reset_the_parser reference (harness reference)) drop_arms_pass
