-- ===== src/Parser/Suite/Laws/Messages.antt =====
-- The comparisons of the checks of the event messages and of the drop arms.
use fpga_g_ptp.Base.{refl, true, false, for_range, for_each, suc, ℕ}
use fpga_g_ptp.Harness.Verilated.{Verilated}
use fpga_g_ptp.Wire.{Frame}
use fpga_g_ptp.Parser.Feed.{ParserIn, ParserOut, Harness}
use fpga_g_ptp.Parser.Expect.{drops}
use fpga_g_ptp.Parser.Expect.Laws.{Graded, Graded-start, Graded-same, gradings, block_gradings}
use fpga_g_ptp.Parser.Checks.FollowUp.{
  check_sync, check_follow_up_with_information_tlv, walk_probe, check_follow_up_tlv_walk_accepts,
  expect_fu_refused, refuse_fu, check_follow_up_tlv_walk_refuses, BadTlv, bad_tlv_arm,
  check_follow_up_minimum_and_tlv_arms,
}
use fpga_g_ptp.Parser.Checks.Arms.{
  check_pdelay_resp, feed_silent, check_header_level_drop_arms, foreign_payloads,
  header_only_controls, foreign_header_only, check_foreign_domain_is_refused_for_every_type,
  unlisted_arm, check_unlisted_message_types_are_refused,
}
use fpga_g_ptp.Parser.Checks.Minimum.{
  len_arm, check_message_length_minimum_per_type, padded_sync, check_a_padded_sync_is_accepted,
  check_pdelay_req_minimum_arms,
}

module _ (V : Verilated ParserIn ParserOut) {h c : Harness V.State} {n : ℕ} where
  walk_probe-Graded :
      (p : _)
      → Graded h c n
      → Graded h (walk_probe V p c) (suc (suc (suc (suc (suc (suc (suc (suc (suc (suc n))))))))))
  unfolding walk_probe for_each
  walk_probe-Graded p g = search (gradings) depth 40

  refuse_fu_early-Graded :
      (f : Frame) → Graded h c n → Graded h (refuse_fu V true f c) (suc (suc (suc n)))
  unfolding refuse_fu expect_fu_refused
  refuse_fu_early-Graded f g = search (gradings) depth 40

  refuse_fu_late-Graded :
      (f : Frame) → Graded h c n → Graded h (refuse_fu V false f c) (suc (suc n))
  unfolding refuse_fu expect_fu_refused
  refuse_fu_late-Graded f g = search (gradings) depth 40

  bad_tlv_arm-Graded :
      (t : BadTlv) → Graded h c n → Graded h (bad_tlv_arm V t c) (suc (suc (suc n)))
  unfolding bad_tlv_arm
  bad_tlv_arm-Graded t g = search (gradings) depth 40

module _ (V : Verilated ParserIn ParserOut) (h : Harness V.State) where
  pub sync-Graded : Graded h (check_sync V h) 5
  unfolding check_sync
  sync-Graded = search (gradings) depth 40

  pub follow_up-Graded : Graded h (check_follow_up_with_information_tlv V h) 4
  unfolding check_follow_up_with_information_tlv
  follow_up-Graded = search (gradings) depth 40

  pub walk_accepts-Graded : Graded h (check_follow_up_tlv_walk_accepts V h) 70
  unfolding check_follow_up_tlv_walk_accepts for_each
  walk_accepts-Graded = search (gradings, walk_probe-Graded) depth 40

  pub walk_refuses-Graded : Graded h (check_follow_up_tlv_walk_refuses V h) 34
  unfolding check_follow_up_tlv_walk_refuses for_range
  walk_refuses-Graded = search (gradings, refuse_fu_early-Graded, refuse_fu_late-Graded) depth 40

  pub pdelay_resp-Graded : Graded h (check_pdelay_resp V h) 5
  unfolding check_pdelay_resp
  pdelay_resp-Graded = search (gradings) depth 40

  pub header_arms-Graded : Graded h (check_header_level_drop_arms V h) 5
  unfolding check_header_level_drop_arms feed_silent
  header_arms-Graded =
      let start : Graded h (record h { drops0 = drops V h }) 0 =
        Graded-same h _ refl (Graded-start h) in
      search (gradings) depth 40

  pub foreign_domain-Graded : Graded h (check_foreign_domain_is_refused_for_every_type V h) 20
  unfolding check_foreign_domain_is_refused_for_every_type foreign_payloads header_only_controls
      foreign_header_only
  foreign_domain-Graded = search (gradings, block_gradings) depth 40

  pub fu_minimum-Graded : Graded h (check_follow_up_minimum_and_tlv_arms V h) 27
  unfolding check_follow_up_minimum_and_tlv_arms for_each
  fu_minimum-Graded = search (gradings, block_gradings, bad_tlv_arm-Graded) depth 40

  pub length_minimum-Graded : Graded h (check_message_length_minimum_per_type V h) 25
  unfolding check_message_length_minimum_per_type for_each len_arm
  length_minimum-Graded = search (gradings, block_gradings) depth 40

  pub padded_sync-Graded : Graded h (check_a_padded_sync_is_accepted V h) 16
  unfolding check_a_padded_sync_is_accepted for_each padded_sync
  padded_sync-Graded = search (gradings) depth 40

  pub pdreq_minimum-Graded : Graded h (check_pdelay_req_minimum_arms V h) 11
  unfolding check_pdelay_req_minimum_arms
  pdreq_minimum-Graded = search (gradings, block_gradings) depth 40

  pub unlisted-Graded : Graded h (check_unlisted_message_types_are_refused V h) 32
  unfolding check_unlisted_message_types_are_refused for_each unlisted_arm
  unlisted-Graded = search (gradings, block_gradings) depth 40
