-- ===== src/Parser/Suite/Drops/Arms.antt =====
-- The drops of each of the arms from the foreign domains to the adjacent frames, and their total.
use fpga_g_ptp.Base.{ℕ, suc, ◌∙◌, false, List, repeat, for_range, for_each}
use fpga_g_ptp.Harness.Verilated.{Verilated}
use fpga_g_ptp.Wire.{Frame}
use fpga_g_ptp.Parser.Frames.{Hdr, put_bytes, w0_of}
use fpga_g_ptp.Parser.Feed.{ParserIn, ParserOut, Harness, tick, feed, feed_gap, drain_ticks}
use fpga_g_ptp.Parser.Expect.{
  drops, expect, expect_word, expect_event, expect_seq, expect_silent, expect_absent, expect_size,
  expect_drops, expect_no_drop,
}
use fpga_g_ptp.Parser.Expect.Laws.{feed-aside, feed_gap-aside, repeat-aside}
use fpga_g_ptp.Parser.Checks.FollowUp.{
  BadTlv, fu_frame, bad_tlv_arm, check_follow_up_minimum_and_tlv_arms,
}
use fpga_g_ptp.Parser.Checks.Arms.{
  foreign_payloads, foreign_header_only, master_hdr, sync_of, unlisted_arm,
  check_unlisted_message_types_are_refused,
}
use fpga_g_ptp.Parser.Checks.Minimum.{
  len_arm, check_message_length_minimum_per_type, padded_sync, check_a_padded_sync_is_accepted,
  check_pdelay_req_minimum_arms,
}
use fpga_g_ptp.Parser.Checks.Adjacent.{
  word_0, foreign_sync, two_drops, drop_then_good, good_then_good, not_a_frame, flags_without_valid,
  flags_down, check_adjacent_refusals_are_each_counted,
}
use fpga_g_ptp.Parser.Suite.Drops.{
  Only, only, Dropped, Dropped-start, Dropped-then, drops-Dropped, no_drop-Dropped, Dropped-Only,
  expect_dropped-Dropped, expect_unwritten-Dropped,
}

module _ (V : Verilated ParserIn ParserOut) {h c : Harness V.State} {n : ℕ} where
  bad_tlv_arm-Dropped : (t : BadTlv) → Dropped V h c n → Dropped V h (bad_tlv_arm V t c) (suc n)
  unfolding bad_tlv_arm
  bad_tlv_arm-Dropped t =
      let f = fu_frame 0x0F50 t.tlvt t.tlvl t.org t.sub in
      let d = feed V f false c in
      Dropped-then V 1 (
        drops-Dropped V 1 c d (expect_absent 11 (expect_silent d)) (feed-aside V f false c)
          (search only))

  -- A frame that is accepted drops nothing, whatever else is compared.
  accepted :
      (f : Frame) (e : Harness V.State)
      → Only (feed V f false c) e
      → Dropped V h c n
      → Dropped V h (expect_no_drop V (drops V c) e) n
  accepted f e o =
      Dropped-then V 0 (no_drop-Dropped V c (feed V f false c) e (feed-aside V f false c) o)

  event-Dropped :
      (f : Frame) (code : ℕ)
      → Dropped V h c n
      → Dropped V h (expect_no_drop V (drops V c) (expect_event code (feed V f false c))) n
  event-Dropped f code = let d = feed V f false c in accepted f (expect_event code d) (search only)

  word-Dropped :
      (f : Frame) (code a w : ℕ)
      → Dropped V h c n
      → Dropped V h
          (expect_no_drop V (drops V c) (expect_word a w (expect_event code (feed V f false c))))
          n
  word-Dropped f code a w =
      let d = feed V f false c in accepted f (expect_word a w (expect_event code d)) (search only)

  sequence-Dropped :
      (f : Frame) (code q a w : ℕ)
      → Dropped V h c n
      → Dropped V h
          (expect_no_drop V
            (drops V c)
            (expect_word a w (expect_seq q (expect_event code (feed V f false c)))))
          n
  sequence-Dropped f code q a w =
      let d = feed V f false c in
      accepted f (expect_word a w (expect_seq q (expect_event code d))) (search only)

  words-Dropped :
      (f : Frame) (code q a w b v : ℕ)
      → Dropped V h c n
      → Dropped V h
          (expect_no_drop V (drops V c) (
            expect_word b v
              (expect_word a w (expect_seq q (expect_event code (feed V f false c))))))
          n
  words-Dropped f code q a w b v =
      let d = feed V f false c in
      accepted f (expect_word b v (expect_word a w (expect_seq q (expect_event code d))))
        (search only)

  padded_sync-Dropped : (pad : List ℕ) → Dropped V h c n → Dropped V h (padded_sync V pad c) n
  unfolding padded_sync
  padded_sync-Dropped pad =
      let f = put_bytes (sync_of (master_hdr 0x0 0x0A60)) pad in
      let d = feed V f false c in
      accepted f (expect_word 5 0x1DCD6500 (expect_size 6 (expect_event 1 d))) (search only)

  unlisted_arm-Dropped : (mt : ℕ) → Dropped V h c n → Dropped V h (unlisted_arm V mt c) (suc n)
  unfolding unlisted_arm
  unlisted_arm-Dropped mt g = expect_unwritten-Dropped V _ g

  two_drops-Dropped :
      (a b : Frame) (gap : ℕ) → Dropped V h c n → Dropped V h (two_drops V a b gap c) (suc (suc n))
  unfolding two_drops
  two_drops-Dropped a b gap =
      Dropped-then V 2
        (drops-Dropped V 2 c (feed_gap V a b gap c) _ (feed_gap-aside V a b gap c) (search only))

  drop_then_good-Dropped : (g : Hdr) → Dropped V h c n → Dropped V h (drop_then_good V g c) (suc n)
  unfolding drop_then_good
  drop_then_good-Dropped g =
      let fed = feed_gap V foreign_sync (sync_of g) 0 c in
      let d = expect_drops V (drops V c) 1 fed in
      Dropped-then V 1 (
        Dropped-Only V c d (expect_word 0 (w0_of g) (expect_event 1 d)) 1
          (drops-Dropped V 1 c fed fed (feed_gap-aside V foreign_sync (sync_of g) 0 c)
            (search only))
          (search only))

  good_then_good-Dropped : (g g2 : Hdr) → Dropped V h c n → Dropped V h (good_then_good V g g2 c) n
  unfolding good_then_good
  good_then_good-Dropped g g2 =
      let fed = feed_gap V (sync_of g) (sync_of g2) 0 c in
      let two = expect fed.ev_count 2 fed in
      let d = expect_no_drop V (drops V c) two in
      let e = expect (word_0 0 d.ev_w0) (w0_of g) d in
      Dropped-then V 0 (
        Dropped-Only V c d (expect (word_0 1 e.ev_w0) (w0_of g2) e) 0
          (no_drop-Dropped V c fed two (feed_gap-aside V (sync_of g) (sync_of g2) 0 c)
            (search only))
          (search only))

  not_a_frame-Dropped : Dropped V h c n → Dropped V h (not_a_frame V c) n
  unfolding not_a_frame
  not_a_frame-Dropped =
      let up = flags_without_valid c in
      let down = flags_down (repeat 4 (tick V) up) in
      Dropped-then V 0 (
        no_drop-Dropped V c (repeat drain_ticks (tick V) down) _
          (repeat-aside V drain_ticks down ∙ repeat-aside V 4 up) (search only))

ruleset arms = (
  Dropped-start, expect_dropped-Dropped, expect_unwritten-Dropped, bad_tlv_arm-Dropped,
  event-Dropped, word-Dropped, sequence-Dropped, words-Dropped, padded_sync-Dropped,
  unlisted_arm-Dropped, two_drops-Dropped, drop_then_good-Dropped, good_then_good-Dropped,
  not_a_frame-Dropped,
)

module _ (V : Verilated ParserIn ParserOut) (h : Harness V.State) where
  pub foreign_payloads-Dropped : Dropped V h (foreign_payloads V h) 3
  unfolding foreign_payloads
  foreign_payloads-Dropped = search (arms) depth 20

  pub foreign_header_only-Dropped : Dropped V h (foreign_header_only V h) 2
  unfolding foreign_header_only
  foreign_header_only-Dropped = search (arms) depth 20

  pub fu_minimum-Dropped : Dropped V h (check_follow_up_minimum_and_tlv_arms V h) 7
  unfolding check_follow_up_minimum_and_tlv_arms for_each
  fu_minimum-Dropped = search (arms) depth 20

  pub length_minimum-Dropped : Dropped V h (check_message_length_minimum_per_type V h) 5
  unfolding check_message_length_minimum_per_type for_each len_arm
  length_minimum-Dropped = search (arms) depth 20

  pub padded-Dropped : Dropped V h (check_a_padded_sync_is_accepted V h) 0
  unfolding check_a_padded_sync_is_accepted for_each
  padded-Dropped = search (arms) depth 20

  pub pdreq_minimum-Dropped : Dropped V h (check_pdelay_req_minimum_arms V h) 4
  unfolding check_pdelay_req_minimum_arms
  pdreq_minimum-Dropped = search (arms) depth 20

  pub unlisted-Dropped : Dropped V h (check_unlisted_message_types_are_refused V h) 9
  unfolding check_unlisted_message_types_are_refused for_each
  unlisted-Dropped = search (arms) depth 20

  pub adjacent-Dropped : Dropped V h (check_adjacent_refusals_are_each_counted V h) 9
  unfolding check_adjacent_refusals_are_each_counted for_range
  adjacent-Dropped = search (arms) depth 20
