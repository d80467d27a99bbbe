-- ===== src/Parser/Checks/Adjacent.antt =====
-- tb/verilator/parser/sim_main.cpp, frames without a gap between them:
-- `check_adjacent_refusals_are_each_counted`, and the total, `check_the_drop_count_advanced`.
use fpga_g_ptp.Base.{
  ℕ, true, false, List, [], ◌∷◌, ltb, if◌then◌else◌, length, get_or, repeat, for_range,
}
use fpga_g_ptp.Harness.Verilated.{Verilated}
use fpga_g_ptp.Wire.{Frame, put_u32, put_u48}
use fpga_g_ptp.Parser.Frames.{Hdr, default_hdr, common, w0_of}
use fpga_g_ptp.Parser.Feed.{ParserIn, ParserOut, Harness, drain_ticks, tick, feed_gap}
use fpga_g_ptp.Parser.Expect.{
  expect, expect_word, expect_event, drops, expect_drops, expect_no_drop,
}
use fpga_g_ptp.Parser.Checks.Arms.{master_hdr, sync_of}

-- The foreign-domain Sync that is dropped.
unfoldable pub foreign_sync : Frame
foreign_sync = put_u32 (put_u48 (common (record default_hdr { dom = 5 }) 10) 1) 2

abbrev pub runt : Frame
runt = 0x01 ∷ []

-- `ev_w0.size() > i ? ev_w0[i] : 0`
abbrev pub word_0 : (i : ℕ) → List ℕ → ℕ
word_0 i ev_w0 = if ltb i (length ev_w0) then get_or ev_w0 i 0 else 0

-- `rx_valid_i` low, both flags high, over a byte.
abbrev pub flags_without_valid : {S : Type 0} → Harness S → Harness S
flags_without_valid h = record h {
  ports = record h.ports { rx_valid_i = false; rx_sof_i = true; rx_eof_i = true; rx_data_i = 0x01 };
}

abbrev pub flags_down : {S : Type 0} → Harness S → Harness S
flags_down h = record h { ports = record h.ports { rx_sof_i = false; rx_eof_i = false } }

module _ (V : Verilated ParserIn ParserOut) where
  -- Two frames that are both refused.
  unfoldable pub two_drops : (a b : Frame) (gap : ℕ) → Harness V.State → Harness V.State
  two_drops a b gap h = expect_drops V (drops V h) 2 (feed_gap V a b gap h)

  -- A dropped frame and behind it with no gap a good one.
  unfoldable pub drop_then_good : (g : Hdr) → Harness V.State → Harness V.State
  drop_then_good g h =
      let c = expect_drops V (drops V h) 1 (feed_gap V foreign_sync (sync_of g) 0 h) in
      expect_word 0 (w0_of g) (expect_event 1 c)

  -- Two good frames with no gap.
  unfoldable pub good_then_good : (g g2 : Hdr) → Harness V.State → Harness V.State
  good_then_good g g2 h =
      let c = feed_gap V (sync_of g) (sync_of g2) 0 h in
      let c = expect_no_drop V (drops V h) (expect c.ev_count 2 c) in
      let c = expect (word_0 0 c.ev_w0) (w0_of g) c in expect (word_0 1 c.ev_w0) (w0_of g2) c

  -- `rx_sof_i` and `rx_eof_i` with `rx_valid_i` low.
  unfoldable pub not_a_frame : Harness V.State → Harness V.State
  not_a_frame h =
      let c = repeat 4 (tick V) (flags_without_valid h) in
      expect_no_drop V (drops V h) (repeat drain_ticks (tick V) (flags_down c))

  unfoldable pub check_adjacent_refusals_are_each_counted : Harness V.State → Harness V.State
  check_adjacent_refusals_are_each_counted h =
      let h =
        for_range 2 0 (λ gap c. two_drops runt foreign_sync gap (two_drops foreign_sync runt gap c))
          h in
      let g = master_hdr 0x0 0x0777 in
      not_a_frame (good_then_good g (record g { seq = 0x0778 }) (drop_then_good g h))

  unfoldable pub check_the_drop_count_advanced : Harness V.State → Harness V.State
  check_the_drop_count_advanced h = expect_drops V h.drops0 44 h
