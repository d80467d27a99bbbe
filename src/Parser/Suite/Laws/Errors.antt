-- ===== src/Parser/Suite/Laws/Errors.antt =====
-- The comparisons of the checks of adjacent frames, of `rx_err_i` and of stale words.
use fpga_g_ptp.Base.{
  ℕ, suc, Bool, true, ◌-◌, refl, ◌∙◌, ◌≡◌, [], ◌∷◌, for_range_inv, for_each_inv, is_empty, repeat,
  length, false, for_range, for_each,
}
use fpga_g_ptp.Harness.Verilated.{Verilated}
use fpga_g_ptp.Wire.{Frame}
use fpga_g_ptp.Parser.Feed.{ParserIn, ParserOut, Harness, at_byte, cleared, tick}
use fpga_g_ptp.Parser.Expect.Laws.{
  Graded, Graded-same, aside, Graded-aside, gradings, repeat-Graded, feed_err-aside, tick-aside,
  expect_no_drop-Graded, expect_event-Graded,
}
use fpga_g_ptp.Parser.Checks.Adjacent.{
  two_drops, drop_then_good, good_then_good, not_a_frame, flags_without_valid,
  check_adjacent_refusals_are_each_counted, check_the_drop_count_advanced,
}
use fpga_g_ptp.Parser.Checks.Errors.{
  Sweep, no_sweep, ErrArm, rx_err_arms, flag_at, sweep, grade_sweep, err_arm, flag_the_gap,
  feed_with_flagged_gaps, flagged_gaps, check_rx_err_on_any_byte_drops_the_frame, split_arm,
  check_rx_err_writes_before_on_and_after_the_flag, err_sync,
}
use fpga_g_ptp.Parser.Checks.Stale.{
  Salted, grade_pair, grade_pairs, check_a_refused_frame_leaves_no_stale_word,
}

module _ (V : Verilated ParserIn ParserOut) where
  -- A sweep grades nothing on the way.
  flag_at-aside :
      (wraps : Bool) (f : Frame) (p : ℕ) (x : Sweep × Harness V.State)
      → aside (flag_at V wraps f p x).1 ≡ aside x.1
  unfolding flag_at
  flag_at-aside wraps f p (s, h) = feed_err-aside V f p p h

  sweep-aside : (f : Frame) (h : Harness V.State) → aside (sweep V f h).1 ≡ aside h
  unfolding sweep
  sweep-aside f h =
      for_range_inv (λ x. aside x.1 ≡ aside h) (flag_at V true f)
        (λ p x e. flag_at-aside true f p x ∙ e) (length f) 0 (no_sweep, h) refl

grade_sweep-Graded :
    (V : Verilated ParserIn ParserOut) {h : Harness V.State} {n : ℕ} (of : ℕ)
    (s : Sweep × Harness V.State)
    → Graded h s.1 n
    → Graded h (grade_sweep V of s) (suc (suc (suc n)))
unfolding grade_sweep
grade_sweep-Graded V of (s, d) g = search (gradings) depth 40

module _ (V : Verilated ParserIn ParserOut) {h c : Harness V.State} {n : ℕ} where
  not_a_frame-Graded : Graded h c n → Graded h (not_a_frame V c) (suc n)
  unfolding not_a_frame
  not_a_frame-Graded g = expect_no_drop-Graded V _ (
      repeat-Graded V _ (
        Graded-same (repeat 4 (tick V) (flags_without_valid c)) _ refl
          (repeat-Graded V _ (Graded-same c (flags_without_valid c) refl g))))

  err_arm-Graded :
      (a : ErrArm)
      → Graded h c n
      → Graded h (err_arm V a c) (suc (suc (suc (suc (suc (suc (suc n)))))))
  unfolding err_arm
  err_arm-Graded a g =
      let swept = Graded-aside c (sweep V a.frame c).1 (sweep-aside V a.frame c) g in
      search (gradings, grade_sweep-Graded) depth 40

  split_arm-Graded : (a : ErrArm) → Graded h c n → Graded h (split_arm V a c) (suc (suc (suc n)))
  unfolding split_arm
  split_arm-Graded a g = grade_sweep-Graded V 3 _ (
      Graded-aside c _
        (for_each_inv (λ x. aside x.1 ≡ aside c) (flag_at V false a.frame)
          (λ p x e. flag_at-aside V false a.frame p x ∙ e) (0 ∷ 29 ∷ (length a.frame - 1) ∷ [])
          (no_sweep, c) refl)
        g)

  grade_pair-Graded :
      (r v : Salted) → Graded h c n → Graded h (grade_pair V r v c) (suc (suc (suc n)))
  unfolding grade_pair
  grade_pair-Graded r v g = search (gradings) depth 40

module _ (V : Verilated ParserIn ParserOut) where
  gaps-aside :
      (first : Bool) (f : Frame) (h : Harness V.State)
      → aside (feed_with_flagged_gaps V first f h) ≡ aside h
  unfolding feed_with_flagged_gaps
  gaps-aside first [] h = refl
  gaps-aside true (x ∷ xs) h =
      let at = at_byte x true (is_empty xs) false h in
      gaps-aside false xs (tick V at) ∙ tick-aside V at
  gaps-aside false (x ∷ xs) h =
      let at = at_byte x false (is_empty xs) false (flag_the_gap V h) in
      gaps-aside false xs (tick V at) ∙ (tick-aside V at ∙ tick-aside V _)

module _ (V : Verilated ParserIn ParserOut) (h : Harness V.State) where
  pub adjacent-Graded : Graded h (check_adjacent_refusals_are_each_counted V h) 12
  unfolding check_adjacent_refusals_are_each_counted for_range two_drops drop_then_good
      good_then_good
  adjacent-Graded = search (gradings, not_a_frame-Graded) depth 40

  pub drop_count-Graded : Graded h (check_the_drop_count_advanced V h) 1
  unfolding check_the_drop_count_advanced
  drop_count-Graded = search (gradings) depth 40

  flagged_gaps-Graded :
      {c : Harness V.State} {n : ℕ} → Graded h c n → Graded h (flagged_gaps V c) (suc (suc n))
  unfolding flagged_gaps
  flagged_gaps-Graded {c} g = expect_no_drop-Graded V _ (
      expect_event-Graded _
        (repeat-Graded V _ (Graded-aside c _ (gaps-aside V true err_sync (cleared c)) g)))

  pub rx_err-Graded : Graded h (check_rx_err_on_any_byte_drops_the_frame V h) 30
  unfolding check_rx_err_on_any_byte_drops_the_frame rx_err_arms for_each
  rx_err-Graded = search (gradings, err_arm-Graded, flagged_gaps-Graded) depth 40

  pub rx_err_writes-Graded : Graded h (check_rx_err_writes_before_on_and_after_the_flag V h) 15
  unfolding check_rx_err_writes_before_on_and_after_the_flag rx_err_arms for_each
  rx_err_writes-Graded = search (gradings, split_arm-Graded) depth 40

  pub stale-Graded : Graded h (check_a_refused_frame_leaves_no_stale_word V h) 24
  unfolding check_a_refused_frame_leaves_no_stale_word grade_pairs
  stale-Graded = search (gradings, grade_pair-Graded) depth 40
