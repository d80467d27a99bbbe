-- ===== src/Parser/Suite/Laws.antt =====
-- How many comparisons each check of the parser suite makes, and the whole run, for every parser.
pub mod Announce
pub mod Messages
pub mod Errors
use fpga_g_ptp.Base.{ℕ, ◌+◌, ◌≤◌, ◌≡◌, ◌↔◌, arith, repeat, refl, sym, ap}
use fpga_g_ptp.Harness.Verilated.{Verilated}
use fpga_g_ptp.Harness.Tally.{exit_status, exit_status_iff}
use fpga_g_ptp.Parser.Feed.{
  ParserIn, ParserOut, Harness, harness, tick, held_in_reset, reset_the_parser,
}
use fpga_g_ptp.Parser.Expect.Laws.{Graded, Graded-start, Graded-then, Graded-aside, repeat-Graded}
use fpga_g_ptp.Parser.Suite.{
  announce_checks, message_checks, length_arms, drop_arms, error_checks, run,
}
use Announce.*
use Messages.*
use Errors.*

module _ (V : Verilated ParserIn ParserOut) (h : Harness V.State) where
  announce_checks-Graded : Graded h (announce_checks V h) 146
  unfolding announce_checks
  announce_checks-Graded =
      Graded-then
        (Graded-then (Graded-then (two_hop-Graded V h) (declared_suffix-Graded V _))
          (Graded-then (unknown_tlvs-Graded V _) (incomplete_chain-Graded V _)))
        (Graded-then (Graded-then (duplicate_path-Graded V _) (path_boundaries-Graded V _))
          (Graded-then (path_count-Graded V _) (path_head-Graded V _)))

  message_checks-Graded : Graded h (message_checks V h) 118
  unfolding message_checks
  message_checks-Graded =
      Graded-then
        (Graded-then (Graded-then (sync-Graded V h) (follow_up-Graded V _))
          (Graded-then (walk_accepts-Graded V _) (walk_refuses-Graded V _)))
        (pdelay_resp-Graded V _)

  drop_arms-Graded : Graded h (drop_arms V h) 148
  unfolding drop_arms length_arms
  drop_arms-Graded =
      Graded-then (Graded-then (header_arms-Graded V h) (foreign_domain-Graded V _)) (
        Graded-then
          (Graded-then (fu_minimum-Graded V _)
            (Graded-then (length_minimum-Graded V _) (padded_sync-Graded V _)))
          (Graded-then (pdreq_minimum-Graded V _)
            (Graded-then (unlisted-Graded V _) (adjacent-Graded V _))))

  error_checks-Graded : Graded h (error_checks V h) 69
  unfolding error_checks
  error_checks-Graded =
      Graded-then (Graded-then (rx_err-Graded V h) (stale-Graded V _)) (rx_err_writes-Graded V _)

  reset-Graded : Graded h (reset_the_parser V h) 0
  unfolding reset_the_parser
  reset-Graded = repeat-Graded V 2 (
      Graded-aside (repeat 4 (tick V) (held_in_reset h)) _ refl
        (repeat-Graded V 4 (Graded-aside h (held_in_reset h) refl (Graded-start h))))

module _ (V : Verilated ParserIn ParserOut) (h : Harness V.State) where
  run-Graded : Graded h (run V h).1 482
  unfolding run
  run-Graded =
      Graded-then
        (Graded-then (reset-Graded V h)
          (Graded-then (announce_checks-Graded V _) (message_checks-Graded V _)))
        (Graded-then (drop_arms-Graded V _)
          (Graded-then (drop_count-Graded V _) (error_checks-Graded V _)))

-- Whatever the parser does, a run of the suite returns after 482 comparisons, no more of which fail
-- than there are, and its exit status is 0 exactly when none of them failed.
pub parser_run_lem :
    (V : Verilated ParserIn ParserOut)
    → let r = run V (harness V) in
      (r.1.tally.checks ≡ 482) × (r.1.tally.fails ≤ 482) × ((r.0 ≡ 0) ↔ (r.1.tally.fails ≡ 0))
unfolding run harness
parser_run_lem V =
    let g = run-Graded V (harness V) in
    (omega (arith, g.checks), omega (arith, g.bound), exit_status_iff (run V (harness V)).1.tally)
