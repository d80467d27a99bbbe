-- ===== src/Parser/Checks/Errors.antt =====
-- tb/verilator/parser/sim_main.cpp, `rx_err_i` on a frame: `rx_err_arms`,
-- `check_rx_err_on_any_byte_drops_the_frame` and
-- `check_rx_err_writes_before_on_and_after_the_flag`.
pub mod Laws
use fpga_g_ptp.Base.{
  ℕ, zero, suc, ◌+◌, ◌-◌, ◌%◌, ◌^◌, Bool, true, false, not, ◌&&◌, List, [], ◌∷◌, ◌++◌, ◌==◌, to_nat,
  if◌then◌else◌, u16, length, is_empty, snoc, repeat, for_range, for_each,
}
use fpga_g_ptp.Harness.Verilated.{Verilated}
use fpga_g_ptp.Wire.{Frame}
use fpga_g_ptp.Parser.Frames.{Hdr, announce_frame}
use fpga_g_ptp.Parser.Feed.{
  ParserIn, ParserOut, Harness, cleared, at_byte, released, drain_ticks, tick, feed, feed_err,
}
use fpga_g_ptp.Parser.Expect.{
  agm, asrc, expect, expect_event, drops, expect_drops, expect_no_drop, block,
}
use fpga_g_ptp.Parser.Checks.FollowUp.{fu_frame, whole_fu}
use fpga_g_ptp.Parser.Checks.Arms.{peer_hdr, master_hdr, sync_of, pdresp_of, pdreq_of}

pub record ErrArm : Type 0 where
  pub frame : Frame
  pub ev : ℕ

unfoldable pub err_sync : Frame
err_sync = sync_of (master_hdr 0x0 0x3500)

unfoldable pub rx_err_arms : List ErrArm
rx_err_arms =
    record { frame = err_sync; ev = 1 }
    ∷ record { frame = whole_fu 0x3508; ev = 2 }
    ∷ record { frame = pdreq_of (peer_hdr 0x2 0x3502); ev = 4 }
    ∷ record { frame = pdresp_of (record (peer_hdr 0x3 0x3503) { flags = 0x0200 }); ev = 5 }
    ∷ []

-- What the sweep counts, and the positions it prints.
pub record Sweep : Type 0 where
  pub dropped : ℕ
  pub silent : ℕ
  pub unwritten : ℕ
  pub missed : List ℕ

abbrev pub no_sweep : Sweep
no_sweep = record { dropped = 0; silent = 0; unwritten = 0; missed = [] }

-- One position, from what was seen at it: one drop, the events, the writes after the flag.
unfoldable pub note : (p : ℕ) (one : Bool) (events after : ℕ) → Sweep → Sweep
note p one events after s = record {
  dropped = s.dropped + to_nat one;
  silent = s.silent + to_nat (events == 0);
  unwritten = s.unwritten + to_nat (after == 0);
  missed = if one && (events == 0) && (after == 0) then s.missed else snoc s.missed p;
}

module _ (V : Verilated ParserIn ParserOut) where
  -- `rx_err_i` on byte `p` alone. `wraps` is whether the drop count is compared modulo 2^16.
  unfoldable pub flag_at :
      (wraps : Bool) (f : Frame) (p : ℕ) → Sweep × Harness V.State → Sweep × Harness V.State
  flag_at wraps f p (s, h) =
      let c = feed_err V f p p h in
      let exp = if wraps then u16 (drops V h + 1) else drops V h + 1 in
      (note p (drops V c == exp) c.ev_count c.writes_after_err s, c)

  -- Every byte of the frame.
  unfoldable pub sweep : Frame → Harness V.State → Sweep × Harness V.State
  sweep f h = for_range (length f) 0 (flag_at true f) (no_sweep, h)

  -- The three comparisons on a sweep.
  unfoldable pub grade_sweep : (of : ℕ) → Sweep × Harness V.State → Harness V.State
  grade_sweep of (s, h) = expect s.unwritten of (expect s.silent of (expect s.dropped of h))

  unfoldable pub err_arm : ErrArm → Harness V.State → Harness V.State
  err_arm a h =
      let h = grade_sweep (length a.frame) (sweep a.frame h) in
      let c = feed_err V a.frame 20 (length a.frame - 1) h in
      let c = expect c.ev_count 0 (expect_drops V (drops V h) 1 c) in
      block V (λ d0 d. expect_no_drop V d0 (expect_event a.ev d)) a.frame c

  -- A gap cycle that carries the flag.
  abbrev pub flag_the_gap : Harness V.State → Harness V.State
  flag_the_gap h =
      let low = released h in tick V (record low { ports = record low.ports { rx_err_i = true } })

  unfoldable pub feed_with_flagged_gaps : (first : Bool) → Frame → Harness V.State → Harness V.State
  feed_with_flagged_gaps first [] h = h
  feed_with_flagged_gaps first (x ∷ xs) h =
      let before = if first then h else flag_the_gap h in
      feed_with_flagged_gaps false xs (tick V (at_byte x first (is_empty xs) false before))

  unfoldable pub flagged_gaps : Harness V.State → Harness V.State
  flagged_gaps h =
      let fed = feed_with_flagged_gaps true err_sync (cleared h) in
      expect_no_drop V (drops V h) (expect_event 1 (repeat drain_ticks (tick V) (released fed)))

  unfoldable pub check_rx_err_on_any_byte_drops_the_frame : Harness V.State → Harness V.State
  check_rx_err_on_any_byte_drops_the_frame h = flagged_gaps (for_each err_arm rx_err_arms h)

  -- The first byte, byte 29 and the last.
  unfoldable pub split_arm : ErrArm → Harness V.State → Harness V.State
  split_arm a h =
      grade_sweep 3
        (for_each (flag_at false a.frame) (0 ∷ 29 ∷ (length a.frame - 1) ∷ []) (no_sweep, h))

  unfoldable pub check_rx_err_writes_before_on_and_after_the_flag :
      Harness V.State → Harness V.State
  check_rx_err_writes_before_on_and_after_the_flag =
      for_each split_arm
        (snoc rx_err_arms (record { frame = announce_frame 0x350B agm 0 asrc []; ev = 3 }))
