-- ===== src/Gasket/Legs.antt =====
-- tb/verilator/gaskets/sim_main.cpp, the four legs of the loopback bench and `run_suite`.
use fpga_g_ptp.Base.{
  ℕ, zero, suc, ◌+◌, ◌*◌, ◌%◌, Bool, true, false, not, ◌&&◌, ◌||◌, Option, none, some, List, [],
  ◌∷◌, ◌==◌, leb, differ, u8, u64_max,
}
use fpga_g_ptp.Harness.Verilated.{Verilated}
use fpga_g_ptp.Harness.Tally.{grade, exit_status}
use fpga_g_ptp.Wire.{Frame}
use fpga_g_ptp.Gasket.Clock.{GasketIn, GasketOut, Bench, outs, tick, run}
use fpga_g_ptp.Gasket.Queue.{Popped, mk_frame, push_frame, pop_frame}

-- `got == f` of two byte vectors.
unfoldable pub same_frame : Frame → Frame → Bool
same_frame [] [] = true
same_frame [] (y ∷ ys) = false
same_frame (x ∷ xs) [] = false
same_frame (x ∷ xs) (y ∷ ys) = x == y && same_frame xs ys

-- What `pop_frame` leaves in `out` and `err`, which start as `before`, and whether it returns true.
abbrev pub after_pop : (before : Popped) → Option Popped → Popped
after_pop before none = before
after_pop before (some popped) = popped

abbrev pub is_delivered : Option Popped → Bool
is_delivered none = false
is_delivered (some popped) = true

abbrev pub nothing : Popped
nothing = record { out = []; err = false }

module _ (V : Verilated GasketIn GasketOut) where
  unfoldable pub check : Bool → Bench V.State → Bench V.State
  unfolding grade
  check ok b = record b { tally = grade ok b.tally }

  unfoldable pub bring_the_gaskets_out_of_reset : Bench V.State → Bench V.State
  unfolding run
  bring_the_gaskets_out_of_reset b =
      let held = record b {
        ports = record b.ports {
          rst_n = false;
          sys_clk_i = false;
          mii_clk_i = false;
          tx_valid_i = false;
          tx_data_i = 0;
          tx_sof_i = false;
          tx_eof_i = false;
          corrupt_i = 0;
        };
      } in
      let c = run V 32 held in run V 32 (record c { ports = record c.ports { rst_n = true } })

  -- One size of the sweep.
  unfoldable pub loop_back_size : (size : ℕ) → Bench V.State → Bench V.State
  unfolding mk_frame push_frame pop_frame same_frame check run
  loop_back_size size b =
      let f = mk_frame size (u8 (0x30 + size)) in
      let tgl_tx = (outs V b).tx_sfd_tgl_o in
      let tgl_rx = (outs V b).rx_sfd_tgl_o in
      let popped = pop_frame V 40000 (push_frame V f b) in
      let got = after_pop nothing popped.0 in
      let c = run V 400 (
        check (not got.err)
          (check (same_frame got.out f) (check (is_delivered popped.0) popped.1))) in
      let o = outs V c in
      let d = check (differ o.rx_sfd_tgl_o tgl_rx) (check (differ o.tx_sfd_tgl_o tgl_tx) c) in
      record d { nf = d.nf + 1 }

  unfoldable pub loop_back_sizes : List ℕ → Bench V.State → Bench V.State
  unfolding loop_back_size
  loop_back_sizes [] b = b
  loop_back_sizes (size ∷ sizes) b = loop_back_sizes sizes (loop_back_size size b)

  abbrev pub sizes : List ℕ
  sizes = 60 ∷ 61 ∷ 64 ∷ 72 ∷ 94 ∷ 128 ∷ []

  unfoldable pub loop_back_the_size_range_byte_exact : Bench V.State → Bench V.State
  unfolding loop_back_sizes check
  loop_back_the_size_range_byte_exact b =
      let c = loop_back_sizes sizes b in
      let o = outs V c in check (o.crc_bad_o == 0) (check (o.tx_cnt_o == c.nf) c)

  abbrev pub burst_frame : (k : ℕ) → Frame
  burst_frame k = mk_frame (64 + k % 5 * 8) (u8 (0x80 + k))

  -- The frames `k`, `k + 1`, ... of the burst, `n` of them.
  unfoldable pub push_burst : (n k : ℕ) → Bench V.State → Bench V.State
  unfolding push_frame
  push_burst zero k b = b
  push_burst (suc n) k b = push_burst n (k + 1) (push_frame V (burst_frame k) b)

  unfoldable pub pop_burst : (n k : ℕ) → Bench V.State → Bench V.State
  unfolding pop_frame same_frame check
  pop_burst zero k b = b
  pop_burst (suc n) k b =
      let popped = pop_frame V 60000 b in
      pop_burst n (k + 1) (
        check (same_frame (after_pop nothing popped.0).out (burst_frame k))
          (check (is_delivered popped.0) popped.1))

  unfoldable pub hold_the_interframe_gap_across_twenty_frames : Bench V.State → Bench V.State
  unfolding push_burst pop_burst check
  hold_the_interframe_gap_across_twenty_frames b =
      let c =
        pop_burst 20 0 (push_burst 20 0 (record b { gap = record b.gap { min_gap = u64_max } })) in
      check (leb 24 c.gap.min_gap) (check ((outs V c).tx_cnt_o == c.nf + 20) c)

  -- `while (n++ < 60000)`, up to the falling edge of the enable.
  unfoldable pub await_gap : (n : ℕ) (was : Bool) → Bench V.State → Bench V.State
  unfolding tick
  await_gap zero was b = b
  await_gap (suc n) was b = elim (outs V b).mii_en_o [
    | true ↦ await_gap n true (tick V b)
    | false ↦ elim was [ true ↦ b | false ↦ await_gap n false (tick V b) ]
  ]

  unfoldable pub start_a_frame_that_parks_the_fifo_at_the_wedge_level :
      Bench V.State → Bench V.State
  unfolding mk_frame push_frame pop_frame await_gap same_frame check
  start_a_frame_that_parks_the_fifo_at_the_wedge_level b =
      let fa = mk_frame 72 0x11 in
      let fb = mk_frame 94 0x22 in
      let a = pop_frame V 60000 (push_frame V fb (await_gap 60000 false (push_frame V fa b))) in
      let got_a = after_pop nothing a.0 in
      let c = check (same_frame got_a.out fa) (check (is_delivered a.0) a.1) in
      let d = pop_frame V 90000 c in
      check (same_frame (after_pop got_a d.0).out fb) (check (is_delivered d.0) d.1)

  -- `while (dut->tx_sfd_tgl_o == tgl && n++ < 40000) tick();`
  unfoldable pub await_sfd : (n : ℕ) (tgl : Bool) → Bench V.State → Bench V.State
  unfolding tick
  await_sfd zero tgl b = b
  await_sfd (suc n) tgl b = elim (differ (outs V b).tx_sfd_tgl_o tgl) [
    | true ↦ b
    | false ↦ await_sfd n tgl (tick V b)
  ]

  abbrev pub corrupt : ℕ → Bench V.State → Bench V.State
  corrupt mask b = record b { ports = record b.ports { corrupt_i = mask } }

  unfoldable pub fail_fcs_on_a_corrupted_frame : Bench V.State → Bench V.State
  unfolding mk_frame push_frame pop_frame await_sfd check run
  fail_fcs_on_a_corrupted_frame b =
      let bad0 = (outs V b).crc_bad_o in
      let tgl = (outs V b).tx_sfd_tgl_o in
      let body = await_sfd 40000 tgl (push_frame V (mk_frame 64 0x55) (corrupt 0 b)) in
      let popped = pop_frame V 60000 (corrupt 0 (run V 16 (corrupt 0xF (run V 40 body)))) in
      let got = after_pop nothing popped.0 in
      let c = run V 2000 (check (not (is_delivered popped.0) || got.err) popped.1) in
      check ((outs V c).crc_bad_o == bad0 + 1) c

  -- The exit status of the suite.
  unfoldable pub run_suite : Bench V.State → ℕ × Bench V.State
  unfolding bring_the_gaskets_out_of_reset loop_back_the_size_range_byte_exact
      hold_the_interframe_gap_across_twenty_frames
      start_a_frame_that_parks_the_fifo_at_the_wedge_level fail_fcs_on_a_corrupted_frame check
  run_suite b =
      let c = fail_fcs_on_a_corrupted_frame (
        start_a_frame_that_parks_the_fifo_at_the_wedge_level (
          hold_the_interframe_gap_across_twenty_frames
            (loop_back_the_size_range_byte_exact (bring_the_gaskets_out_of_reset b)))) in
      let d = check (c.push_timeouts == 0) c in (exit_status d.tally, d)
