-- ===== src/Engine/Suite/Boot.antt =====
-- tb/verilator/engine/sim_main.cpp, the phases up to the first exchange: the reset, the boot
-- Pdelay_Req, the publication before any peer, and a Pdelay_Req of our own identity.
pub mod Laws
use fpga_g_ptp.Base.{
  ℕ, ◌+◌, ◌-◌, ◌^◌, Bool, true, false, ◌&&◌, Option, none, some, List, [], ◌∷◌, ◌==◌, ltb,
  if◌then◌else◌, length, is_empty, drop, snoc, for_range, bit_and, bit_or, u16, u64_max, sub_u64,
  to_nat,
}
use fpga_g_ptp.Harness.Verilated.{Verilated}
use fpga_g_ptp.Wire.{Frame, put_u16, put_u64, put_ts}
use fpga_g_ptp.Wire.Read.{byte_at}
use fpga_g_ptp.Engine.Const.{our_cid, peer_cid, fl_ascap}
use fpga_g_ptp.Engine.Frames.{ptp}
use fpga_g_ptp.Engine.Face.{drive_result_face}
use fpga_g_ptp.Engine.Watch.{PubSnap, committed_path_is}
use fpga_g_ptp.Engine.Ports.{EngineIn, EngineOut}
use fpga_g_ptp.Engine.Bench.{Bench, outs, run, send_frame}
use fpga_g_ptp.Engine.Suite.{Suite, on_bench, is_type, wait_tx}
use fpga_g_ptp.Engine.Suite.Phased.{Phased, on_suite}
use fpga_g_ptp.Engine.Suite.Send.{expect, check_common, send_announce}

-- The hops of the path that is sent before the ROM has written our identity.
unfoldable pub deep_path : List ℕ
deep_path =
    snoc (for_range 7 1 (λ i path. snoc path (0x00C0010000000000 + i)) (0x00C001FFFE000001 ∷ []))
      our_cid

-- How many frames are of the type.
unfoldable pub type_count : (mtype : ℕ) → List Frame → ℕ
type_count mtype [] = 0
type_count mtype (f ∷ fs) = let n = type_count mtype fs in if is_type mtype f then n + 1 else n

-- The octets from `i` on, together.
unfoldable pub any_bits : (n i : ℕ) → Frame → ℕ
any_bits n i f = for_range n i (λ k z. bit_or z (byte_at f k)) 0

-- The loop over the commits before the first beat: their number and the first of them.
unfoldable pub boot_commits :
    (beat_cyc n : ℕ) (first : Option PubSnap) → List PubSnap → ℕ × Option PubSnap
boot_commits beat_cyc n first [] = (n, first)
boot_commits beat_cyc n first (s ∷ snaps) = elim (ltb s.cyc beat_cyc) [
  | true ↦ boot_commits beat_cyc (n + 1) (elim first [ none ↦ some s | some t ↦ some t ]) snaps
  | false ↦ boot_commits beat_cyc n first snaps
]

-- A Pdelay_Req, `q.u64(0); q.u16(0); q.ts(0); q.b.resize(68);`, which has its 68 octets.
unfoldable pub pdelay_req : (seq src : ℕ) → Frame
pdelay_req seq src = put_ts (put_u16 (put_u64 (ptp 0x2 seq 0 0x0000 20 src) 0) 0) 0

module _ (V : Verilated EngineIn EngineOut) where
  -- The ports and members in reset.
  unfoldable pub hold_in_reset : Bench V.State → Bench V.State
  hold_in_reset b =
      let face = record b.face { ts_offer = false } in
      let low = record b.ports {
        rst_n = false;
        rx_valid_i = false;
        rx_sof_i = false;
        rx_eof_i = false;
        rx_err_i = false;
        rx_data_i = 0;
        rx_ts_i = 0;
        tx_ready_i = true;
      } in
      let ports = record (drive_result_face face low) {
        tx_credit_i = true;
        port_enabled_i = true;
      } in
      run V 8 (record b { face = face; ports = ports })

  -- `boot_watch` and `rst_n` go high together, after the last clock in reset.
  unfoldable pub release_reset : Phased V.State → Phased V.State
  release_reset h =
      let b = h.suite.bench in
      let marks = record h.marks {
        cold_boot_mark = length b.watch.commit_snaps;
        cold_release_cyc = b.cyc;
      } in
      let released = record b {
        ports = record b.ports { rst_n = true };
        watch = record b.watch { boot_watch = true };
      } in
      record h { suite = record h.suite { bench = run V 2 released }; marks = marks }

  -- The over-cap Announce before the ROM init leg is refused. `fuel` is that of `service_pdelay`.
  unfoldable pub refuse_the_deep_announce : (fuel : ℕ) → Suite V.State → Suite V.State
  refuse_the_deep_announce fuel s =
      let d0 = u16 (outs V s.bench).dbg_rx_drop_o in
      let c0 = length s.bench.watch.commit_snaps in
      let s = send_announce V fuel 0xC001 1 0x00C001FFFE000001 8 peer_cid deep_path 1000 false s in
      let s = expect (length s.bench.watch.commit_snaps) c0 s in
      let s = expect (outs V s.bench).dbg_rx_drop_o (u16 (d0 + 1)) s in
      expect (outs V s.bench).pub_gm_id_o our_cid s

  unfoldable pub bring_the_engine_out_of_reset : (fuel : ℕ) → Phased V.State → Phased V.State
  bring_the_engine_out_of_reset fuel h =
      let s = on_bench hold_in_reset h.suite in
      let s = expect (to_nat (outs V s.bench).txts_ready_o) 0 s in
      let s = expect (to_nat (outs V s.bench).phc_slew_active_o) 0 s in
      on_suite (refuse_the_deep_announce fuel) (release_reset (record h { suite = s }))

  -- The checks of a request that was sent.
  unfoldable pub grade_request : Option (ℕ × Frame) → Suite V.State → Suite V.State
  grade_request none s = s
  grade_request (some (i, f)) s =
      if is_empty f then s else expect (any_bits 20 48 f) 0 (check_common f 0x2 0x0000 54 0x00 s)

  unfoldable pub check_the_boot_pdelay_request : (fuel : ℕ) → Phased V.State → Phased V.State
  check_the_boot_pdelay_request fuel h =
      let (req, s) = wait_tx V fuel (some 0x2) 3200000 0 h.suite in
      let s = on_bench (λ b. record b { watch = record b.watch { boot_watch = false } }) s in
      let marks = record h.marks {
        boot_beat_cyc = s.bench.cyc;
        our_req_idx = length s.bench.transmit.txf - 1;
        t1 = 1000000;
      } in
      let s = grade_request req s in
      record h { suite = expect (bit_and (outs V s.bench).pub_flags_o fl_ascap) 0 s; marks = marks }

  -- The seven checks, on the number of commits before the first beat and the first of them.
  unfoldable pub grade_boot :
      (release n : ℕ) (first : Option PubSnap) → Suite V.State → Suite V.State
  grade_boot release n first s =
      let w = s.bench.watch in
      let late : ℕ = elim first [ none ↦ u64_max | some c ↦ sub_u64 c.cyc release ] in
      let ours : Bool = elim first [
        | none ↦ false
        | some c ↦ (c.gm == our_cid) && committed_path_is c (our_cid ∷ [])
      ] in
      let flags : ℕ = elim first [ none ↦ 2 ^ 32 - 1 | some c ↦ c.flags ] in
      let present = s.bench.self_present in
      let s = expect w.boot_bad_path 0 (expect w.boot_bad_gm 0 s) in
      let s = expect n 1 (expect w.boot_bad_present 0 s) in
      expect flags present (expect (to_nat ours) 1 (expect late 0 s))

  unfoldable pub publish_thisclock_before_any_peer : Phased V.State → Phased V.State
  publish_thisclock_before_any_peer h =
      let since = drop h.marks.cold_boot_mark h.suite.bench.watch.commit_snaps in
      let (n, first) = boot_commits h.marks.boot_beat_cyc 0 none since in
      on_suite (grade_boot h.marks.cold_release_cyc n first) h

  unfoldable pub ignore_a_self_sourced_pdelay_request : Phased V.State → Phased V.State
  ignore_a_self_sourced_pdelay_request h =
      let b = h.suite.bench in
      let mark = length b.transmit.txf in
      let drops = u16 (outs V b).dbg_rx_drop_o in
      let flags = (outs V b).pub_flags_o in
      let rx_ts = sub_u64 h.marks.t1 1000 in
      let s =
        on_bench (λ b. run V 8000 (send_frame V (pdelay_req 0x9901 our_cid) rx_ts b)) h.suite in
      let s = expect (type_count 0x3 (drop mark s.bench.transmit.txf)) 0 s in
      let s = expect (length s.bench.transmit.txf) mark s in
      let s = expect (outs V s.bench).dbg_rx_drop_o drops s in
      record h { suite = expect (outs V s.bench).pub_flags_o flags s }
