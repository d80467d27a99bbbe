-- ===== src/Engine/Suite/Present.antt =====
-- tb/verilator/engine/sim_main.cpp, the phases of a grandmaster of priority1 255, whose gmPresent is
-- false.
use fpga_g_ptp.Base.{
  ℕ, ◌+◌, ◌%◌, Bool, true, false, not, ◌&&◌, [], ◌∷◌, ◌==◌, if◌then◌else◌, length, for_range,
  bit_and, bit_or, add_u64, to_nat,
}
use fpga_g_ptp.Harness.Verilated.{Verilated}
use fpga_g_ptp.Engine.Const.{our_cid, fl_present, fl_amgm, fl_syncok}
use fpga_g_ptp.Engine.Phc.{phc}
use fpga_g_ptp.Engine.Pdelay.Peer.{pd_normal}
use fpga_g_ptp.Engine.Ports.{EngineIn, EngineOut}
use fpga_g_ptp.Engine.Bench.{outs, run}
use fpga_g_ptp.Engine.Suite.{Suite, on_bench, run_svc, wait_flags}
use fpga_g_ptp.Engine.Suite.Phased.{Phased, on_suite}
use fpga_g_ptp.Engine.Suite.Send.{expect, send_announce, a_commit_since_names}
use fpga_g_ptp.Engine.Suite.Interval.{usable, stopped, srcs, s39_interval}

-- A grandmaster of the phases and the port that announces it.
pub record Announcer : Type 0 where
  pub p1 : ℕ
  pub gm : ℕ
  pub src : ℕ

abbrev pub g255 : Announcer
g255 = record { p1 = 255; gm = 0x0000000000000101; src = 0x0000000000000102 }

abbrev pub gp : Announcer
gp = record { p1 = 1; gm = 0x0089B0FFFE000001; src = 0x0089B0FFFE000002 }

-- That of the second phase.
abbrev pub g255_sync : Announcer
g255_sync = record { p1 = 255; gm = 0x0000000000000103; src = 0x0000000000000104 }

-- `fuel` is that of `service_pdelay`.
module _ (V : Verilated EngineIn EngineOut) (fuel : ℕ) where
  -- The Announce of sequenceId `seq` from the announcer, with the path of the two.
  unfoldable pub announce_of : Announcer → (seq : ℕ) → Suite V.State → Suite V.State
  announce_of a seq s =
      send_announce V fuel seq a.p1 a.gm 1 a.src (a.gm ∷ a.src ∷ []) (add_u64 (phc s.bench.phc) 100)
        false s

  -- The common start of the two phases.
  unfoldable pub from_mastership : Suite V.State → Suite V.State
  from_mastership s =
      on_bench (run V 200)
        (wait_flags V fuel fl_amgm fl_amgm 900000 (record s { pd_mode = pd_normal })).1

  -- The plane is a master of the grandmaster that no commit from `c0` on names.
  abbrev pub stays_master : (c0 : ℕ) → Suite V.State → Bool
  stays_master c0 s =
      not (a_commit_since_names c0 gp.gm s.bench.watch.commit_snaps)
      && (bit_and (outs V s.bench).pub_flags_o fl_amgm == fl_amgm)

  -- The flags under the mask are `want`, and the grandmaster is `gm`.
  abbrev pub defers_to : (gm mask want : ℕ) → Suite V.State → Bool
  defers_to gm mask want s =
      (bit_and (outs V s.bench).pub_flags_o mask == want) && ((outs V s.bench).pub_gm_id_o == gm)

  unfoldable pub age_only_while_a_grandmaster_is_present : Suite V.State → Suite V.State
  age_only_while_a_grandmaster_is_present s =
      let s = from_mastership s in
      let c0 = length s.bench.watch.commit_snaps in
      let s = announce_of gp 0x8B01 s in
      let s = expect (to_nat (stays_master c0 s)) 1 s in
      let s = announce_of g255 0x8B02 s in
      let s = expect (to_nat (defers_to g255.gm 3 fl_present s)) 1 s in
      let c0 = length s.bench.watch.commit_snaps in
      let s = for_range 4 0 (λ k c. announce_of g255 (0x8B03 + k) (run_svc V fuel 2000000 c)) s in
      let kept = not (a_commit_since_names c0 our_cid s.bench.watch.commit_snaps) in
      let s = expect (to_nat (kept && defers_to g255.gm 3 fl_present s)) 1 s in
      let c0 = length s.bench.watch.commit_snaps in
      let s = on_bench (run V 200) (announce_of gp 0x8B07 s) in
      let ours = (outs V s.bench).pub_gm_id_o == our_cid in
      expect (to_nat (stays_master c0 s && ours)) 1 s

  -- An interval of the second phase; `due` is when its Announce stands before the interval.
  unfoldable pub sync_round :
      (due : Bool) (seq : ℕ) (is_stop : Bool) → Phased V.State → Phased V.State
  sync_round due seq is_stop h =
      let h = if due then on_suite (announce_of g255_sync seq) h else h in
      if is_stop
      then s39_interval V fuel stopped 250000 false 1000 srcs h
      else s39_interval V fuel usable 250000 false 1000 g255_sync.src h

  -- The rounds of the first loop, whose Announces are its second and third: at `k` 3 and 11.
  unfoldable pub raise_sync_ok : Phased V.State → Phased V.State
  raise_sync_ok h =
      for_range 16 0 (λ k c. sync_round (k % 8 == 3) (if k == 3 then 0x8C02 else 0x8C03) false c) h

  -- The first half: usable Sync raises sync-ok.
  unfoldable pub elect_and_raise : Phased V.State → Phased V.State
  elect_and_raise h =
      let s = announce_of g255_sync 0x8C01 (from_mastership h.suite) in
      let elected = defers_to g255_sync.gm 3 fl_present s in
      let h = raise_sync_ok (record h { suite = s }) in
      let both = bit_or 3 fl_syncok in
      let raised = defers_to g255_sync.gm both (bit_or fl_present fl_syncok) h.suite in
      on_suite (expect (to_nat (elected && raised)) 1) h

  -- The eight intervals without Sync.
  unfoldable pub stop_sync : Phased V.State → Phased V.State
  stop_sync h = for_range 8 0 (λ k c. sync_round (k == 3) 0x8C04 true c) h

  -- The second half: the last pair, and Sync stops.
  unfoldable pub stop_and_clear : Phased V.State → Phased V.State
  stop_and_clear h =
      let c0 = length h.suite.bench.watch.commit_snaps in
      let h = s39_interval V fuel usable 4000 false 1000 g255_sync.src h in
      let (early, s) = wait_flags V fuel fl_syncok 0 700000 h.suite in
      let (fell, s) = wait_flags V fuel fl_syncok 0 60000 s in
      let h = stop_sync (record h { suite = s }) in
      let kept = not (a_commit_since_names c0 our_cid h.suite.bench.watch.commit_snaps) in
      let cleared = defers_to g255_sync.gm (bit_or 3 fl_syncok) fl_present h.suite in
      on_suite (expect (to_nat (not early && fell && kept && cleared)) 1) h

  unfoldable pub clear_sync_ok_when_sync_stops_without_a_grandmaster_present :
      Phased V.State → Phased V.State
  clear_sync_ok_when_sync_stops_without_a_grandmaster_present h = stop_and_clear (elect_and_raise h)
