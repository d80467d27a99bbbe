-- ===== src/Engine/Suite/Pass/Laws.antt =====
-- tb/verilator/engine/sim_main.cpp, the fourth pass: what its verdict means.
use fpga_g_ptp.Base.{
  ℕ, suc, more, ◌≤◌, ◌<◌, ◌≡◌, refl, Bool, true, false, none, some, not, ◌&&◌, All, arith, ◌==◌,
  ==_iff, ltb, to_nat, drop, Bool-cases, ◌⊎◌, inl, inr,
}
use fpga_g_ptp.Harness.Verilated.{Verilated}
use fpga_g_ptp.Harness.Tally.{Tally, exit_status, expect_eq, grade_passes}
use fpga_g_ptp.Engine.Ports.{EngineIn, EngineOut}
use fpga_g_ptp.Engine.Bench.{bench}
use fpga_g_ptp.Engine.Suite.{Suite}
use fpga_g_ptp.Engine.Suite.Phased.{Phased, phased, on_suite}
use fpga_g_ptp.Engine.Suite.Send.{expect}
use fpga_g_ptp.Engine.Suite.Boot.{
  bring_the_engine_out_of_reset, check_the_boot_pdelay_request, publish_thisclock_before_any_peer,
}
use fpga_g_ptp.Engine.Suite.Boot.Laws.{Boots, before, publish_thisclock-Boots}
use fpga_g_ptp.Engine.Suite.Present.{clear_sync_ok_when_sync_stops_without_a_grandmaster_present}
use fpga_g_ptp.Engine.Suite.Record.{
  self_bad, handovers, peer_paths, announces, clock_accuracy, hold_every_committed_path_coherent,
  keep_sync_ok_in_every_master_cycle, end_every_peer_path_with_thisclock,
  announce_the_image_clock_accuracy,
}
use fpga_g_ptp.Engine.Suite.Record.Laws.{Coherent, commits-Coherent}
use fpga_g_ptp.Engine.Suite.Record.Handovers.{
  HandOvers, handovers-HandOvers, AnnouncesQuality, announces-AnnouncesQuality,
}
use fpga_g_ptp.Engine.Suite.Graded.{Graded, Graded-start, expect-Graded}
use fpga_g_ptp.Engine.Suite.Graded.Peer.{txts_idx-Graded}
use fpga_g_ptp.Engine.Suite.Graded.Phases.{
  bring-Graded, request-Graded, publish-Graded, capable-Graded, master-Graded, drop-Graded,
}
use fpga_g_ptp.Engine.Suite.Graded.Present.{age-Graded, clear-Graded}
use fpga_g_ptp.Engine.Suite.Pass.{
  grade_the_record, boot_phases, return_boot_stamp, peer_phases, run_the_self_publication_phases,
  self_publication_pass, pass_status,
}

-- What the record of a run is where none of the last phases' checks fails.
pub record IsCoherent {S : Type 0} (s : Suite S) : Type 0 where
  pub paths : All Coherent s.bench.watch.commit_snaps
  pub handed : HandOvers s.bench.watch.commit_snaps
  pub mastered : 0 < s.bench.watch.master_cycles
  pub synced : s.bench.watch.master_unsynced_cycles ≡ 0
  pub quality : All (AnnouncesQuality (clock_accuracy s.bench.self_present)) s.bench.transmit.txf

second : (a b : Bool) → to_nat (not a && b) ≡ 1 → b ≡ true
second a b e = ground arith

positive : (n : ℕ) → to_nat (ltb 0 n) ≡ 1 → 0 < n
positive n e = ground arith

module _ {S : Type 0} where
  -- A check after which nothing has failed.
  clean :
      (got exp : ℕ) (s : Suite S)
      → (expect got exp s).bench.tally.fails ≡ 0
      → (got ≡ exp) × (s.bench.tally.fails ≡ 0)
  unfolding expect expect_eq
  clean got exp s e =
      let (same, kept) = grade_passes (got == exp) s.bench.tally e in
      ((==_iff got exp).0 same, kept)

  hold_clean :
      (s : Suite S)
      → (hold_every_committed_path_coherent s).bench.tally.fails ≡ 0
      → (self_bad s.bench.watch.commit_snaps ≡ 0) × (s.bench.tally.fails ≡ 0)
  unfolding hold_every_committed_path_coherent
  hold_clean s e = clean _ 0 s e

  keep_clean :
      (s : Suite S)
      → (keep_sync_ok_in_every_master_cycle s).bench.tally.fails ≡ 0
      → (0 < s.bench.watch.master_cycles)
        × (s.bench.watch.master_unsynced_cycles ≡ 0)
        × ((handovers s.bench.watch.commit_snaps).bad ≡ 0)
        × (s.bench.tally.fails ≡ 0)
  unfolding keep_sync_ok_in_every_master_cycle
  keep_clean s e =
      let w = s.bench.watch in
      let g = handovers w.commit_snaps in
      let mastered = expect (to_nat (ltb 0 w.master_cycles)) 1 s in
      let synced = expect w.master_unsynced_cycles 0 mastered in
      let (bad, e3) = clean g.bad 0 (expect (to_nat (ltb 0 g.graded)) 1 synced) e in
      let (graded, e2) = clean (to_nat (ltb 0 g.graded)) 1 synced e3 in
      let (unsynced, e1) = clean w.master_unsynced_cycles 0 mastered e2 in
      let (cycles, e0) = clean (to_nat (ltb 0 w.master_cycles)) 1 s e1 in
      (positive w.master_cycles cycles, unsynced, bad, e0)

  end_clean :
      (s : Suite S)
      → (end_every_peer_path_with_thisclock s).bench.tally.fails ≡ 0
      → ((peer_paths s.bench.watch.commit_snaps).bad ≡ 0) × (s.bench.tally.fails ≡ 0)
  unfolding end_every_peer_path_with_thisclock
  end_clean s e =
      let g = peer_paths s.bench.watch.commit_snaps in
      let (bad, e1) = clean g.bad 0 (expect (to_nat (ltb 0 g.graded)) 1 s) e in
      (bad, (clean (to_nat (ltb 0 g.graded)) 1 s e1).1)

  announce_clean :
      (s : Suite S)
      → (announce_the_image_clock_accuracy s).bench.tally.fails ≡ 0
      → ((announces (clock_accuracy s.bench.self_present) s.bench.transmit.txf).bad ≡ 0)
        × (s.bench.tally.fails ≡ 0)
  unfolding announce_the_image_clock_accuracy
  announce_clean s e =
      let g = announces (clock_accuracy s.bench.self_present) s.bench.transmit.txf in
      let (both, e0) = clean (to_nat (not (g.graded == 0) && (g.bad == 0))) 1 s e in
      ((==_iff g.bad 0).0 (second (g.graded == 0) (g.bad == 0) both), e0)

  -- If nothing has failed after the four last phases, then nothing had failed before them, and the
  -- record that they grade is coherent: every commit that names us carries exactly our path, the path
  -- of every other commit has us at its end and nowhere else or is full with eight others, a commit of a
  -- peer right after one of a master has both flags low, there were master cycles and each had
  -- sync-ok, and every transmitted Announce of at least 66 octets has the clock quality of the image.
  pub grade_the_record-IsCoherent :
      (s : Suite S)
      → (grade_the_record s).bench.tally.fails ≡ 0
      → IsCoherent s × (s.bench.tally.fails ≡ 0)
  unfolding grade_the_record hold_every_committed_path_coherent keep_sync_ok_in_every_master_cycle
      end_every_peer_path_with_thisclock expect
  grade_the_record-IsCoherent s e =
      let held = hold_every_committed_path_coherent s in
      let kept = keep_sync_ok_in_every_master_cycle held in
      let (quality, e3) = announce_clean (end_every_peer_path_with_thisclock kept) e in
      let (peers, e2) = end_clean kept e3 in
      let (cycles, unsynced, handed, e1) = keep_clean held e2 in
      let (own, e0) = hold_clean s e1 in
      let coherent : IsCoherent s = record {
        paths = commits-Coherent s.bench.watch.commit_snaps own peers;
        handed = handovers-HandOvers s.bench.watch.commit_snaps handed;
        mastered = cycles;
        synced = unsynced;
        quality =
            announces-AnnouncesQuality (clock_accuracy s.bench.self_present) s.bench.transmit.txf
              quality;
      } in
      (coherent, e0)

record-Graded :
    {S : Type 0} {t : Tally} {n : ℕ} {s : Suite S}
    → Graded t s n
    → Graded t (grade_the_record s) (suc (suc (suc (suc (suc (suc (suc (suc n))))))))
unfolding grade_the_record hold_every_committed_path_coherent keep_sync_ok_in_every_master_cycle
    end_every_peer_path_with_thisclock announce_the_image_clock_accuracy
record-Graded g = search (expect-Graded) depth 40

module _ (V : Verilated EngineIn EngineOut) (fuel : ℕ) {t : Tally} {n : ℕ} where
  -- From the end of the boot phases to the last phase that clocks.
  peer-Graded :
      (h : Phased V.State)
      → Graded t h.suite n
      → Graded t
          (clear_sync_ok_when_sync_stops_without_a_grandmaster_present V fuel
            (on_suite (peer_phases V fuel) (return_boot_stamp V fuel h))).suite
          (more 30 n)
  unfolding peer_phases return_boot_stamp
  peer-Graded h g =
      let stamped = txts_idx-Graded V _ _ g in
      let raised = master-Graded V fuel (capable-Graded V fuel stamped) in
      let aged = age-Graded V fuel (drop-Graded V fuel raised) in
      clear-Graded V fuel (on_suite (peer_phases V fuel) (return_boot_stamp V fuel h)) aged

module _ (V : Verilated EngineIn EngineOut) (fuel : ℕ) where
  -- The harness when the boot publication is graded, and after it.
  abbrev pub requested : Phased V.State
  requested =
      check_the_boot_pdelay_request V fuel (bring_the_engine_out_of_reset V fuel (phased V true))

  abbrev booted : Phased V.State
  booted = publish_thisclock_before_any_peer V requested

  abbrev clocked : Phased V.State
  clocked =
      clear_sync_ok_when_sync_stops_without_a_grandmaster_present V fuel
        (on_suite (peer_phases V fuel) (return_boot_stamp V fuel booted))

  requested-Graded : Graded (phased V true).suite.bench.tally requested.suite 6
  requested-Graded =
      request-Graded V fuel (bring_the_engine_out_of_reset V fuel (phased V true))
        (bring-Graded V fuel (phased V true) (Graded-start (phased V true).suite))

  booted-Graded : Graded (phased V true).suite.bench.tally booted.suite 13
  booted-Graded = publish-Graded V fuel requested requested-Graded

  pass-Graded : Graded (phased V true).suite.bench.tally (self_publication_pass V fuel).suite 51
  unfolding self_publication_pass run_the_self_publication_phases boot_phases
  pass-Graded = record-Graded (peer-Graded V fuel booted booted-Graded)

  -- What the verdict 0 says of the boot and of the record.
  passed :
      (self_publication_pass V fuel).suite.bench.tally.fails ≡ 0
      → Boots V requested.marks.cold_release_cyc
          (before requested.marks.boot_beat_cyc
            (drop requested.marks.cold_boot_mark requested.suite.bench.watch.commit_snaps))
          requested.suite
        × IsCoherent (self_publication_pass V fuel).suite
  unfolding self_publication_pass run_the_self_publication_phases boot_phases grade_the_record
      hold_every_committed_path_coherent keep_sync_ok_in_every_master_cycle
      end_every_peer_path_with_thisclock announce_the_image_clock_accuracy expect
  passed clean =
      let (coherent, end) = grade_the_record-IsCoherent clocked.suite clean in
      let after = (peer-Graded V fuel booted (Graded-start booted.suite)).bench.tally.kept in
      let here =
        (publish-Graded V fuel requested (Graded-start requested.suite)).bench.tally.kept in
      (
        publish_thisclock-Boots V requested (omega arith),
        record {
          paths = coherent.paths;
          handed = coherent.handed;
          mastered = coherent.mastered;
          synced = coherent.synced;
          quality = coherent.quality;
        },
      )

  -- For every engine and every bound on the rounds that one call of `service_pdelay` may take: the
  -- pass makes at least 51 comparisons and has no more failures than comparisons, and one of three
  -- cases holds. Some call goes on past the bound, and there is no status; or none does, the status is 1 and something failed;
  -- or none does, the status is 0, nothing failed, the boot publication was as it should be, and the
  -- record of the whole run is coherent: every commit that names us carries exactly our path, the
  -- path of every other commit has us at its end and nowhere else or is full with eight others, a commit of a peer
  -- right after one of a master has both flags low, there were master cycles and each had sync-ok,
  -- and every transmitted Announce of at least 66 octets has the clock quality of the image.
  pub self_publication_pass_lem :
      let h = self_publication_pass V fuel in
      let t = h.suite.bench.tally in
      (51 ≤ t.checks)
      × (t.fails ≤ t.checks)
      × (((pass_status V fuel ≡ none) × (h.suite.is_cut ≡ true))
          ⊎ (((pass_status V fuel ≡ some 1) × (h.suite.is_cut ≡ false) × (0 < t.fails))
              ⊎ ((pass_status V fuel ≡ some 0)
                  × (h.suite.is_cut ≡ false)
                  × (t.fails ≡ 0)
                  × Boots V requested.marks.cold_release_cyc
                      (before requested.marks.boot_beat_cyc (
                        drop requested.marks.cold_boot_mark
                          requested.suite.bench.watch.commit_snaps))
                      requested.suite
                  × IsCoherent h.suite)))
  unfolding pass_status bench exit_status
  self_publication_pass_lem =
      let s = (self_publication_pass V fuel).suite in
      let t = s.bench.tally in
      let c = pass-Graded.bench.tally in
      let counted : 51 ≤ t.checks = omega (arith, c.checks) in
      let bounded : t.fails ≤ t.checks = omega (arith, c.bound) in
      (
        counted,
        bounded,
        elim (Bool-cases s.is_cut) [
          | inl cut ↦ inl (rw cut refl, cut)
          | inr whole ↦ inr (elim (Bool-cases (t.fails == 0)) [
            | inl e ↦
                let clean = (==_iff t.fails 0).0 e in
                let (boots, coherent) = passed clean in
                inr (rw (whole, e) refl, whole, clean, boots, coherent)
            | inr e ↦ inl (rw (whole, e) refl, whole, ground arith)
          ])
        ],
      )
