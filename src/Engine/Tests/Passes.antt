-- ===== src/Engine/Tests/Passes.antt =====
-- The fourth pass of the engine suite and the grading of its record, on concrete engines and records.
use fpga_g_ptp.Base.{
  ℕ, none, some, true, false, ◌≤◌, ◌<◌, ◌≡◌, ◌⊎◌, [], ◌∷◌, refl, drop, for_each, for_range,
}
use fpga_g_ptp.Engine.Const.{our_cid}
use fpga_g_ptp.Engine.Frames.{send_announce_frame, put_hops, put_zeros, ptp}
use fpga_g_ptp.Wire.{put_u8, put_u16, put_u32, put_u48, put_u64}
use fpga_g_ptp.Wire.Read.{fld16, type_of}
use fpga_g_ptp.Harness.Tally.{expect_eq}
use fpga_g_ptp.Engine.Watch.{PubSnap, committed_path_is}
use fpga_g_ptp.Engine.Suite.Send.{expect}
use fpga_g_ptp.Engine.Suite.Record.{
  announce_the_image_clock_accuracy, announces, end_every_peer_path_with_thisclock,
  keep_sync_ok_in_every_master_cycle, hold_every_committed_path_coherent, grade_announce,
  clock_accuracy, entry, grade_handover, grade_one, grade_path, handovers, handovers_after,
  is_appended, is_filled, is_wrong, note_place, peer_paths, places_of, self_bad, self_is_bad,
}
use fpga_g_ptp.Engine.Suite.{Suite}
use fpga_g_ptp.Engine.Suite.Boot.Laws.{Boots, before}
use fpga_g_ptp.Engine.Suite.Pass.{grade_the_record, self_publication_pass, pass_status}
use fpga_g_ptp.Engine.Suite.Pass.Laws.{
  IsCoherent, requested, grade_the_record-IsCoherent, self_publication_pass_lem,
}
use fpga_g_ptp.Engine.Tests.{start}
use fpga_g_ptp.Engine.Tests.Waits.{slow, waiting, at_cycle}

self_publication_pass_example :
    let h = self_publication_pass slow 3 in
    let t = h.suite.bench.tally in
    let r = requested slow 3 in
    (51 ≤ t.checks)
    × (t.fails ≤ t.checks)
    × (((pass_status slow 3 ≡ none) × (h.suite.is_cut ≡ true))
        ⊎ (((pass_status slow 3 ≡ some 1) × (h.suite.is_cut ≡ false) × (0 < t.fails))
            ⊎ ((pass_status slow 3 ≡ some 0)
                × (h.suite.is_cut ≡ false)
                × (t.fails ≡ 0)
                × Boots slow r.marks.cold_release_cyc
                    (before r.marks.boot_beat_cyc
                      (drop r.marks.cold_boot_mark r.suite.bench.watch.commit_snaps))
                    r.suite
                × IsCoherent h.suite)))
self_publication_pass_example = self_publication_pass_lem slow 3

-- A master with sync-ok, a peer that it hands over to, and the path of that peer.
abbrev peer : PubSnap
peer = record (at_cycle 20) {
  gm = 0x0089B0FFFE000001;
  count = 2;
  head = 0x0089B0FFFE000001;
  tail = our_cid ∷ 0 ∷ 0 ∷ 0 ∷ 0 ∷ 0 ∷ 0 ∷ [];
}

abbrev graded : Suite ℕ
graded = record waiting {
  bench = record start {
    watch = record fpga_g_ptp.Engine.Watch.initial {
      commit_snaps = record (at_cycle 9) { flags = 0xF } ∷ peer ∷ [];
      master_cycles = 11;
    };
    transmit = record fpga_g_ptp.Engine.Transmit.initial {
      txf =
          (0x5A ∷ [])
          ∷ send_announce_frame 1 248 our_cid 0 our_cid (our_cid ∷ []) fpga_g_ptp.Base.false
          ∷ [];
    };
  };
}

grade_the_record_example : IsCoherent graded × (graded.bench.tally.fails ≡ 0)
unfolding grade_the_record announce_the_image_clock_accuracy announces
    end_every_peer_path_with_thisclock keep_sync_ok_in_every_master_cycle
    hold_every_committed_path_coherent grade_announce clock_accuracy entry grade_handover grade_one
    grade_path handovers handovers_after is_appended is_filled is_wrong note_place peer_paths
    places_of self_bad self_is_bad expect expect_eq for_each for_range send_announce_frame put_hops
    put_zeros ptp put_u8 put_u16 put_u32 put_u48 put_u64 committed_path_is fld16 type_of
grade_the_record_example = grade_the_record-IsCoherent graded refl
