-- ===== src/Engine/Tests/Waits.antt =====
-- The bounded waits, the auto peer and a boot phase of the engine suite on concrete engines.
use fpga_g_ptp.Base.{ℕ, false, [], ◌∷◌, suc, ◌≤◌, refl, arith, leb, if◌then◌else◌}
use fpga_g_ptp.Harness.Verilated.{Verilated}
use fpga_g_ptp.Engine.Pdelay.{PdelayModelState}
use fpga_g_ptp.Engine.Pdelay.Peer.{pd_normal}
use fpga_g_ptp.Engine.Ports.{EngineIn, EngineOut}
use fpga_g_ptp.Engine.Suite.{
  Suite, service_pdelay, serve_loop, serve_next, turn, flags_are, wait_until,
}
use fpga_g_ptp.Engine.Suite.Laws.{EndsAt, after, wait_until_lem}
use fpga_g_ptp.Engine.Const.{our_cid}
use fpga_g_ptp.Engine.Watch.{PubSnap, committed_path_is}
use fpga_g_ptp.Engine.Suite.Phased.{Phased, phased}
use fpga_g_ptp.Engine.Suite.Boot.{boot_commits, grade_boot, publish_thisclock_before_any_peer}
use fpga_g_ptp.Engine.Suite.Send.{expect}
use fpga_g_ptp.Harness.Tally.{expect_eq}
use fpga_g_ptp.Engine.Suite.Boot.Laws.{Boots, before, publish_thisclock-Boots}
use fpga_g_ptp.Engine.Tests.{quiet, start}

-- An engine that raises a flag at its sixth evaluation.
abbrev pub slow : Verilated EngineIn EngineOut
slow = record {
  State = ℕ;
  fresh = 0;
  eval = λ ports evals. suc evals;
  out = λ evals. record quiet { pub_flags_o = if leb 6 evals then 0x4 else 0 };
}

abbrev pub waiting : Suite ℕ
waiting = record {
  bench = start;
  pdm = fpga_g_ptp.Engine.Pdelay.initial;
  svm = fpga_g_ptp.Engine.Servo.initial;
  pd_mode = pd_normal;
  pd_seen = 0;
  pd_self_sent = 0;
  tx_seen = 0;
  is_cut = false;
}

wait_until_example :
    (j : ℕ) × (j ≤ 4)
    × EndsAt slow 8
        (flags_are slow 8 0x4 0x4)
        0
        j
        waiting
        (wait_until slow 8 (flags_are slow 8 0x4 0x4) 10 0 waiting)
unfolding after turn fpga_g_ptp.Engine.Bench.tick fpga_g_ptp.Engine.Transmit.capture
    fpga_g_ptp.Engine.Face.drive_result_face service_pdelay serve_loop serve_next
wait_until_example =
    wait_until_lem slow 8 (flags_are slow 8 0x4 0x4) 10 0 4 waiting (omega arith) refl

-- The commits of a plane that boots as it should, with one of the time before and one of the beat.
abbrev pub at_cycle : ℕ → PubSnap
at_cycle cyc = record {
  gm = our_cid;
  parent = our_cid;
  count = 1;
  head = our_cid;
  tail = 0 ∷ 0 ∷ 0 ∷ 0 ∷ 0 ∷ 0 ∷ 0 ∷ [];
  cyc = cyc;
  flags = 1;
}

abbrev booted : Phased ℕ
booted = record (phased slow false) {
  suite = record waiting {
    bench = record start {
      watch = record fpga_g_ptp.Engine.Watch.initial {
        commit_snaps = at_cycle 3 ∷ at_cycle 8 ∷ at_cycle 90 ∷ [];
        boot_cycles = 70;
      };
    };
  };
  marks = record (phased slow false).marks {
    cold_boot_mark = 1;
    cold_release_cyc = 8;
    boot_beat_cyc = 80;
    our_req_idx = 0;
    t1 = 1_000_000;
  };
}

publish_thisclock_example : Boots slow 8 (at_cycle 8 ∷ []) booted.suite
unfolding before publish_thisclock_before_any_peer grade_boot expect expect_eq boot_commits
    committed_path_is
publish_thisclock_example = publish_thisclock-Boots slow booted refl
