-- ===== src/Engine/Suite/Phased.antt =====
-- tb/verilator/engine/sim_main.cpp, the members of `GptpEngineHarness` that only its phases use.
use fpga_g_ptp.Base.{ℕ, Bool, false}
use fpga_g_ptp.Harness.Verilated.{Verilated}
use fpga_g_ptp.Engine.Ports.{EngineIn, EngineOut}
use fpga_g_ptp.Engine.Bench.{bench}
use fpga_g_ptp.Engine.Pdelay.Peer.{pd_skip}
use fpga_g_ptp.Engine.Suite.{Suite}

-- What one phase records for a later phase to read.
pub record Marks : Type 0 where
  pub cold_boot_mark : ℕ
  pub cold_release_cyc : ℕ
  pub boot_beat_cyc : ℕ
  pub our_req_idx : ℕ
  pub t1 : ℕ
  pub t2r : ℕ
  pub t3r : ℕ

-- What the Sync intervals of a scripted grandmaster carry from one to the next.
pub record Intervals : Type 0 where
  pub s39_sync_seq : ℕ
  pub s39_ann_seq : ℕ
  pub s39_late_owed : Bool
  pub s39_late_seq : ℕ
  pub s39_late_local : ℕ

pub record Phased (S : Type 0) : Type 0 where
  pub suite : Suite S
  pub marks : Marks
  pub intervals : Intervals

abbrev pub on_suite : {S : Type 0} → (Suite S → Suite S) → Phased S → Phased S
on_suite f h = record h { suite = f h.suite }

-- The harness as constructed, for one value of `not_gm_capable`.
abbrev pub phased : (V : Verilated EngineIn EngineOut) (not_gm_capable : Bool) → Phased V.State
phased V not_gm_capable = record {
  suite = record {
    bench = bench V not_gm_capable;
    pdm = fpga_g_ptp.Engine.Pdelay.initial;
    svm = fpga_g_ptp.Engine.Servo.initial;
    pd_mode = pd_skip;
    pd_seen = 0;
    pd_self_sent = 0;
    tx_seen = 0;
    is_cut = false;
  };
  marks = record {
    cold_boot_mark = 0;
    cold_release_cyc = 0;
    boot_beat_cyc = 0;
    our_req_idx = 0;
    t1 = 0;
    t2r = 0;
    t3r = 0;
  };
  intervals = record {
    s39_sync_seq = 0x8901;
    s39_ann_seq = 0x8A01;
    s39_late_owed = false;
    s39_late_seq = 0;
    s39_late_local = 0;
  };
}
