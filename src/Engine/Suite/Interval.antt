-- ===== src/Engine/Suite/Interval.antt =====
-- tb/verilator/engine/sim_main.cpp, the Sync intervals of the grandmasters that phase 39 and the
-- later phases script.
use fpga_g_ptp.Base.{
  ℕ, ◌+◌, ◌-◌, ◌*◌, Bool, true, false, ◌&&◌, ◌||◌, [], ◌∷◌, ltb, if◌then◌else◌, length, u16,
  add_u64, sub_u64,
}
use fpga_g_ptp.Base.Int.{to_u64}
use fpga_g_ptp.Harness.Verilated.{Verilated}
use fpga_g_ptp.Wire.{Frame, put_ts}
use fpga_g_ptp.Engine.Frames.{ptp, follow_up}
use fpga_g_ptp.Engine.Phc.{phc}
use fpga_g_ptp.Engine.Ports.{EngineIn, EngineOut}
use fpga_g_ptp.Engine.Bench.{run, send_frame}
use fpga_g_ptp.Engine.Suite.{on_bench, run_svc}
use fpga_g_ptp.Engine.Suite.Phased.{Phased, on_suite}
use fpga_g_ptp.Engine.Suite.Send.{send_announce}

pub data SyncShape : Type 0 where
  usable stopped late_follow_up no_follow_up next_sequence : SyncShape

abbrev pub is_usable : SyncShape → Bool
is_usable usable = true
is_usable _ = false

abbrev pub is_stopped : SyncShape → Bool
is_stopped stopped = true
is_stopped _ = false

abbrev pub is_late : SyncShape → Bool
is_late late_follow_up = true
is_late _ = false

abbrev pub is_next_sequence : SyncShape → Bool
is_next_sequence next_sequence = true
is_next_sequence _ = false

abbrev pub gms : ℕ
gms = 0x0089A0FFFE000001

abbrev pub srcs : ℕ
srcs = 0x0089A0FFFE000002

-- The harness and the cycles that the interval has spent.
pub record Spent (S : Type 0) : Type 0 where
  pub phased : Phased S
  pub spent : ℕ

module _ (V : Verilated EngineIn EngineOut) where
  -- `send_frame(f.b, rx_ts); run(1000); spent += 1000 + f.b.size();`
  unfoldable pub spend : Frame → (rx_ts : ℕ) → Spent V.State → Spent V.State
  spend f rx_ts p = record p {
    phased = on_suite (on_bench (λ b. run V 1000 (send_frame V f rx_ts b))) p.phased;
    spent = add_u64 p.spent (1000 + length f);
  }

  -- The Follow_Up that the late shape still owes, after this Sync.
  unfoldable pub send_owed : SyncShape → (local src : ℕ) → Spent V.State → Spent V.State
  send_owed shape local src p =
      let i = p.phased.intervals in
      let origin = sub_u64 (sub_u64 i.s39_late_local (to_u64 p.phased.suite.pdm.d)) 777 in
      if is_late shape && i.s39_late_owed
      then spend (follow_up i.s39_late_seq 0 origin src 0x0000) (add_u64 local 500) p
      else p

  -- `fuel` is that of `service_pdelay`.
  module _ (fuel : ℕ) where
    -- The Follow_Up of this Sync, where the shape has one.
    unfoldable pub send_paired :
        SyncShape → (seq local on_time fu_after src : ℕ) → Spent V.State → Spent V.State
    send_paired shape seq local on_time fu_after src p =
        let fu_seq = if is_usable shape then seq else u16 (seq + 1) in
        let origin = if is_usable shape then on_time else sub_u64 on_time 777 in
        if is_usable shape || is_next_sequence shape
        then spend (follow_up fu_seq 0 origin src 0x0000) (add_u64 local (fu_after * 500))
            (record p {
              phased = on_suite (run_svc V fuel fu_after) p.phased;
              spent = add_u64 p.spent fu_after;
            })
        else p

    -- The Sync of the interval and what follows it.
    unfoldable pub send_sync : SyncShape → (fu_after src : ℕ) → Spent V.State → Spent V.State
    send_sync shape fu_after src p =
        let i = p.phased.intervals in
        let local = add_u64 (phc p.phased.suite.bench.phc) 150 in
        let seq = i.s39_sync_seq in
        let counted = record p.phased { intervals = record i { s39_sync_seq = u16 (seq + 1) } } in
        let p =
          spend (put_ts (ptp 0x0 seq 0 0x0208 10 src) 0) local (record p { phased = counted }) in
        let on_time = sub_u64 local (to_u64 p.phased.suite.pdm.d) in
        let p = send_paired shape seq local on_time fu_after src (send_owed shape local src p) in
        record p {
          phased = record p.phased {
            intervals = record p.phased.intervals {
              s39_late_owed = is_late shape;
              s39_late_seq = seq;
              s39_late_local = local;
            };
          };
        }

    unfoldable pub s39_announce : Phased V.State → Phased V.State
    s39_announce h =
        let seq = h.intervals.s39_ann_seq in
        let rx_ts = add_u64 (phc h.suite.bench.phc) 100 in
        let s = send_announce V fuel seq 1 gms 1 srcs (gms ∷ srcs ∷ []) rx_ts false h.suite in
        record h { suite = s; intervals = record h.intervals { s39_ann_seq = u16 (seq + 1) } }

    unfoldable pub s39_interval :
        SyncShape
        → (period : ℕ) (announce : Bool) (fu_after src : ℕ) → Phased V.State
        → Phased V.State
    s39_interval shape period announce fu_after src h =
        let p : Spent V.State = record { phased = h; spent = 0 } in
        let p = if is_stopped shape then p else send_sync shape fu_after src p in
        let p =
          if announce
          then record { phased = s39_announce p.phased; spent = add_u64 p.spent 8000 }
          else p in
        if ltb p.spent period
        then on_suite (run_svc V fuel (period - p.spent)) p.phased
        else p.phased
