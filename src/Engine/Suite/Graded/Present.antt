-- ===== src/Engine/Suite/Graded/Present.antt =====
-- tb/verilator/engine/sim_main.cpp, how many comparisons the phases of a grandmaster of priority1 255
-- make at least.
use fpga_g_ptp.Base.{
  ℕ, suc, ◌+◌, ◌-◌, ◌%◌, refl, Bool, true, false, ◌&&◌, ◌||◌, ◌==◌, ltb, if◌then◌else◌, if_cases,
  for_range, for_range_inv, u16, add_u64,
}
use fpga_g_ptp.Harness.Verilated.{Verilated}
use fpga_g_ptp.Harness.Tally.{Tally}
use fpga_g_ptp.Wire.{Frame, put_ts}
use fpga_g_ptp.Engine.Frames.{ptp}
use fpga_g_ptp.Engine.Phc.{phc}
use fpga_g_ptp.Engine.Ports.{EngineIn, EngineOut}
use fpga_g_ptp.Engine.Suite.{Suite, run_svc, wait_flags}
use fpga_g_ptp.Engine.Suite.Phased.{Phased, on_suite}
use fpga_g_ptp.Engine.Suite.Interval.{
  SyncShape, usable, stopped, is_usable, is_stopped, is_late, is_next_sequence, srcs, Spent, spend,
  send_owed, send_paired, send_sync, s39_announce, s39_interval,
}
use fpga_g_ptp.Engine.Suite.Present.{
  Announcer, g255, g255_sync, announce_of, from_mastership, age_only_while_a_grandmaster_is_present,
  sync_round, raise_sync_ok, elect_and_raise, stop_sync, stop_and_clear,
  clear_sync_ok_when_sync_stops_without_a_grandmaster_present,
}
use fpga_g_ptp.Engine.Suite.Graded.{
  Graded, Graded-same, expect-Graded, run-Clocked, run_on-Graded, send_frame-Clocked,
}
use fpga_g_ptp.Engine.Suite.Graded.Peer.{run_svc-Graded, wait_flags-Graded, send_announce-Graded}

module _ (V : Verilated EngineIn EngineOut) {t : Tally} {n : ℕ} where
  spend-Graded :
      (f : Frame) (rx_ts : ℕ) (p : Spent V.State)
      → Graded t p.phased.suite n
      → Graded t (spend V f rx_ts p).phased.suite n
  unfolding spend
  spend-Graded f rx_ts p g = record {
    bench = run-Clocked V 1000 (send_frame-Clocked V f rx_ts g.bench);
  }

  send_owed-Graded :
      (shape : SyncShape) (local src : ℕ) (p : Spent V.State)
      → Graded t p.phased.suite n
      → Graded t (send_owed V shape local src p).phased.suite n
  unfolding send_owed
  send_owed-Graded shape local src p g =
      if_cases (λ (q : Spent V.State). Graded t q.phased.suite n)
        (is_late shape && p.phased.intervals.s39_late_owed) (λ e. spend-Graded _ _ p g) (λ e. g)

module _ (V : Verilated EngineIn EngineOut) (fuel : ℕ) {t : Tally} {n : ℕ} where
  send_paired-Graded :
      (shape : SyncShape) (seq local on_time fu_after src : ℕ) (p : Spent V.State)
      → Graded t p.phased.suite n
      → Graded t (send_paired V fuel shape seq local on_time fu_after src p).phased.suite n
  unfolding send_paired
  send_paired-Graded shape seq local on_time fu_after src p g =
      let ran : Spent V.State = record {
        phased = on_suite (run_svc V fuel fu_after) p.phased;
        spent = add_u64 p.spent fu_after;
      } in
      if_cases (λ (q : Spent V.State). Graded t q.phased.suite n)
        (is_usable shape || is_next_sequence shape)
        (λ e. spend-Graded V _ _ ran (run_svc-Graded V fuel fu_after g)) (λ e. g)

  send_sync-Graded :
      (shape : SyncShape) (fu_after src : ℕ) (p : Spent V.State)
      → Graded t p.phased.suite n
      → Graded t (send_sync V fuel shape fu_after src p).phased.suite n
  unfolding send_sync
  send_sync-Graded shape fu_after src p g =
      let i = p.phased.intervals in
      let local = add_u64 (phc p.phased.suite.bench.phc) 150 in
      let seq = i.s39_sync_seq in
      let counted : Spent V.State = record p {
        phased = record p.phased { intervals = record i { s39_sync_seq = u16 (seq + 1) } };
      } in
      let sync = put_ts (ptp 0x0 seq 0 0x0208 10 src) 0 in
      let sent = spend V sync local counted in
      send_paired-Graded shape seq local _ fu_after src (send_owed V shape local src sent)
        (send_owed-Graded V shape local src sent (spend-Graded V sync local counted g))

  announce-Graded :
      (h : Phased V.State) → Graded t h.suite n → Graded t (s39_announce V fuel h).suite n
  unfolding s39_announce
  announce-Graded h g = send_announce-Graded V fuel _ _ _ _ _ _ _ false g

  interval-Graded :
      (shape : SyncShape) (period : ℕ) (announce : Bool) (fu_after src : ℕ) (h : Phased V.State)
      → Graded t h.suite n
      → Graded t (s39_interval V fuel shape period announce fu_after src h).suite n
  unfolding s39_interval
  interval-Graded shape period announce fu_after src h g =
      let start : Spent V.State = record { phased = h; spent = 0 } in
      let P : Spent V.State → Type 0 = λ q. Graded t q.phased.suite n in
      let p : Spent V.State =
        if is_stopped shape then start else send_sync V fuel shape fu_after src start in
      let sent =
        if_cases P (is_stopped shape) (λ e. g) (λ e. send_sync-Graded shape fu_after src start g) in
      let q : Spent V.State =
        if announce
        then record { phased = s39_announce V fuel p.phased; spent = add_u64 p.spent 8000 }
        else p in
      let told : P q = if_cases P announce (λ e. announce-Graded p.phased sent) (λ e. sent) in
      if_cases (λ (k : Phased V.State). Graded t k.suite n) (ltb q.spent period)
        (λ e. run_svc-Graded V fuel (period - q.spent) told) (λ e. told)

module _ (V : Verilated EngineIn EngineOut) (fuel : ℕ) {t : Tally} {n : ℕ} where
  announce_of-Graded :
      (a : Announcer) (seq : ℕ) {s : Suite V.State}
      → Graded t s n
      → Graded t (announce_of V fuel a seq s) n
  unfolding announce_of
  announce_of-Graded a seq g = send_announce-Graded V fuel _ _ _ _ _ _ _ false g

  mastership-Graded : {s : Suite V.State} → Graded t s n → Graded t (from_mastership V fuel s) n
  unfolding from_mastership
  mastership-Graded g =
      run_on-Graded V 200 (wait_flags-Graded V fuel 2 2 900000 (Graded-same _ refl g))

  round-Graded :
      (due : Bool) (seq : ℕ) (is_stop : Bool) (h : Phased V.State)
      → Graded t h.suite n
      → Graded t (sync_round V fuel due seq is_stop h).suite n
  unfolding sync_round
  round-Graded due seq is_stop h g =
      let P : Phased V.State → Type 0 = λ k. Graded t k.suite n in
      let k : Phased V.State = if due then on_suite (announce_of V fuel g255_sync seq) h else h in
      let told : P k = if_cases P due (λ e. announce_of-Graded g255_sync seq g) (λ e. g) in
      if_cases P is_stop (λ e. interval-Graded V fuel stopped 250000 false 1000 srcs k told)
        (λ e. interval-Graded V fuel usable 250000 false 1000 g255_sync.src k told)

  -- Four Announces, a second apart.
  announces-Graded :
      {s : Suite V.State}
      → Graded t s n
      → Graded t
          (for_range 4 0 (λ k c. announce_of V fuel g255 (0x8B03 + k) (run_svc V fuel 2000000 c)) s)
          n
  announces-Graded {s} g =
      for_range_inv (λ (c : Suite V.State). Graded t c n)
        (λ k c. announce_of V fuel g255 (0x8B03 + k) (run_svc V fuel 2000000 c))
        (λ k c h. announce_of-Graded g255 (0x8B03 + k) (run_svc-Graded V fuel 2000000 h)) 4 0 s g

module _ (V : Verilated EngineIn EngineOut) (fuel : ℕ) {t : Tally} {n : ℕ} where
  raise_sync_ok-Graded :
      (h : Phased V.State) → Graded t h.suite n → Graded t (raise_sync_ok V fuel h).suite n
  unfolding raise_sync_ok
  raise_sync_ok-Graded h g =
      for_range_inv (λ (k : Phased V.State). Graded t k.suite n)
        (λ k c. sync_round V fuel (k % 8 == 3) (if k == 3 then 0x8C02 else 0x8C03) false c)
        (λ k c. round-Graded V fuel _ _ false c) 16 0 h g

  stop_sync-Graded :
      (h : Phased V.State) → Graded t h.suite n → Graded t (stop_sync V fuel h).suite n
  unfolding stop_sync
  stop_sync-Graded h g =
      for_range_inv (λ (k : Phased V.State). Graded t k.suite n)
        (λ k c. sync_round V fuel (k == 3) 0x8C04 true c) (λ k c. round-Graded V fuel _ _ true c) 8
        0 h g

module _ (V : Verilated EngineIn EngineOut) (fuel : ℕ) {t : Tally} {n : ℕ} where
  elect-Graded :
      (h : Phased V.State) → Graded t h.suite n → Graded t (elect_and_raise V fuel h).suite (suc n)
  unfolding elect_and_raise
  elect-Graded h g =
      let s = announce_of V fuel g255_sync 0x8C01 (from_mastership V fuel h.suite) in
      let told = announce_of-Graded V fuel g255_sync 0x8C01 (mastership-Graded V fuel g) in
      expect-Graded _ 1 (raise_sync_ok-Graded V fuel (record h { suite = s }) told)

  clear_rest-Graded :
      (h : Phased V.State) → Graded t h.suite n → Graded t (stop_and_clear V fuel h).suite (suc n)
  unfolding stop_and_clear
  clear_rest-Graded h g =
      let last = s39_interval V fuel usable 4000 false 1000 g255_sync.src h in
      let early = wait_flags V fuel 8 0 700000 last.suite in
      let fell = wait_flags V fuel 8 0 60000 early.1 in
      let waited = wait_flags-Graded V fuel 8 0 60000 (
        wait_flags-Graded V fuel 8 0 700000
          (interval-Graded V fuel usable 4000 false 1000 g255_sync.src h g)) in
      expect-Graded _ 1 (stop_sync-Graded V fuel (record last { suite = fell.1 }) waited)

module _ (V : Verilated EngineIn EngineOut) (fuel : ℕ) {t : Tally} {n : ℕ} where
  pub age-Graded :
      {s : Suite V.State}
      → Graded t s n
      → Graded t (age_only_while_a_grandmaster_is_present V fuel s) (suc (suc (suc (suc n))))
  unfolding age_only_while_a_grandmaster_is_present
  age-Graded g =
      let a = expect-Graded _ 1 (announce_of-Graded V fuel _ _ (mastership-Graded V fuel g)) in
      let b = expect-Graded _ 1 (announce_of-Graded V fuel _ _ a) in
      let c = expect-Graded _ 1 (announces-Graded V fuel b) in
      expect-Graded _ 1 (run_on-Graded V 200 (announce_of-Graded V fuel _ _ c))

  pub clear-Graded :
      (h : Phased V.State)
      → Graded t h.suite n
      → Graded t
          (clear_sync_ok_when_sync_stops_without_a_grandmaster_present V fuel h).suite
          (suc (suc n))
  unfolding clear_sync_ok_when_sync_stops_without_a_grandmaster_present
  clear-Graded h g = clear_rest-Graded V fuel (elect_and_raise V fuel h) (elect-Graded V fuel h g)
